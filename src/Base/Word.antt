-- ===== src/Base/Word.antt =====
-- Go's machine integers: int64 as an integer with its wrap-around, uint64 and uint32 as a number
-- with its own.
use juno_exchange_kit.Base.{ℕ, ◌-◌, ◌%◌, ◌≤◌, ◌<◌, ◌≡◌, arith, ltb, if◌then◌else◌}
use juno_exchange_kit.Base.Int.{ℤ, pos, negsuc, pos_part, neg_part, ◌+ℤ◌, ◌-ℤ◌, ◌≤ℤ◌}

-- 2 ^ 63, 2 ^ 64 and the bounds that the source writes as math.MaxInt64 and ^uint32(0).
abbrev pub half_word : ℕ
half_word = 9223372036854775808

abbrev pub word : ℕ
word = 18446744073709551616

abbrev pub max_int64 : ℕ
max_int64 = 9223372036854775807

abbrev pub max_uint32 : ℕ
max_uint32 = 4294967295

abbrev pub word32 : ℕ
word32 = 4294967296

-- The integer that a 64-bit pattern stands for.
abbrev pub of_word : ℕ → ℤ
of_word u = if ltb u half_word then pos u else negsuc (word - 1 - u)

-- What an int64 operation keeps of its exact result.
unfoldable pub wrap_int64 : ℤ → ℤ
wrap_int64 (pos n) = of_word (n % word)
wrap_int64 (negsuc n) = of_word (word - 1 - n % word)

unfoldable pub add_int64 : ℤ → ℤ → ℤ
add_int64 a b = wrap_int64 (a +ℤ b)

unfoldable pub sub_int64 : ℤ → ℤ → ℤ
sub_int64 a b = wrap_int64 (a -ℤ b)

-- The values of an int64.
abbrev pub IsInt64 : ℤ → Type 0
IsInt64 a = (pos_part a < half_word) × (neg_part a ≤ half_word)

abbrev pub IsNat : ℤ → Type 0
IsNat a = neg_part a ≡ 0

pub wrap_int64_exact : (a : ℤ) → IsInt64 a → wrap_int64 a ≡ a
unfolding wrap_int64
wrap_int64_exact (pos n) h = ground arith
wrap_int64_exact (negsuc n) h = ground arith

pub wrap_int64-IsInt64 : (a : ℤ) → IsInt64 (wrap_int64 a)
unfolding wrap_int64
wrap_int64-IsInt64 (pos n) = ground arith
wrap_int64-IsInt64 (negsuc n) = ground arith

pub add_int64_exact : (a b : ℤ) → IsInt64 (a +ℤ b) → add_int64 a b ≡ a +ℤ b
unfolding add_int64
add_int64_exact a b h = wrap_int64_exact (a +ℤ b) h

pub sub_int64_exact : (a b : ℤ) → IsInt64 (a -ℤ b) → sub_int64 a b ≡ a -ℤ b
unfolding sub_int64
sub_int64_exact a b h = wrap_int64_exact (a -ℤ b) h

-- A sum of a number and an int64 that is not negative has not wrapped around.
wrap_int64_nonneg :
    (a : ℤ) → pos_part a < word → neg_part a ≤ half_word → IsNat (wrap_int64 a) → IsInt64 a
unfolding wrap_int64
wrap_int64_nonneg (pos n) h k e = ground arith
wrap_int64_nonneg (negsuc n) h k e = ground arith

pub add_int64_nonneg :
    (a b : ℤ)
    → IsInt64 a
    → IsNat a
    → IsInt64 b
    → IsNat (add_int64 a b)
    → (add_int64 a b ≡ a +ℤ b) × IsInt64 (a +ℤ b)
unfolding add_int64
add_int64_nonneg a b ha na hb h =
    let fits : IsInt64 (a +ℤ b) =
      wrap_int64_nonneg (a +ℤ b) (unfold ◌+ℤ◌ in ground arith) (unfold ◌+ℤ◌ in ground arith) h in
    (wrap_int64_exact (a +ℤ b) fits, fits)

pub IsNat-of_nonneg : (a : ℤ) → pos 0 ≤ℤ a → IsNat a
IsNat-of_nonneg a h = ground arith
