-- ===== src/Base/Decimal.antt =====
-- strconv.FormatUint in base 10, strconv.ParseUint in base 16 and 10, and strconv.ParseInt.
use juno_exchange_kit.Base.{
  ℕ, ◌+◌, ◌-◌, ◌*◌, ◌/◌, ◌%◌, ◌<◌, ◌≡◌, refl, Bool, true, false, ◌&&◌, Option, none, some, [], ◌∷◌,
  ◌++◌, ltb, leb, if◌then◌else◌, zero, suc, arith, Bool-cases, inl, inr, ◌∙◌,
}
use juno_exchange_kit.Base.{◌==◌, ◌≤◌, ◌≢◌, ap}
use juno_exchange_kit.Base.Int.{ℤ, pos, negsuc}
use juno_exchange_kit.Base.Word.{half_word, max_int64, IsInt64}
use juno_exchange_kit.Base.Text.{Text}

-- The digits of `n`, the last of them `n % 10`; `n` is below 10 to the power of the fuel.
unfoldable pub digits : ℕ → ℕ → Text
digits zero n = []
digits (suc fuel) n =
    let rest = digits fuel (n / 10) in
    if ltb n 10 then (48 + n) ∷ [] else rest ++ (48 + n % 10) ∷ []

-- A uint64 has twenty digits at most.
unfoldable pub format_uint : ℕ → Text
format_uint n = digits 20 n

-- The value of decimal digits, after a value that stands before them.
unfoldable pub decimal_from : ℕ → Text → ℕ
decimal_from before [] = before
decimal_from before (c ∷ s) = decimal_from (10 * before + (c - 48)) s

unfoldable pub decimal_value : Text → ℕ
decimal_value s = decimal_from 0 s

decimal_from-snoc :
    (b c : ℕ) (s : Text) → decimal_from b (s ++ c ∷ []) ≡ 10 * decimal_from b s + (c - 48)
unfolding decimal_from
decimal_from-snoc b c [] = refl
decimal_from-snoc b c (d ∷ s) = decimal_from-snoc (10 * b + (d - 48)) c s

-- Ten to the power of the fuel, computed as the digits are.
abbrev power_ten : ℕ → ℕ
power_ten zero = 1
power_ten (suc k) = 10 * power_ten k

decimal_value-digits : (fuel n : ℕ) → n < power_ten fuel → decimal_value (digits fuel n) ≡ n
unfolding digits decimal_value decimal_from
decimal_value-digits zero n h = omega arith
decimal_value-digits (suc fuel) n h = elim (Bool-cases (ltb n 10)) [
  | inl e ↦ rw (digits, e) (omega arith)
  | inr e ↦
      let rest = decimal_value-digits fuel (n / 10) (omega arith) in
      rw (digits, e)
        (decimal_from-snoc 0 (48 + n % 10) (digits fuel (n / 10)) ∙ omega (arith, rest))
]

-- The digits that are printed of a number below 10 ^ 20 have its value.
pub decimal_value-format_uint :
    (n : ℕ) → n < 100000000000000000000 → decimal_value (format_uint n) ≡ n
unfolding format_uint
decimal_value-format_uint n h = decimal_value-digits 20 n h

-- A digit of base 16.
unfoldable pub hex_value : ℕ → Option ℕ
hex_value c =
    if leb 48 c && leb c 57
    then some (c - 48)
    else if leb 97 c && leb c 102
    then some (c - 87)
    else if leb 65 c && leb c 70
    then some (c - 55)
    else none

hex_from : ℕ → Text → Option ℕ
hex_from before [] = some before
hex_from before (c ∷ s) = elim (hex_value c) [ none ↦ none | some d ↦ hex_from (16 * before + d) s ]

-- strconv.ParseUint (s, 16, 32): no digits, another character and a value of more than 32 bits are
-- errors.
unfoldable pub parse_hex32 : Text → Option ℕ
unfolding hex_from
parse_hex32 [] = none
parse_hex32 (c ∷ s) = elim (hex_from 0 (c ∷ s)) [
  | none ↦ none
  | some v ↦ if leb v 4294967295 then some v else none
]

-- hex.DecodeString succeeds: digits alone, and an even number of them.
unfoldable pub is_hex : Text → Bool
is_hex [] = true
is_hex (c ∷ []) = false
is_hex (c ∷ d ∷ s) = elim (hex_value c) [
  | none ↦ false
  | some x ↦ elim (hex_value d) [ none ↦ false | some y ↦ is_hex s ]
]

unfoldable pub is_digit : ℕ → Bool
is_digit c = leb 48 c && leb c 57

unfoldable pub all_digits : Text → Bool
all_digits [] = true
all_digits (c ∷ s) = is_digit c && all_digits s

-- strconv.ParseUint in base 10: no digits, another character and a value above the largest are errors.
unfoldable pub parse_uint : ℕ → Text → Option ℕ
parse_uint largest [] = none
parse_uint largest (c ∷ s) =
    if all_digits (c ∷ s) && leb (decimal_value (c ∷ s)) largest
    then some (decimal_value (c ∷ s))
    else none

negative : Option ℕ → Option ℤ
negative none = none
negative (some zero) = some (pos 0)
negative (some (suc n)) = some (negsuc n)

positive : Option ℕ → Option ℤ
positive none = none
positive (some n) = some (pos n)

-- strconv.ParseInt (s, 10, 64): a sign may stand in front.
unfoldable pub parse_int64 : Text → Option ℤ
unfolding negative positive
parse_int64 [] = none
parse_int64 (c ∷ s) =
    if c == 45
    then negative (parse_uint half_word s)
    else if c == 43
    then positive (parse_uint max_int64 s)
    else positive (parse_uint max_int64 (c ∷ s))

pub parse_uint-le : (largest : ℕ) (s : Text) {n : ℕ} → parse_uint largest s ≡ some n → n ≤ largest
unfolding parse_uint
parse_uint-le largest [] h = absurd (ground arith)
parse_uint-le largest (c ∷ s) h = ground arith

negative-IsInt64 :
    (o : Option ℕ) {v : ℤ}
    → ((n : ℕ) → o ≡ some n → n ≤ half_word)
    → negative o ≡ some v
    → IsInt64 v
unfolding negative
negative-IsInt64 none small h = absurd (ground arith)
negative-IsInt64 (some zero) small h = ground arith
negative-IsInt64 (some (suc n)) small h = ground (arith, small (suc n) refl)

positive-IsInt64 :
    (o : Option ℕ) {v : ℤ}
    → ((n : ℕ) → o ≡ some n → n ≤ max_int64)
    → positive o ≡ some v
    → IsInt64 v
unfolding positive
positive-IsInt64 none small h = absurd (ground arith)
positive-IsInt64 (some n) small h = ground (arith, small n refl)

-- What ParseInt returns is an int64.
pub parse_int64-IsInt64 : (s : Text) {v : ℤ} → parse_int64 s ≡ some v → IsInt64 v
unfolding parse_int64
parse_int64-IsInt64 [] h = absurd (ground arith)
parse_int64-IsInt64 (c ∷ s) h = elim (Bool-cases (c == 45)) [
  | inl e ↦ negative-IsInt64 (parse_uint half_word s) (λ n. parse_uint-le half_word s) (rw e at h)
  | inr e ↦ elim (Bool-cases (c == 43)) [
    | inl f ↦
        positive-IsInt64 (parse_uint max_int64 s) (λ n. parse_uint-le max_int64 s) (rw (e, f) at h)
    | inr f ↦
        positive-IsInt64 (parse_uint max_int64 (c ∷ s)) (λ n. parse_uint-le max_int64 (c ∷ s))
          (rw (e, f) at h)
  ]
]

pub all_digits-snoc :
    (c : ℕ) (s : Text) → all_digits s ≡ true → is_digit c ≡ true → all_digits (s ++ c ∷ []) ≡ true
unfolding all_digits
all_digits-snoc c [] h k = rw k refl
all_digits-snoc c (d ∷ s) h k = ground (arith, all_digits-snoc c s)

all_digits-digits : (fuel n : ℕ) → all_digits (digits fuel n) ≡ true
unfolding digits all_digits is_digit
all_digits-digits zero n = refl
all_digits-digits (suc fuel) n = elim (Bool-cases (ltb n 10)) [
  | inl e ↦ rw (digits, e) (ground arith)
  | inr e ↦
      rw (digits, e)
        (all_digits-snoc (48 + n % 10) (digits fuel (n / 10)) (all_digits-digits fuel (n / 10))
          (ground arith))
]

parse_uint_digits :
    (largest : ℕ) (s : Text)
    → s ≢ []
    → all_digits s ≡ true
    → decimal_value s ≤ largest
    → parse_uint largest s ≡ some (decimal_value s)
unfolding parse_uint
parse_uint_digits largest [] filled h le = absurd (filled refl)
parse_uint_digits largest (c ∷ s) filled h le =
    let fits : leb (decimal_value (c ∷ s)) largest ≡ true = ground arith in rw (h, fits) refl

snoc-ne-nil : (s : Text) (c : ℕ) → s ++ c ∷ [] ≢ []
snoc-ne-nil [] c h = cc
snoc-ne-nil (d ∷ s) c h = cc

digits-ne-nil : (fuel n : ℕ) → digits (suc fuel) n ≢ []
unfolding digits
digits-ne-nil fuel n h = elim (Bool-cases (ltb n 10)) [
  | inl e ↦ cc (rw e at h)
  | inr e ↦ snoc-ne-nil (digits fuel (n / 10)) (48 + n % 10) (rw e at h)
]

pub all_digits-format_uint : (n : ℕ) → all_digits (format_uint n) ≡ true
unfolding format_uint
all_digits-format_uint n = all_digits-digits 20 n

pub format_uint-ne-nil : (n : ℕ) → format_uint n ≢ []
unfolding format_uint
format_uint-ne-nil n = digits-ne-nil 19 n

-- ParseUint reads what FormatUint has printed, of a number within the bound.
pub parse_uint-format_uint :
    (largest n : ℕ)
    → n ≤ largest
    → n < 100000000000000000000
    → parse_uint largest (format_uint n) ≡ some n
parse_uint-format_uint largest n le small =
    let value = decimal_value-format_uint n small in
    parse_uint_digits largest (format_uint n) (format_uint-ne-nil n) (all_digits-format_uint n)
      (omega arith)
    ∙ ap some value

-- A text of digits has no sign.
parse_int64_digits :
    (s : Text)
    → all_digits s ≡ true
    → parse_int64 s ≡ (unfold positive in positive (parse_uint max_int64 s))
unfolding parse_int64 all_digits is_digit positive parse_uint
parse_int64_digits [] h = refl
parse_int64_digits (c ∷ s) h =
    let minus : (c == 45) ≡ false = ground arith in
    let plus : (c == 43) ≡ false = ground arith in rw (minus, plus) refl

-- ParseInt reads what FormatUint has printed.
pub parse_int64-format_uint : (n : ℕ) → n ≤ max_int64 → parse_int64 (format_uint n) ≡ some (pos n)
unfolding positive
parse_int64-format_uint n le =
    parse_int64_digits (format_uint n) (all_digits-format_uint n)
    ∙ ap positive (parse_uint-format_uint max_int64 n le (omega arith))
