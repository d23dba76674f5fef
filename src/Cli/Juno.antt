-- ===== src/Cli/Juno.antt =====
-- `formatJUNO` and `humanAgo` of internal/cli/account.go. The child of this module is about the first.
pub mod Value
use juno_exchange_kit.Base.{
  ℕ, zero, suc, ◌+◌, ◌-◌, ◌*◌, ◌/◌, ◌%◌, ◌==◌, ◌&&◌, Bool, true, false, List, [], ◌∷◌, ◌++◌, length,
  replicate, ltb, if◌then◌else◌,
}
use juno_exchange_kit.Base.Int.{ℤ, pos, negsuc, pos_part, ltb_ℤ}
use juno_exchange_kit.Base.Word.{sub_int64}
use juno_exchange_kit.Base.Text.{Text, codes, is_empty}
use juno_exchange_kit.Base.Decimal.{format_uint}

abbrev pub unit : ℕ
unit = 100000000

-- `k` digits of a number, with zeros in front: %0kd of a number below 10 to the power of k.
unfoldable pub fixed_digits : ℕ → ℕ → Text
fixed_digits zero n = []
fixed_digits (suc k) n = fixed_digits k (n / 10) ++ (48 + n % 10) ∷ []

-- The minus sign counts to the width of %08d.
unfoldable pub padded_negative : ℕ → Text
padded_negative n = let s = format_uint n in b'-' ∷ replicate (7 - length s) 48 ++ s

-- "%d.%08d" of the quotient and the remainder by 100,000,000; only the least int64 is still negative here.
unfoldable pub print_parts : ℤ → Text
print_parts (pos n) = format_uint (n / unit) ++ b'.' ∷ fixed_digits 8 (n % unit)
print_parts (negsuc n) = b'-' ∷ format_uint (suc n / unit) ++ b'.' ∷ padded_negative (suc n % unit)

abbrev pub cons_unless : ℕ → ℕ → Text → Text
cons_unless c d [] = if d == c then [] else d ∷ []
cons_unless c d (e ∷ s) = d ∷ e ∷ s

-- strings.TrimRight with one character.
unfoldable pub trim_right_char : ℕ → Text → Text
trim_right_char c [] = []
trim_right_char c (d ∷ s) = cons_unless c d (trim_right_char c s)

abbrev pub zero_if_empty : Text → Text
zero_if_empty s = if is_empty s then codes "0" else s

unfoldable pub format_magnitude : ℤ → Text
format_magnitude a = zero_if_empty (trim_right_char b'.' (trim_right_char b'0' (print_parts a)))

-- `formatJUNO`
unfoldable pub format_juno : ℤ → Text
format_juno a =
    if ltb_ℤ a (pos 0) then b'-' ∷ format_magnitude (sub_int64 (pos 0) a) else format_magnitude a

-- A number of things, in the singular for one.
abbrev pub counted : ℕ → Text → Text → Text
counted n one many = if n == 1 then one else format_uint n ++ many

-- `humanAgo`, of a duration in nanoseconds.
unfoldable pub human_ago : ℤ → Text
human_ago d =
    let n = pos_part d in
    if ltb n 1000000000
    then codes "now"
    else if ltb n 60000000000
    then counted (n / 1000000000) (codes "1 second ago") (codes " seconds ago")
    else if ltb n 3600000000000
    then counted (n / 60000000000) (codes "1 minute ago") (codes " minutes ago")
    else counted (n / 3600000000000) (codes "1 hour ago") (codes " hours ago")
