-- ===== src/Cli/Juno/Value.antt =====
-- `formatJUNO` prints an amount exactly.
use mathlib.Core.List.{append-nil}
use juno_exchange_kit.Base.{
  ℕ, zero, suc, ◌+◌, ◌-◌, ◌*◌, ◌/◌, ◌%◌, ◌<◌, ◌==◌, ◌≡◌, ◌≢◌, refl, ap, sym, inl, inr, ◌∙◌, true,
  false, [], ◌∷◌, ◌++◌, if◌then◌else◌, arith, Bool-cases, List-cases,
}
use juno_exchange_kit.Base.Int.{pos, negsuc, ◌-ℤ◌}
use juno_exchange_kit.Base.Word.{half_word, sub_int64, sub_int64_exact}
use juno_exchange_kit.Base.Text.{Text, is_empty}
use juno_exchange_kit.Base.Decimal.{
  format_uint, is_digit, all_digits, all_digits-format_uint, all_digits-snoc, format_uint-ne-nil,
  decimal_from, decimal_value, decimal_value-format_uint,
}
use juno_exchange_kit.Cli.Juno.{
  unit, fixed_digits, print_parts, cons_unless, trim_right_char, format_magnitude, format_juno,
}

-- The value of the digits behind the point; the first has the given weight.
unfoldable pub fraction_value : ℕ → Text → ℕ
fraction_value weight [] = 0
fraction_value weight (c ∷ s) = (c - 48) * weight + fraction_value (weight / 10) s

-- The value of a decimal in units of 1 / 100,000,000, after a value that stands before it.
unfoldable pub juno_from : ℕ → Text → ℕ
juno_from before [] = before * unit
juno_from before (c ∷ s) =
    let rest = juno_from (10 * before + (c - 48)) s in
    if c == b'.' then before * unit + fraction_value 10000000 s else rest

unfoldable pub juno_value : Text → ℕ
juno_value s = juno_from 0 s

fraction_value-trim :
    (weight : ℕ) (s : Text) → fraction_value weight (trim_right_char 48 s) ≡ fraction_value weight s
unfolding fraction_value trim_right_char
fraction_value-trim weight [] = refl
fraction_value-trim weight (c ∷ s) =
    let ih = fraction_value-trim (weight / 10) s in
    elim (List-cases (trim_right_char 48 s)) [
      | inl e ↦
          let none_left : 0 ≡ fraction_value (weight / 10) s =
            ap (fraction_value (weight / 10)) (sym e) ∙ ih in
          elim (Bool-cases (c == 48)) [
            | inl z ↦
                let same : c ≡ 48 = ground arith in
                rw (e, z) (rw same (rw (← none_left) (omega arith)))
            | inr z ↦ rw (e, z) (omega (arith, none_left))
          ]
      | inr (d, rest, e) ↦ rw e (
          let kept : fraction_value (weight / 10) (d ∷ rest) ≡ fraction_value (weight / 10) s =
            ap (fraction_value (weight / 10)) (sym e) ∙ ih in
          ap (λ x. (c - 48) * weight + x) kept)
    ]

-- What stands before a text that is kept is kept.
trim_after :
    (c : ℕ) (s : Text) (d : ℕ) (rest kept : Text)
    → trim_right_char c (d ∷ rest) ≡ d ∷ kept
    → trim_right_char c (s ++ d ∷ rest) ≡ s ++ d ∷ kept
unfolding trim_right_char
trim_after c [] d rest kept h = h
trim_after c (e ∷ []) d rest kept h = ap (cons_unless c e) h
trim_after c (e ∷ f ∷ s) d rest kept h = ap (cons_unless c e) (trim_after c (f ∷ s) d rest kept h)

cons_unless-other : (c d : ℕ) (s : Text) → (d == c) ≡ false → cons_unless c d s ≡ d ∷ s
cons_unless-other c d [] h = rw h refl
cons_unless-other c d (e ∷ s) h = refl

-- Digits have no point to trim.
trim_digits : (s : Text) → all_digits s ≡ true → trim_right_char b'.' s ≡ s
unfolding trim_right_char all_digits is_digit
trim_digits [] h = refl
trim_digits (c ∷ s) h =
    let ih = trim_digits s (ground arith) in
    let other : (c == b'.') ≡ false = ground arith in
    ap (cons_unless b'.' c) ih ∙ cons_unless-other b'.' c s other

juno_from-digits :
    (before : ℕ) (s rest : Text)
    → all_digits s ≡ true
    → juno_from before (s ++ rest) ≡ juno_from (decimal_from before s) rest
unfolding juno_from all_digits is_digit decimal_from
juno_from-digits before [] rest h = refl
juno_from-digits before (c ∷ s) rest h =
    let other : (c == b'.') ≡ false = ground arith in
    rw other (juno_from-digits (10 * before + (c - 48)) s rest (ground arith))

digit_back : (x : ℕ) → 48 + x - 48 ≡ x
digit_back x = omega arith

fixed_value : (f : ℕ) → f < unit → fraction_value 10000000 (fixed_digits 8 f) ≡ f
unfolding fraction_value fixed_digits
fixed_value f h = simp digit_back (omega arith)

all_digits-fixed : (k f : ℕ) → all_digits (fixed_digits k f) ≡ true
unfolding fixed_digits
all_digits-fixed zero f = unfold all_digits in refl
all_digits-fixed (suc k) f =
    all_digits-snoc (48 + f % 10) (fixed_digits k (f / 10)) (all_digits-fixed k (f / 10))
      (unfold is_digit in ground arith)

point_kept : (s : Text) → trim_right_char 48 (b'.' ∷ s) ≡ b'.' ∷ trim_right_char 48 s
unfolding trim_right_char
point_kept s = cons_unless-other 48 b'.' (trim_right_char 48 s) refl

all_digits-trim : (s : Text) → all_digits s ≡ true → all_digits (trim_right_char 48 s) ≡ true
unfolding all_digits trim_right_char
all_digits-trim [] h = refl
all_digits-trim (c ∷ s) h =
    let ih = all_digits-trim s (ground arith) in
    elim (List-cases (trim_right_char 48 s)) [
      | inl e ↦ elim (Bool-cases (c == 48)) [
        | inl z ↦ rw (e, z) refl
        | inr z ↦ rw (e, z) (ground arith)
      ]
      | inr (d, rest, e) ↦
          let more : all_digits (d ∷ rest) ≡ true = ap all_digits (sym e) ∙ ih in
          rw e (ground arith)
    ]

trim_bare : (s : Text) → all_digits s ≡ true → trim_right_char b'.' (s ++ b'.' ∷ []) ≡ s
unfolding all_digits is_digit trim_right_char
trim_bare [] h = refl
trim_bare (c ∷ s) h =
    let ih = trim_bare s (ground arith) in
    let other : (c == b'.') ≡ false = ground arith in
    ap (cons_unless b'.' c) ih ∙ cons_unless-other b'.' c s other

-- The point goes if no digit follows it.
trim_point :
    (s rest : Text)
    → all_digits s ≡ true
    → all_digits rest ≡ true
    → trim_right_char b'.' (s ++ b'.' ∷ rest) ≡ (if is_empty rest then s else s ++ b'.' ∷ rest)
trim_point s [] h k = trim_bare s h
trim_point s (c ∷ rest) h k = trim_after b'.' s b'.' (c ∷ rest) (c ∷ rest) (
    unfold trim_right_char in
    ap (cons_unless b'.' b'.') (unfold trim_right_char in trim_digits (c ∷ rest) k))

filled : (s : Text) → s ≢ [] → is_empty s ≡ false
filled [] h = absurd (h refl)
filled (c ∷ s) h = refl

filled-append : (s : Text) (d : ℕ) (rest : Text) → is_empty (s ++ d ∷ rest) ≡ false
filled-append [] d rest = refl
filled-append (c ∷ s) d rest = refl

empty_nil : (s : Text) → is_empty s ≡ true → s ≡ []
empty_nil [] h = refl
empty_nil (c ∷ s) h = cc

module _ (n : ℕ) (small : n < half_word) where
  whole_value :
      (rest : Text) → juno_value (format_uint (n / unit) ++ rest) ≡ juno_from (n / unit) rest
  unfolding juno_value
  whole_value rest =
      juno_from-digits 0 (format_uint (n / unit)) rest (all_digits-format_uint (n / unit))
      ∙ ap (λ v. juno_from v rest)
          (unfold decimal_value in decimal_value-format_uint (n / unit) (omega arith))

  printed : trim_right_char b'.' (trim_right_char b'0' (print_parts (pos n))) ≡ (
      let frac = trim_right_char 48 (fixed_digits 8 (n % unit)) in
      if is_empty frac then format_uint (n / unit) else format_uint (n / unit) ++ b'.' ∷ frac)
  unfolding print_parts
  printed =
      let frac = fixed_digits 8 (n % unit) in
      ap (trim_right_char b'.') (
        trim_after b'0' (format_uint (n / unit)) b'.' frac (trim_right_char 48 frac)
          (point_kept frac))
      ∙ trim_point (format_uint (n / unit)) (trim_right_char 48 frac)
          (all_digits-format_uint (n / unit)) (all_digits-trim frac (all_digits-fixed 8 (n % unit)))

  fraction : fraction_value 10000000 (trim_right_char 48 (fixed_digits 8 (n % unit))) ≡ n % unit
  fraction =
      fraction_value-trim 10000000 (fixed_digits 8 (n % unit))
      ∙ fixed_value (n % unit) (omega arith)

  magnitude_value : juno_value (format_magnitude (pos n)) ≡ n
  unfolding format_magnitude
  magnitude_value =
      let whole = format_uint (n / unit) in
      let frac = trim_right_char 48 (fixed_digits 8 (n % unit)) in
      elim (Bool-cases (is_empty frac)) [
        | inl e ↦
            let text = printed ∙ ap (λ b. if b then whole else whole ++ b'.' ∷ frac) e in
            let more = filled whole (format_uint-ne-nil (n / unit)) in
            let zero_fraction : 0 ≡ n % unit =
              unfold fraction_value in
              (sym (ap (fraction_value 10000000) (empty_nil frac e)) ∙ fraction) in
            rw (text, more)
              (ap juno_value (sym (append-nil whole))
                ∙ whole_value []
                ∙ unfold juno_from in omega (arith, zero_fraction))
        | inr e ↦
            let text = printed ∙ ap (λ b. if b then whole else whole ++ b'.' ∷ frac) e in
            let more = filled-append whole b'.' frac in
            rw (text, more)
              (whole_value (b'.' ∷ frac) ∙ unfold juno_from in omega (arith, fraction))
      ]

format_nonneg : (n : ℕ) → format_juno (pos n) ≡ format_magnitude (pos n)
unfolding format_juno
format_nonneg n = ground arith

format_negative :
    (m : ℕ) → format_juno (negsuc m) ≡ b'-' ∷ format_magnitude (sub_int64 (pos 0) (negsuc m))
unfolding format_juno
format_negative m = ground arith

-- `formatJUNO` prints every int64 but the least exactly: the decimal of an amount has the amount's value in
-- units of 1 / 100,000,000, and a negative amount is the decimal of its magnitude behind a minus sign.
pub format_juno_exact :
    (n : ℕ)
    → n < half_word
    → (juno_value (format_juno (pos n)) ≡ n)
      × ((m : ℕ) → suc m ≡ n → format_juno (negsuc m) ≡ b'-' ∷ format_juno (pos n))
format_juno_exact n small = (
  ap juno_value (format_nonneg n) ∙ magnitude_value n small,
  λ m e.
      let magnitude : sub_int64 (pos 0) (negsuc m) ≡ pos n =
        sub_int64_exact (pos 0) (negsuc m) (unfold ◌-ℤ◌ in ground arith)
        ∙ unfold ◌-ℤ◌ in ground arith in
      format_negative m
      ∙ ap (λ a. b'-' ∷ format_magnitude a) magnitude
      ∙ ap (λ s. b'-' ∷ s) (sym (format_nonneg n)),
)
