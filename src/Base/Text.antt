-- ===== src/Base/Text.antt =====
-- Go strings as lists of code points, with the functions of package strings that the source calls.
-- Upper-case letters are those of ASCII: identifiers, hexadecimal texts and addresses are ASCII.
use Prim.Native.Char.{code}
use Prim.Native.String.{String}
use juno_exchange_kit.Base.{
  ℕ, ◌+◌, ◌≡◌, ◌≢◌, refl, ap, ◌↔◌, inl, inr, Bool, true, false, ◌&&◌, ◌||◌, List, [], ◌∷◌, map,
  arith, ◌==◌, leb, ltb, if◌then◌else◌, Bool-cases,
}

abbrev pub Text : Type 0
Text = List ℕ

-- The code points of a literal.
abbrev pub codes : String → Text
codes String.[] = []
codes (String.◌∷◌ c s) = code c ∷ codes s

abbrev pub is_empty : Text → Bool
is_empty [] = true
is_empty (c ∷ s) = false

-- `==` on strings.
unfoldable pub eq_text : Text → Text → Bool
eq_text [] [] = true
eq_text [] (d ∷ t) = false
eq_text (c ∷ s) [] = false
eq_text (c ∷ s) (d ∷ t) = (c == d) && eq_text s t

-- `<` on strings; the bytes of UTF-8 are ordered as the code points are.
unfoldable pub lt_text : Text → Text → Bool
lt_text [] [] = false
lt_text [] (d ∷ t) = true
lt_text (c ∷ s) [] = false
lt_text (c ∷ s) (d ∷ t) = ltb c d || ((c == d) && lt_text s t)

-- unicode.IsSpace
unfoldable pub is_space : ℕ → Bool
is_space c =
    (leb 9 c && leb c 13)
    || (c == 32)
    || (c == 0x85)
    || (c == 0xa0)
    || (c == 0x1680)
    || (leb 0x2000 c && leb c 0x200a)
    || (c == 0x2028)
    || (c == 0x2029)
    || (c == 0x202f)
    || (c == 0x205f)
    || (c == 0x3000)

unfoldable pub trim_left : Text → Text
trim_left [] = []
trim_left (c ∷ s) = if is_space c then trim_left s else c ∷ s

-- A space goes if only spaces follow it.
abbrev pub cons_trimmed : ℕ → Text → Text
cons_trimmed c [] = if is_space c then [] else c ∷ []
cons_trimmed c (d ∷ t) = c ∷ d ∷ t

unfoldable pub trim_right : Text → Text
trim_right [] = []
trim_right (c ∷ s) = cons_trimmed c (trim_right s)

-- strings.TrimSpace
unfoldable pub trim_space : Text → Text
trim_space s = trim_right (trim_left s)

unfoldable pub lower_char : ℕ → ℕ
lower_char c = if leb b'A' c && leb c b'Z' then c + 32 else c

-- strings.ToLower
unfoldable pub to_lower : Text → Text
to_lower = map lower_char

pub eq_text_iff : (s t : Text) → (eq_text s t ≡ true) ↔ (s ≡ t)
unfolding eq_text
eq_text_iff [] [] = ((λ h. refl), (λ h. refl))
eq_text_iff [] (d ∷ t) = ((λ h. cc), (λ h. cc))
eq_text_iff (c ∷ s) [] = ((λ h. cc), (λ h. cc))
eq_text_iff (c ∷ s) (d ∷ t) =
    ((λ h. ground (arith, (eq_text_iff s t).0)), (λ h. ground (arith, (eq_text_iff s t).1)))

pub eq_text_refl : (s : Text) → eq_text s s ≡ true
eq_text_refl s = (eq_text_iff s s).1 refl

cons_trimmed-trim_right :
    (c : ℕ) (s : Text) → trim_right s ≡ s → trim_right (cons_trimmed c s) ≡ cons_trimmed c s
unfolding trim_right
cons_trimmed-trim_right c [] h = elim (Bool-cases (is_space c)) [
  | inl e ↦ rw e
  | inr e ↦ rw e (rw (e, cons_trimmed))
]
cons_trimmed-trim_right c (d ∷ t) h = ap (cons_trimmed c) h

trim_right-trim_right : (s : Text) → trim_right (trim_right s) ≡ trim_right s
unfolding trim_right
trim_right-trim_right [] = refl
trim_right-trim_right (c ∷ s) = cons_trimmed-trim_right c (trim_right s) (trim_right-trim_right s)

-- A text that does not begin with a space.
abbrev IsFlush : Text → Type 0
IsFlush [] = Unit
IsFlush (c ∷ s) = is_space c ≡ false

trim_left-IsFlush : (s : Text) → IsFlush (trim_left s)
unfolding trim_left
trim_left-IsFlush [] = tt
trim_left-IsFlush (c ∷ s) = elim (Bool-cases (is_space c)) [
  | inl e ↦ rw e (trim_left-IsFlush s)
  | inr e ↦ rw e e
]

cons_trimmed-IsFlush : (c : ℕ) (s : Text) → is_space c ≡ false → IsFlush (cons_trimmed c s)
cons_trimmed-IsFlush c [] h = rw h h
cons_trimmed-IsFlush c (d ∷ t) h = h

trim_right-IsFlush : (s : Text) → IsFlush s → IsFlush (trim_right s)
unfolding trim_right
trim_right-IsFlush [] h = tt
trim_right-IsFlush (c ∷ s) h = cons_trimmed-IsFlush c (trim_right s) h

trim_left_of_IsFlush : (s : Text) → IsFlush s → trim_left s ≡ s
unfolding trim_left
trim_left_of_IsFlush [] h = refl
trim_left_of_IsFlush (c ∷ s) h = rw h

-- Trimming twice is trimming once.
pub trim_space_idem : (s : Text) → trim_space (trim_space s) ≡ trim_space s
unfolding trim_space
trim_space_idem s =
    rw
      (trim_left_of_IsFlush (trim_right (trim_left s))
        (trim_right-IsFlush (trim_left s) (trim_left-IsFlush s)))
      (trim_right-trim_right (trim_left s))

pub is_empty-false : (s : Text) → is_empty s ≡ false → s ≢ []
is_empty-false [] h = cc
is_empty-false (c ∷ s) h = cc

pub trim_space-nil : trim_space [] ≡ []
unfolding trim_space trim_left trim_right
trim_space-nil = refl
