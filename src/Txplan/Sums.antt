-- ===== src/Txplan/Sums.antt =====
-- Sums that the planners add up with `addUint64`.
use juno_exchange_kit.Base.{
  ℕ, ◌+◌, ◌<◌, ◌≡◌, refl, ap, subst, inl, inr, some, List, [], ◌∷◌, ltb, if◌then◌else◌, arith,
  Bool-cases, Option-cases,
}
use juno_exchange_kit.Base.Int.{ℤ, pos, ltb_ℤ}
use juno_exchange_kit.Base.Word.{word, max_int64, max_uint32}
use juno_exchange_kit.Txplan.Outcome.{done, ◌>>=◌, >>=_done}
use juno_exchange_kit.Txplan.Notes.{add_uint64}
use juno_exchange_kit.Txplan.Select.{add_uint64_exact}
use juno_exchange_kit.Txplan.Chunks.{SpendableNote}
use juno_exchange_kit.Txplan.Split.{weight}
use juno_exchange_kit.Txplan.Services.{WalletNote}
use juno_exchange_kit.Txplan.Actions.{is_skipped, position_of, to_spendable, spendable_loop}
use juno_exchange_kit.Txplan.Build.{sum_values, value_list}

abbrev pub value_of_note : SpendableNote → ℕ
value_of_note n = n.value_zat

-- The measure that counts the notes whose value is no uint64.
abbrev pub too_large : SpendableNote → ℕ
too_large n = if ltb n.value_zat word then 0 else 1

-- The exact sum of numbers.
unfoldable pub sum_list : List ℕ → ℕ
sum_list [] = 0
sum_list (v ∷ vs) = v + sum_list vs

abbrev pub Small : List ℕ → Type 0
Small [] = Unit
Small (v ∷ vs) = (v < word) × Small vs

-- A sum that is returned is exact.
pub sum_values_exact :
    (total : ℕ) (vs : List ℕ) (s : ℕ)
    → total < word
    → Small vs
    → sum_values total vs ≡ some s
    → (s ≡ total + sum_list vs) × (s < word)
unfolding sum_values sum_list
sum_values_exact total [] s h k e = ground arith
sum_values_exact total (v ∷ vs) s h k e = elim (Option-cases (add_uint64 total v)) [
  | inl f ↦ absurd (ground arith)
  | inr (t, f) ↦
      let small = k.0 in
      let (exact, below) = add_uint64_exact total v t h small f in
      let (sum, fits) = sum_values_exact t vs s below k.1 (ground arith) in (omega arith, fits)
]

pub sum_list-value_list :
    (ns : List SpendableNote) → sum_list (value_list ns) ≡ weight value_of_note ns
unfolding sum_list weight
sum_list-value_list [] = refl
sum_list-value_list (n ∷ ns) = ap (λ v. n.value_zat + v) (sum_list-value_list ns)

pub Small-value_list : (ns : List SpendableNote) → weight too_large ns ≡ 0 → Small (value_list ns)
unfolding weight
Small-value_list [] h = tt
Small-value_list (n ∷ ns) h = (ground arith, Small-value_list ns (ground arith))

-- The notes that are listed have values of 63 bits.
pub spendable_loop-small :
    (tip min_conf : ℤ) (raw : List WalletNote) (ns : List SpendableNote)
    → spendable_loop tip min_conf raw ≡ done ns
    → weight too_large ns ≡ 0
unfolding spendable_loop weight to_spendable
spendable_loop-small tip min_conf [] ns h = ground arith
spendable_loop-small tip min_conf (r ∷ raw) ns h = elim (Bool-cases (is_skipped tip min_conf r)) [
  | inl e ↦ spendable_loop-small tip min_conf raw ns (ground arith)
  | inr e ↦ elim (Bool-cases (ltb_ℤ (pos max_int64) r.value_zat)) [
    | inl e' ↦ absurd (ground arith)
    | inr e' ↦ elim (Bool-cases (ltb_ℤ (pos max_uint32) (position_of r))) [
      | inl e'' ↦ absurd (ground arith)
      | inr e'' ↦
          let on : (spendable_loop tip min_conf raw >>= λ out. done (to_spendable r ∷ out))
              ≡ done ns =
            ground arith in
          let (rest, done_rest, last) =
            >>=_done (spendable_loop tip min_conf raw) (λ out. done (to_spendable r ∷ out)) on in
          let small = spendable_loop-small tip min_conf raw rest done_rest in
          let same : to_spendable r ∷ rest ≡ ns = ground arith in
          subst (λ l. weight too_large l ≡ 0) same (unfold to_spendable in ground arith)
    ]
  ]
]
