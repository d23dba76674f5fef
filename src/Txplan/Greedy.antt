-- ===== src/Txplan/Greedy.antt =====
-- For one output, no other choice of notes does better than what `SelectNotes` takes.
use juno_exchange_kit.Base.{
  refl, ◌∙◌, ◌⊎◌, if◌then◌else◌, ltb, ◌==◌, length-take, ℕ, ◌+◌, ◌*◌, ◌≤◌, ◌<◌, ◌≡◌, inl, inr, true,
  false, List, [], ◌∷◌, length, take, zero, suc, arith, Bool-cases,
}
use juno_exchange_kit.Base.Word.{word}
use juno_exchange_kit.Base.Table.{sort_by, insert_by}
use juno_exchange_kit.Txplan.Outcome.{done, failed, insufficient_funds}
use juno_exchange_kit.Txplan.Notes.{UnspentNote, note_before, select_notes}
use juno_exchange_kit.Txplan.Select.{
  value_of, is_enough, fee_at, IsFirstEnough, NoneEnough, select_notes_lem,
}

-- `Picked ms ns`: the notes `ms` are some of the notes `ns`.
pub data Picked : List UnspentNote → List UnspentNote → Type 0 where
  picked_none : Picked [] []
  keep : {ms ns : List UnspentNote} (n : UnspentNote) → Picked ms ns → Picked (n ∷ ms) (n ∷ ns)
  skip : {ms ns : List UnspentNote} (n : UnspentNote) → Picked ms ns → Picked ms (n ∷ ns)

-- The values fall, from `b` on.
abbrev Falls : ℕ → List UnspentNote → Type 0
Falls b [] = Unit
Falls b (n ∷ ns) = (n.value_zat ≤ b) × Falls n.value_zat ns

Falls-weaken : (b c : ℕ) (ns : List UnspentNote) → b ≤ c → Falls b ns → Falls c ns
Falls-weaken b c [] h f = tt
Falls-weaken b c (n ∷ ns) h f = (let a = f.0 in omega arith, f.1)

note_before-le : (m n : UnspentNote) → note_before m n ≡ true → n.value_zat ≤ m.value_zat
unfolding note_before
note_before-le m n h = ground arith

note_before-ge : (m n : UnspentNote) → note_before m n ≡ false → m.value_zat ≤ n.value_zat
unfolding note_before
note_before-ge m n h = ground arith

insert_by-Falls :
    (b : ℕ) (n : UnspentNote) (ns : List UnspentNote)
    → n.value_zat ≤ b
    → Falls b ns
    → Falls b (insert_by note_before n ns)
unfolding insert_by
insert_by-Falls b n [] h f = (h, tt)
insert_by-Falls b n (m ∷ ns) h f = elim (Bool-cases (note_before m n)) [
  | inl e ↦ rw e (f.0, insert_by-Falls m.value_zat n ns (note_before-le m n e) f.1)
  | inr e ↦ rw e (h, (note_before-ge m n e, f.1))
]

sort_by-Falls : (ns : List UnspentNote) → Falls (value_of ns) (sort_by note_before ns)
unfolding sort_by value_of
sort_by-Falls [] = tt
sort_by-Falls (n ∷ ns) =
    insert_by-Falls (n.value_zat + value_of ns) n (sort_by note_before ns) (omega arith) (
      Falls-weaken (value_of ns) (n.value_zat + value_of ns) (sort_by note_before ns) (omega arith)
        (sort_by-Falls ns))

-- One note more from the front adds no more than the bound.
take-Falls :
    (k b : ℕ) (ns : List UnspentNote)
    → Falls b ns
    → value_of (take (suc k) ns) ≤ b + value_of (take k ns)
unfolding value_of
take-Falls k b [] f = omega arith
take-Falls zero b (n ∷ ns) f = let a = f.0 in omega arith
take-Falls (suc k) b (n ∷ ns) f = let a = f.0 in omega (arith, take-Falls k n.value_zat ns f.1)

Picked-value_of :
    (b : ℕ) (ms ns : List UnspentNote)
    → Picked ms ns
    → Falls b ns
    → value_of ms ≤ value_of (take (length ms) ns)
unfolding value_of
Picked-value_of b [] [] picked_none f = omega arith
Picked-value_of b (m ∷ ms) [] p f = elim p [ ]
Picked-value_of b (_ ∷ ms) (_ ∷ ns) (keep n p) f =
    omega (arith, Picked-value_of n.value_zat ms ns p f.1)
Picked-value_of b [] (_ ∷ ns) (skip n p) f = omega arith
Picked-value_of b (m ∷ ms) (_ ∷ ns) (skip n p) f = omega (
  arith,
  Picked-value_of n.value_zat (m ∷ ms) ns p f.1,
  take-Falls (length ms) n.value_zat ns f.1,
)

Picked-length : (ms ns : List UnspentNote) → Picked ms ns → length ms ≤ length ns
Picked-length [] [] picked_none = omega arith
Picked-length (m ∷ ms) [] p = elim p [ ]
Picked-length (_ ∷ ms) (_ ∷ ns) (keep n p) = omega (arith, Picked-length ms ns p)
Picked-length ms (_ ∷ ns) (skip n p) = omega (arith, Picked-length ms ns p)

-- The fee of a transaction that spends some notes and pays one output, with change or without: 5,000
-- zatoshis for a note, and 10,000 at least.
unfoldable pub fee_for : List UnspentNote → ℕ
fee_for ms = 5000 * (if ltb (length ms) 2 then 2 else length ms)

-- The test of the loop for one output, in plain terms.
is_enough-covers :
    (amount count total : ℕ)
    → is_enough amount 1 count total ≡ true
    → amount + 5000 * (if ltb count 2 then 2 else count) ≤ total
unfolding is_enough fee_at
is_enough-covers amount count total h = ground arith

is_enough-short :
    (amount count total : ℕ)
    → is_enough amount 1 count total ≡ false
    → total < amount + 5000 * (if ltb count 2 then 2 else count)
unfolding is_enough fee_at
is_enough-short amount count total h = ground arith

fee_at-one : (count : ℕ) → fee_at 1 count ≡ 5000 * (if ltb count 2 then 2 else count)
unfolding fee_at
fee_at-one count = ground arith

-- The notes chosen are a front of the list and cover the amount and their fee, and no fewer of the notes of
-- the list, in whatever choice, cover the amount and their own fee.
pub record IsFewest (amount : ℕ) (sorted chosen : List UnspentNote) : Type 0 where
  pub size : ℕ
  pub front : chosen ≡ take size sorted
  pub covers : amount + fee_for chosen ≤ value_of chosen
  pub fewest :
      (ms : List UnspentNote)
      → Picked ms sorted
      → amount + fee_for ms ≤ value_of ms
      → length chosen ≤ length ms

-- No choice of the notes covers the amount and its fee.
abbrev pub NoChoice : ℕ → List UnspentNote → Type 0
NoChoice amount sorted =
    (ms : List UnspentNote) → Picked ms sorted → value_of ms < amount + fee_for ms

module _ (notes : List UnspentNote) (amount : ℕ) where
  abbrev sorted : List UnspentNote
  sorted = sort_by note_before notes

  -- A choice of a size whose front is short is short itself.
  choice-short :
      (ms : List UnspentNote)
      → Picked ms sorted
      → is_enough amount 1 (0 + length ms) (0 + value_of (take (length ms) sorted)) ≡ false
      → value_of ms < amount + fee_for ms
  unfolding fee_for
  choice-short ms p h =
      let bounded = Picked-value_of (value_of notes) ms sorted p (sort_by-Falls notes) in
      let short =
        is_enough-short amount (0 + length ms) (0 + value_of (take (length ms) sorted)) h in
      ground (arith, bounded, short)

  nothing-short : (ms : List UnspentNote) → length ms ≡ 0 → value_of ms < amount + fee_for ms
  unfolding value_of fee_for
  nothing-short [] h = ground arith
  nothing-short (m ∷ ms) h = absurd (omega arith)

  first-IsFewest :
      (k : ℕ) → IsFirstEnough amount 1 0 0 sorted k → IsFewest amount sorted (take k sorted)
  unfolding fee_for
  first-IsFewest k h =
      let size : length (take k sorted) ≡ k =
        let t = h.there in omega (arith, length-take k sorted) in
      let enough = is_enough-covers amount (0 + k) (0 + value_of (take k sorted)) h.enough in
      record {
        size = k;
        front = refl;
        covers = rw size (ground (arith, enough));
        fewest = λ ms p covers. (elim (Bool-cases (ltb (length ms) k)) [
          | inr e ↦ rw size (ground arith)
          | inl e ↦ elim (Bool-cases (length ms == 0)) [
            | inl z ↦
                let short = nothing-short ms (ground arith) in absurd (omega (arith, short, covers))
            | inr z ↦
                let short = choice-short ms p (h.first (length ms) (ground arith) (ground arith)) in
                absurd (omega (arith, short, covers))
          ]
        ]);
      }

  none-NoChoice : NoneEnough amount 1 0 0 sorted → NoChoice amount sorted
  none-NoChoice h ms p = elim (Bool-cases (length ms == 0)) [
    | inl z ↦ nothing-short ms (ground arith)
    | inr z ↦ choice-short ms p (h (length ms) (ground arith) (Picked-length ms sorted p))
  ]

-- For a payment of one output, where no sum can wrap around: `SelectNotes` returns the fewest notes that
-- cover the amount and their fee, with that fee, or reports insufficient funds, and then no choice of the
-- notes covers the amount and its fee.
pub select_notes-IsFewest :
    (notes : List UnspentNote) (amount : ℕ)
    → value_of notes < word
    → amount + 5000 * (length notes + 3) < word
    → ((chosen : List UnspentNote) × (select_notes notes amount 1 ≡ done (chosen, fee_for chosen))
        × IsFewest amount (sort_by note_before notes) chosen)
      ⊎ ((select_notes notes amount 1 ≡ failed insufficient_funds)
          × NoChoice amount (sort_by note_before notes))
unfolding fee_for
select_notes-IsFewest notes amount fits small =
    elim (select_notes_lem notes amount 1 fits (omega arith)) [
      | inl (k, result, first) ↦
          let size : length (take k (sort_by note_before notes)) ≡ k =
            let t = first.there in omega (arith, length-take k (sort_by note_before notes)) in
          inl (
            take k (sort_by note_before notes),
            result ∙ rw size (rw (fee_at-one (0 + k)) (ground arith)),
            first-IsFewest notes amount k first,
          )
      | inr (result, none_enough) ↦ inr (result, none-NoChoice notes amount none_enough)
    ]
