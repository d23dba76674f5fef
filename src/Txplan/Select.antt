-- ===== src/Txplan/Select.antt =====
-- `SelectNotes` takes enough notes, no more than it must, and finds them if there are any.
use juno_exchange_kit.Base.{
  ℕ, ◌+◌, ◌*◌, ◌%◌, ◌≤◌, ◌<◌, ◌≡◌, refl, sym, subst, ap, ◌∙◌, inl, inr, Bool, true, false, ◌&&◌,
  ◌||◌, none, some, List, [], ◌∷◌, ◌++◌, ltb, length, take, ◌==◌, if◌then◌else◌, ◌⊎◌, suc, zero,
  arith, Bool-cases, length-append,
}
use juno_exchange_kit.Base.Word.{word}
use juno_exchange_kit.Base.Table.{sort_by, insert_by}
use juno_exchange_kit.Txplan.Outcome.{Outcome, done, failed, insufficient_funds}
use juno_exchange_kit.Txplan.Notes.{
  UnspentNote, action_count, required_fee_send, add_uint64, note_before, accepted_fee, select_loop,
  select_notes,
}

-- The exact sum of the notes' values.
unfoldable pub value_of : List UnspentNote → ℕ
value_of [] = 0
value_of (n ∷ ns) = n.value_zat + value_of ns

pub value_of-append : (ms ns : List UnspentNote) → value_of (ms ++ ns) ≡ value_of ms + value_of ns
unfolding value_of
value_of-append [] ns = omega arith
value_of-append (m ∷ ms) ns = omega (arith, value_of-append ms ns)

-- The fee is 5,000 zatoshis an action whenever it is computed without wrap-around.
pub required_fee_send_lem :
    (spend_count output_count : ℕ)
    → 5000 * action_count spend_count output_count < word
    → required_fee_send spend_count output_count
      ≡ done (5000 * action_count spend_count output_count)
unfolding required_fee_send
required_fee_send_lem s o h = ground arith

-- A sum that `addUint64` returns is exact.
pub add_uint64_exact :
    (a b c : ℕ) → a < word → b < word → add_uint64 a b ≡ some c → (c ≡ a + b) × (c < word)
unfolding add_uint64
add_uint64_exact a b c ha hb h = ground arith

pub add_uint64-none : (a b : ℕ) → a < word → b < word → add_uint64 a b ≡ none → word ≤ a + b
unfolding add_uint64
add_uint64-none a b ha hb h = ground arith

-- The fee that the selection charges for `count` notes: as if there were a change output.
unfoldable pub fee_at : ℕ → ℕ → ℕ
fee_at output_count count = 5000 * action_count count (output_count + 1)

-- `count` notes worth `total` pay for the amount and the fee, and leave change, or there is none to
-- leave and a transaction without change costs the same.
unfoldable pub is_enough : ℕ → ℕ → ℕ → ℕ → Bool
is_enough amount output_count count total =
    ltb (amount + fee_at output_count count) total
    || ((total == (amount + fee_at output_count count))
        && (5000 * action_count count output_count == fee_at output_count count))

accepted_fee_lem :
    (amount output_count count total : ℕ)
    → amount + fee_at output_count count < word
    → accepted_fee amount output_count count total
      ≡ done (
          if is_enough amount output_count count total
          then some (fee_at output_count count)
          else none)
unfolding accepted_fee is_enough fee_at required_fee_send add_uint64
accepted_fee_lem amount o c total h = ground arith

-- The first `k` notes are the first that are enough.
pub record IsFirstEnough (amount output_count : ℕ) (count base : ℕ) (notes : List UnspentNote)
    (k : ℕ) : Type 0 where
  pub taken : 1 ≤ k
  pub there : k ≤ length notes
  pub enough : is_enough amount output_count (count + k) (base + value_of (take k notes)) ≡ true
  pub first :
      (j : ℕ)
      → 1 ≤ j
      → j < k
      → is_enough amount output_count (count + j) (base + value_of (take j notes)) ≡ false

-- No number of notes from the front is enough.
abbrev pub NoneEnough : ℕ → ℕ → ℕ → ℕ → List UnspentNote → Type 0
NoneEnough amount output_count count base notes =
    (j : ℕ)
    → 1 ≤ j
    → j ≤ length notes
    → is_enough amount output_count (count + j) (base + value_of (take j notes)) ≡ false

-- A step of the loop whose notes are enough, or are not.
module _ (amount output_count : ℕ) (selected : List UnspentNote) (n : UnspentNote)
    (notes : List UnspentNote) where
  select_loop_stops :
      (total : ℕ)
      → accepted_fee amount output_count
          (length (selected ++ n ∷ []))
          ((total + n.value_zat) % word)
        ≡ done (some (fee_at output_count (length (selected ++ n ∷ []))))
      → select_loop amount output_count selected total (n ∷ notes)
        ≡ done (selected ++ n ∷ [], fee_at output_count (length (selected ++ n ∷ [])))
  unfolding select_loop
  select_loop_stops total h = rw h

  select_loop_goes_on :
      (total : ℕ)
      → accepted_fee amount output_count
          (length (selected ++ n ∷ []))
          ((total + n.value_zat) % word)
        ≡ done none
      → select_loop amount output_count selected total (n ∷ notes)
        ≡ select_loop amount output_count (selected ++ n ∷ []) ((total + n.value_zat) % word) notes
  unfolding select_loop
  select_loop_goes_on total h = rw h

-- What the loop returns.
abbrev pub Selects :
    ℕ → ℕ → List UnspentNote → ℕ → List UnspentNote → Outcome (List UnspentNote × ℕ) → Type 0
Selects amount output_count selected total notes r =
    ((k : ℕ) × (r ≡ done (selected ++ take k notes, fee_at output_count (length selected + k)))
      × IsFirstEnough amount output_count (length selected) total notes k)
    ⊎ ((r ≡ failed insufficient_funds)
        × NoneEnough amount output_count (length selected) total notes)

-- The test after one note more, from the front of the list.
module _ (amount output_count count base : ℕ) (n : UnspentNote) (notes : List UnspentNote) where
  value_of-take-suc :
      (j : ℕ) → value_of (take (suc j) (n ∷ notes)) ≡ n.value_zat + value_of (take j notes)
  unfolding value_of
  value_of-take-suc j = refl

  is_enough-suc :
      (j : ℕ)
      → is_enough amount output_count (count + suc j) (base + value_of (take (suc j) (n ∷ notes)))
        ≡ is_enough amount output_count
            (count + 1 + j)
            (base + n.value_zat + value_of (take j notes))
  is_enough-suc j =
      let c : count + suc j ≡ count + 1 + j = omega arith in
      let v : base + value_of (take (suc j) (n ∷ notes))
          ≡ base + n.value_zat + value_of (take j notes) =
        omega (arith, value_of-take-suc j) in
      rw (c, v)

  is_enough-one :
      is_enough amount output_count (count + 1) (base + value_of (take 1 (n ∷ notes)))
      ≡ is_enough amount output_count (count + 1) (base + n.value_zat)
  unfolding value_of
  is_enough-one = ap (is_enough amount output_count (count + 1)) (omega arith)

  IsFirstEnough-one :
      is_enough amount output_count (count + 1) (base + n.value_zat) ≡ true
      → IsFirstEnough amount output_count count base (n ∷ notes) 1
  IsFirstEnough-one e = record {
    taken = omega arith;
    there = omega arith;
    enough = is_enough-one ∙ e;
    first = λ j a b. absurd (omega arith);
  }

  before-suc :
      (bound : ℕ)
      → is_enough amount output_count (count + 1) (base + n.value_zat) ≡ false
      → ((j : ℕ)
          → 1 ≤ j
          → j < bound
          → is_enough amount output_count
              (count + 1 + j)
              (base + n.value_zat + value_of (take j notes))
            ≡ false)
      → (j : ℕ) → 1 ≤ j
      → j < suc bound
      → is_enough amount output_count (count + j) (base + value_of (take j (n ∷ notes))) ≡ false
  before-suc bound e h zero a b = absurd (omega arith)
  before-suc bound e h (suc zero) a b = is_enough-one ∙ e
  before-suc bound e h (suc (suc j)) a b =
      is_enough-suc (suc j) ∙ h (suc j) (omega arith) (omega arith)

  IsFirstEnough-suc :
      (k : ℕ)
      → is_enough amount output_count (count + 1) (base + n.value_zat) ≡ false
      → IsFirstEnough amount output_count (count + 1) (base + n.value_zat) notes k
      → IsFirstEnough amount output_count count base (n ∷ notes) (suc k)
  IsFirstEnough-suc k e h = record {
    taken = omega arith;
    there = let t = h.there in omega arith;
    enough = is_enough-suc k ∙ h.enough;
    first = before-suc k e h.first;
  }

  NoneEnough-suc :
      is_enough amount output_count (count + 1) (base + n.value_zat) ≡ false
      → NoneEnough amount output_count (count + 1) (base + n.value_zat) notes
      → NoneEnough amount output_count count base (n ∷ notes)
  NoneEnough-suc e h j a b =
      before-suc (suc (length notes)) e (λ i c d. h i c (omega arith)) j a (omega arith)

append-snoc {ℓ} :
    {A : Type ℓ} (xs : List A) (a : A) (ys : List A) → (xs ++ a ∷ []) ++ ys ≡ xs ++ a ∷ ys
append-snoc [] a ys = refl
append-snoc (x ∷ xs) a ys = rw (append-snoc xs a ys)

Selects-suc :
    (amount output_count : ℕ) (selected : List UnspentNote) (total : ℕ) (n : UnspentNote)
    (notes : List UnspentNote) (r : Outcome (List UnspentNote × ℕ))
    → is_enough amount output_count (length selected + 1) (total + n.value_zat) ≡ false
    → Selects amount output_count (selected ++ n ∷ []) (total + n.value_zat) notes r
    → Selects amount output_count selected total (n ∷ notes) r
Selects-suc amount o selected total n notes r e (inl (k, result, h)) =
    let len : length (selected ++ n ∷ []) ≡ length selected + 1 = length-append selected (n ∷ []) in
    let shift : length (selected ++ n ∷ []) + k ≡ length selected + suc k = omega (arith, len) in
    inl (
      suc k,
      result ∙ rw (append-snoc selected n (take k notes)) (rw shift),
      IsFirstEnough-suc amount o (length selected) total n notes k e
          (subst (λ c. IsFirstEnough amount o c (total + n.value_zat) notes k) len h),
    )
Selects-suc amount o selected total n notes r e (inr (result, h)) =
    let len : length (selected ++ n ∷ []) ≡ length selected + 1 = length-append selected (n ∷ []) in
    inr (
      result,
      NoneEnough-suc amount o (length selected) total n notes e
          (subst (λ c. NoneEnough amount o c (total + n.value_zat) notes) len h),
    )

select_loop_lem :
    (amount output_count : ℕ) (selected : List UnspentNote) (total : ℕ) (notes : List UnspentNote)
    → total + value_of notes < word
    → amount + 5000 * (length selected + length notes + output_count + 2) < word
    → Selects amount output_count selected total notes
        (select_loop amount output_count selected total notes)
unfolding value_of select_loop
select_loop_lem amount o selected total [] fits small = inr (refl, λ j a b. absurd (omega arith))
select_loop_lem amount o selected total (n ∷ notes) fits small =
    let len : length (selected ++ n ∷ []) ≡ length selected + 1 = length-append selected (n ∷ []) in
    let exact : (total + n.value_zat) % word ≡ total + n.value_zat = omega arith in
    let test =
      accepted_fee_lem amount o (length (selected ++ n ∷ [])) ((total + n.value_zat) % word)
        (rw len (unfold fee_at in ground arith)) in
    elim (Bool-cases (is_enough amount o (length selected + 1) (total + n.value_zat))) [
      | inl e ↦
          let e' : is_enough amount o (length (selected ++ n ∷ [])) ((total + n.value_zat) % word)
              ≡ true =
            rw (len, exact) e in
          inl (
            1,
            select_loop_stops amount o selected n notes total (test ∙ rw e') ∙ rw len,
            IsFirstEnough-one amount o (length selected) total n notes e,
          )
      | inr e ↦
          let e' : is_enough amount o (length (selected ++ n ∷ [])) ((total + n.value_zat) % word)
              ≡ false =
            rw (len, exact) e in
          let on = select_loop_goes_on amount o selected n notes total (test ∙ rw e') in
          let again =
            select_loop_lem amount o (selected ++ n ∷ []) ((total + n.value_zat) % word) notes
              (omega arith) (rw len (omega arith)) in
          Selects-suc amount o selected total n notes _ e (
            subst (λ r. Selects amount o (selected ++ n ∷ []) (total + n.value_zat) notes r)
              (sym on)
              (subst
                (λ t.
                  Selects amount o (selected ++ n ∷ []) t notes (
                    select_loop amount o (selected ++ n ∷ []) ((total + n.value_zat) % word) notes))
                exact again))
    ]

-- Sorting keeps the notes: their number and their values.
value_of-insert_by :
    (before : UnspentNote → UnspentNote → Bool) (n : UnspentNote) (ns : List UnspentNote)
    → value_of (insert_by before n ns) ≡ n.value_zat + value_of ns
unfolding value_of insert_by
value_of-insert_by before n [] = refl
value_of-insert_by before n (m ∷ ns) = ground (arith, value_of-insert_by before n ns)

pub value_of-sort_by :
    (before : UnspentNote → UnspentNote → Bool) (ns : List UnspentNote)
    → value_of (sort_by before ns) ≡ value_of ns
unfolding value_of sort_by
value_of-sort_by before [] = refl
value_of-sort_by before (n ∷ ns) =
    value_of-insert_by before n (sort_by before ns)
    ∙ ap (λ v. n.value_zat + v) (value_of-sort_by before ns)

length-insert_by :
    (before : UnspentNote → UnspentNote → Bool) (n : UnspentNote) (ns : List UnspentNote)
    → length (insert_by before n ns) ≡ suc (length ns)
unfolding insert_by
length-insert_by before n [] = refl
length-insert_by before n (m ∷ ns) = ground (arith, length-insert_by before n ns)

pub length-sort_by :
    (before : UnspentNote → UnspentNote → Bool) (ns : List UnspentNote)
    → length (sort_by before ns) ≡ length ns
unfolding sort_by
length-sort_by before [] = refl
length-sort_by before (n ∷ ns) =
    length-insert_by before n (sort_by before ns) ∙ ap suc (length-sort_by before ns)

-- Where no sum can wrap around, `SelectNotes` returns the shortest front of the sorted notes that is
-- enough, with its fee, or reports insufficient funds, and then no front of them is enough.
pub select_notes_lem :
    (notes : List UnspentNote) (amount output_count : ℕ)
    → value_of notes < word
    → amount + 5000 * (length notes + output_count + 2) < word
    → Selects amount output_count [] 0
        (sort_by note_before notes)
        (select_notes notes amount output_count)
unfolding select_notes
select_notes_lem notes amount o fits small =
    select_loop_lem amount o [] 0 (sort_by note_before notes)
      (omega (arith, value_of-sort_by note_before notes))
      (omega (arith, length-sort_by note_before notes))
