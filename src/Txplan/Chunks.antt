-- ===== src/Txplan/Chunks.antt =====
-- `splitNotesBalanced` of internal/txplan/sweep_many.go, and the notes that it splits.
use juno_exchange_kit.Base.{
  ℕ, ◌+◌, ◌-◌, ◌/◌, ◌%◌, Bool, not, ◌||◌, Option, none, some, List, [], ◌∷◌, ◌++◌, ltb, leb, length,
  replicate, set, get_or, ◌==◌, if◌then◌else◌, zero, suc,
}
use juno_exchange_kit.Base.Int.{ℤ, pos, pos_part, ltb_ℤ}
use juno_exchange_kit.Base.Text.{Text, eq_text, lt_text}
use juno_exchange_kit.Base.Table.{sort_by}

pub record SpendableNote : Type 0 where
  pub txid : Text
  pub action_index : ℕ
  pub height : ℤ
  pub position : ℕ
  pub value_zat : ℕ

-- The order of the sort in `splitNotesBalanced`.
unfoldable pub spendable_before : SpendableNote → SpendableNote → Bool
spendable_before m n =
    if not (m.value_zat == n.value_zat)
    then ltb n.value_zat m.value_zat
    else if not (eq_text m.txid n.txid)
    then lt_text m.txid n.txid
    else ltb m.action_index n.action_index

abbrev pub Chunks : Type 0
Chunks = List (List SpendableNote)

-- chunks[i] = append(chunks[i], n)
unfoldable pub append_at : ℕ → SpendableNote → Chunks → Chunks
append_at i n [] = []
append_at zero n (c ∷ cs) = (c ++ n ∷ []) ∷ cs
append_at (suc i) n (c ∷ cs) = c ∷ append_at i n cs

-- The loop that deals the notes out: note `i` goes to chunk `i % k`.
unfoldable pub deal : ℕ → ℕ → List SpendableNote → Chunks → Chunks
deal k i [] chunks = chunks
deal k i (n ∷ ns) chunks = deal k (suc i) ns (append_at (i % k) n chunks)

-- The first chunk of one note.
unfoldable pub one_index : Chunks → Option ℕ
one_index [] = none
one_index (c ∷ cs) =
    if length c == 1 then some 0 else elim (one_index cs) [ none ↦ none | some i ↦ some (suc i) ]

-- The loop that looks for the longest chunk from index `i` on: `donor` and `max_len` are the best so
-- far.
unfoldable pub longest : ℕ → Option ℕ → ℕ → Chunks → Option ℕ × ℕ
longest i donor max_len [] = (donor, max_len)
longest i donor max_len (c ∷ cs) =
    let same = longest (suc i) donor max_len cs in
    let better = longest (suc i) (some i) (length c) cs in
    if ltb max_len (length c) then better else same

-- The last note of a chunk, and the chunk without it.
unfoldable pub last_note : List SpendableNote → Option SpendableNote
last_note [] = none
last_note (n ∷ []) = some n
last_note (n ∷ m ∷ ns) = last_note (m ∷ ns)

unfoldable pub but_last : List SpendableNote → List SpendableNote
but_last [] = []
but_last (n ∷ []) = []
but_last (n ∷ m ∷ ns) = n ∷ but_last (m ∷ ns)

-- A note goes from the end of chunk `donor` to the end of chunk `one`.
unfoldable pub move_note : ℕ → ℕ → Chunks → Chunks
move_note donor one chunks =
    let c = get_or chunks donor [] in
    elim (last_note c) [ none ↦ chunks | some n ↦ append_at one n (set chunks donor (but_last c)) ]

-- One turn of the borrowing loop; none where it breaks off.
unfoldable pub borrow_step : Chunks → Option Chunks
borrow_step chunks = elim (one_index chunks) [
  | none ↦ none
  | some one ↦
      let (donor, max_len) = longest 0 none 0 chunks in
      elim donor [
        | none ↦ none
        | some d ↦ if (d == one) || leb max_len 2 then none else some (move_note d one chunks)
      ]
]

-- The loop, for at most `fuel` turns.
unfoldable pub borrow : ℕ → Chunks → Chunks
borrow zero chunks = chunks
borrow (suc fuel) chunks = elim (borrow_step chunks) [
  | none ↦ chunks
  | some next ↦ borrow fuel next
]

-- The number of chunks.
abbrev pub chunk_count : ℕ → ℕ → ℕ
chunk_count notes max_spends = (notes + max_spends - 1) / max_spends

-- `splitNotesBalanced`; the loop makes no more turns than there are chunks.
unfoldable pub split_notes_balanced : List SpendableNote → ℤ → Chunks
split_notes_balanced notes max_spends =
    let n = length notes in
    let most = if ltb_ℤ (pos 0) max_spends then pos_part max_spends else n in
    let k = chunk_count n most in
    if leb n most || leb k 1
    then notes ∷ []
    else borrow k (deal k 0 (sort_by spendable_before notes) (replicate k []))
