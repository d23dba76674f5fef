-- ===== src/Txplan/Notes.antt =====
-- Fees and the selection of notes: internal/txplan/logic.go.
use juno_exchange_kit.Base.{
  ℕ, ◌+◌, ◌*◌, ◌%◌, Bool, not, Option, none, some, List, [], ◌∷◌, ◌++◌, ltb, length, ◌==◌,
  if◌then◌else◌,
}
use juno_exchange_kit.Base.Word.{word}
use juno_exchange_kit.Base.Text.{Text, eq_text, lt_text}
use juno_exchange_kit.Base.Table.{sort_by}
use juno_exchange_kit.Txplan.Outcome.{
  Outcome, done, failed, ◌>>=◌, or_fail, fee_overflow, amount_overflow, insufficient_funds,
}

pub record UnspentNote : Type 0 where
  pub txid : Text
  pub action_index : ℕ
  pub value_zat : ℕ

-- The number of actions of a transaction: at least two.
abbrev pub action_count : ℕ → ℕ → ℕ
action_count spend_count output_count =
    let actions = if ltb spend_count output_count then output_count else spend_count in
    if ltb actions 2 then 2 else actions

-- `RequiredFeeSend`, in uint64 arithmetic.
unfoldable pub required_fee_send : ℕ → ℕ → Outcome ℕ
required_fee_send spend_count output_count =
    let fee = 5000 * action_count spend_count output_count % word in
    if ltb fee 5000 then failed fee_overflow else done fee

-- `addUint64`
unfoldable pub add_uint64 : ℕ → ℕ → Option ℕ
add_uint64 a b = let sum = (a + b) % word in if ltb sum a then none else some sum

-- The order of the sort: the largest value first, then by transaction and action.
unfoldable pub note_before : UnspentNote → UnspentNote → Bool
note_before m n =
    if not (m.value_zat == n.value_zat)
    then ltb n.value_zat m.value_zat
    else if not (eq_text m.txid n.txid)
    then lt_text m.txid n.txid
    else ltb m.action_index n.action_index

-- The tests of the loop for `count` notes worth `total`: the fee if they are enough.
unfoldable pub accepted_fee : ℕ → ℕ → ℕ → ℕ → Outcome (Option ℕ)
accepted_fee amount output_count count total = do
  with_change ← required_fee_send count (output_count + 1)
  need ← or_fail (add_uint64 amount with_change) amount_overflow
  if ltb need total
      then done (some with_change)
      else if total == need
      then (do
        no_change ← required_fee_send count output_count
        done (if no_change == with_change then some with_change else none))
      else done none

-- The loop: `selected` and `total` are the notes taken and their sum.
unfoldable pub select_loop :
    ℕ → ℕ → List UnspentNote → ℕ → List UnspentNote → Outcome (List UnspentNote × ℕ)
select_loop amount output_count selected total [] = failed insufficient_funds
select_loop amount output_count selected total (n ∷ notes) =
    let selected' = selected ++ n ∷ [] in
    let total' = (total + n.value_zat) % word in
    do
      fee ← accepted_fee amount output_count (length selected') total'
      elim fee [
        | none ↦ select_loop amount output_count selected' total' notes
        | some f ↦ done (selected', f)
      ]

-- `SelectNotes`
unfoldable pub select_notes : List UnspentNote → ℕ → ℕ → Outcome (List UnspentNote × ℕ)
select_notes notes amount output_count =
    select_loop amount output_count [] 0 (sort_by note_before notes)
