-- ===== src/Txplan/Plan.antt =====
-- The plans: `PlanWithdrawal`, `PlanRebalance`, `PlanSweep` and `PlanSweepMany` of
-- internal/txplan/builder.go, `planSweepWithNotes` of internal/txplan/sweep_many.go.
use juno_exchange_kit.Base.{
  ℕ, ◌-◌, not, ◌||◌, List, [], ◌∷◌, map, length, ltb, leb, ◌==◌, if◌then◌else◌,
}
use juno_exchange_kit.Base.Int.{ℤ, pos, pos_part, ltb_ℤ}
use juno_exchange_kit.Base.Text.{Text, is_empty, trim_space}
use juno_exchange_kit.Base.Decimal.{format_uint}
use juno_exchange_kit.Txplan.Outcome.{
  Outcome, done, failed, ◌>>=◌, ◌>>◌, or_fail, fail_if, services_required, wallet_required,
  to_address_required, change_address_required, outputs_required, invalid_output,
  insufficient_funds, notes_required, notes_sum_overflow, outputs_sum_overflow,
  selected_note_missing,
}
use juno_exchange_kit.Txplan.Notes.{UnspentNote, required_fee_send, select_notes}
use juno_exchange_kit.Txplan.Chunks.{SpendableNote, Chunks, split_notes_balanced}
use juno_exchange_kit.Txplan.Services.{Rpc, Scan}
use juno_exchange_kit.Txplan.Actions.{
  BlockCache, notes_to_unspent, find_note, orchard_action_for_note,
}
use juno_exchange_kit.Txplan.Prepare.{
  withdrawal, rebalance, sweep, Output, SendConfig, TxPlanKind, TxOutput, SpendNote, TxPlan,
  with_defaults, Context, prepare,
}
use juno_exchange_kit.Txplan.Build.{
  sum_values, spend_note, plan_notes, finish_plan, position_list, value_list, amount_list,
}

-- `planSweepWithNotes`: everything that the notes hold goes to one address, less the fee.
unfoldable pub plan_sweep_with_notes :
    Rpc
    → Scan
    → SendConfig
    → Context
    → List SpendableNote
    → Text
    → Text
    → Text
    → BlockCache
    → Outcome ((TxPlan × ℕ) × BlockCache)
plan_sweep_with_notes rpc scan cfg ctx notes to_address memo_hex change_address cache = do
  fail_if (length notes == 0) notes_required
  total ← or_fail (sum_values 0 (value_list notes)) notes_sum_overflow
  fee ← required_fee_send (length notes) 1
  fail_if (leb total fee) insufficient_funds
  planned ← plan_notes rpc cache notes
  plan ←
      finish_plan scan cfg ctx sweep (position_list notes) planned.0
        (record {
          to_address = to_address;
          amount_zat = format_uint (total - fee);
          memo_hex = memo_hex;
        }
          ∷ [])
        change_address fee
  done ((plan, fee), planned.1)

-- The loop of `PlanSweepMany` over the chunks.
unfoldable pub plan_chunks :
    Rpc
    → Scan
    → SendConfig
    → Context
    → Text
    → Text
    → Text
    → Chunks
    → BlockCache
    → Outcome (List (TxPlan × ℕ))
plan_chunks rpc scan cfg ctx to_address memo_hex change_address [] cache = done []
plan_chunks rpc scan cfg ctx to_address memo_hex change_address (c ∷ cs) cache = do
  first ← plan_sweep_with_notes rpc scan cfg ctx c to_address memo_hex change_address cache
  rest ← plan_chunks rpc scan cfg ctx to_address memo_hex change_address cs first.1
  done (first.0 ∷ rest)

-- An empty change address means the destination.
abbrev pub change_or_to : Text → Text → Text
change_or_to change_address to_address =
    if is_empty change_address then to_address else change_address

-- The clamp of maxSpends to at least 2 and at most 200.
unfoldable pub clamp_spends : ℤ → ℕ
clamp_spends max_spends =
    let most =
      if not (ltb_ℤ (pos 0) max_spends) || ltb_ℤ (pos 200) max_spends
      then 200
      else pos_part max_spends in
    if ltb most 2 then 2 else most

-- The services of a configuration, both or none.
unfoldable pub services_of : SendConfig → Outcome (Rpc × Scan)
services_of cfg = do
  rpc ← or_fail cfg.rpc services_required
  scan ← or_fail cfg.scan services_required
  done (rpc, scan)

-- `PlanSweep`
unfoldable pub plan_sweep : SendConfig → Text → Text → Text → Outcome (TxPlan × ℕ)
plan_sweep cfg to_address memo_hex change_address =
    let cfg' = with_defaults cfg in
    let to = trim_space to_address in
    do
      services ← services_of cfg
      fail_if (is_empty cfg'.wallet) wallet_required
      fail_if (is_empty to) to_address_required
      ctx ← prepare services.0 services.1 cfg'
      plan ←
          plan_sweep_with_notes services.0 services.1 cfg' ctx ctx.notes to (trim_space memo_hex)
            (change_or_to (trim_space change_address) to) []
      done plan.0

-- `PlanSweepMany`
unfoldable pub plan_sweep_many : SendConfig → Text → Text → Text → ℤ → Outcome (List (TxPlan × ℕ))
plan_sweep_many cfg to_address memo_hex change_address max_spends =
    let cfg' = with_defaults cfg in
    let to = trim_space to_address in
    do
      services ← services_of cfg
      fail_if (is_empty cfg'.wallet) wallet_required
      fail_if (is_empty to) to_address_required
      ctx ← prepare services.0 services.1 cfg'
      plan_chunks services.0 services.1 cfg' ctx to (trim_space memo_hex)
          (change_or_to (trim_space change_address) to)
          (split_notes_balanced ctx.notes (pos (clamp_spends max_spends))) []

-- The outputs trimmed, unless one has no address or no amount.
unfoldable pub check_outputs : List Output → Outcome (List Output)
check_outputs [] = done []
check_outputs (o ∷ os) = do
  fail_if (is_empty (trim_space o.to_address) || (o.amount_zat == 0)) invalid_output
  rest ← check_outputs os
  done (record o { to_address = trim_space o.to_address; memo_hex = trim_space o.memo_hex } ∷ rest)

abbrev pub to_output : Output → TxOutput
to_output o = record {
  to_address = o.to_address;
  amount_zat = format_uint o.amount_zat;
  memo_hex = o.memo_hex;
}

-- The loop over the selected notes: each is found again by transaction and action, and its action
-- looked up.
unfoldable pub plan_selected :
    Rpc
    → List SpendableNote
    → BlockCache
    → List UnspentNote
    → Outcome (List SpendableNote × List SpendNote)
plan_selected rpc notes cache [] = done ([], [])
plan_selected rpc notes cache (s ∷ ss) = do
  n ← or_fail (find_note notes s.txid s.action_index) selected_note_missing
  found ← orchard_action_for_note rpc cache n.height n.txid n.action_index
  rest ← plan_selected rpc notes found.1 ss
  done (n ∷ rest.0, spend_note n found.0 ∷ rest.1)

-- The error that `planSend` makes of any failure of `SelectNotes`.
abbrev pub as_insufficient : {A : Type 0} → Outcome A → Outcome A
as_insufficient (done a) = done a
as_insufficient (failed e) = failed insufficient_funds

-- `planSend` from the sum of the outputs on: the notes are selected, looked up and spent.
unfoldable pub send_prepared :
    Rpc → Scan → SendConfig → Context → TxPlanKind → List Output → Text → Outcome (TxPlan × ℕ)
send_prepared rpc scan cfg ctx kind outs change_address = do
  total_out ← or_fail (sum_values 0 (amount_list outs)) outputs_sum_overflow
  selected ← as_insufficient (select_notes (notes_to_unspent ctx.notes) total_out (length outs))
  planned ← plan_selected rpc ctx.notes [] selected.0
  plan ←
      finish_plan scan cfg ctx kind (position_list planned.0) planned.1 (map to_output outs)
        change_address selected.1
  done (plan, selected.1)

-- `planSend`; `PlanWithdrawal` and `PlanRebalance` are its calls with their kinds.
unfoldable pub plan_send : SendConfig → TxPlanKind → List Output → Text → Outcome (TxPlan × ℕ)
plan_send cfg kind outputs change_address =
    let cfg' = with_defaults cfg in
    do
      services ← services_of cfg
      fail_if (is_empty cfg'.wallet) wallet_required
      fail_if (is_empty (trim_space change_address)) change_address_required
      fail_if (length outputs == 0) outputs_required
      outs ← check_outputs outputs
      ctx ← prepare services.0 services.1 cfg'
      send_prepared services.0 services.1 cfg' ctx kind outs (trim_space change_address)

unfoldable pub plan_withdrawal : SendConfig → List Output → Text → Outcome (TxPlan × ℕ)
plan_withdrawal cfg = plan_send cfg withdrawal

unfoldable pub plan_rebalance : SendConfig → List Output → Text → Outcome (TxPlan × ℕ)
plan_rebalance cfg = plan_send cfg rebalance
