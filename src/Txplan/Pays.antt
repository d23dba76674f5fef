-- ===== src/Txplan/Pays.antt =====
-- What a plan of `planSend` pays out, and from which wallet: internal/txplan/builder.go.
use juno_exchange_kit.Base.{ℕ, ◌≡◌, subst, List, [], length, map, ◌==◌, arith}
use juno_exchange_kit.Base.Text.{Text, is_empty, trim_space}
use juno_exchange_kit.Txplan.Outcome.{
  done, >>=_done, fail_if_done, or_fail, outputs_sum_overflow, wallet_required,
  change_address_required, outputs_required,
}
use juno_exchange_kit.Txplan.Notes.{select_notes}
use juno_exchange_kit.Txplan.Services.{Rpc, Scan}
use juno_exchange_kit.Txplan.Actions.{notes_to_unspent}
use juno_exchange_kit.Txplan.Prepare.{
  SpendNote, Output, SendConfig, Context, TxOutput, TxPlan, TxPlanKind, with_defaults, prepare,
}
use juno_exchange_kit.Txplan.Build.{
  amount_list, position_list, sum_values, finish_plan, witness_for, attach_paths,
}
use juno_exchange_kit.Txplan.Plan.{
  services_of, check_outputs, to_output, plan_selected, as_insufficient, send_prepared, plan_send,
}

-- A plan of a kind, for a wallet, with these outputs and this change address.
pub record PlanFor (kind : TxPlanKind) (wallet : Text) (outputs : List TxOutput) (change : Text)
    (plan : TxPlan) : Type 0 where
  pub of_kind : plan.kind ≡ kind
  pub from : plan.wallet_id ≡ wallet
  pub pays : plan.outputs ≡ outputs
  pub change_to : plan.change_address ≡ change

finish_plan-PlanFor :
    (scan : Scan) (cfg : SendConfig) (ctx : Context) (kind : TxPlanKind) (positions : List ℕ)
    (planned : List SpendNote) (outputs : List TxOutput) (change : Text) (fee : ℕ) (plan : TxPlan)
    → finish_plan scan cfg ctx kind positions planned outputs change fee ≡ done plan
    → PlanFor kind cfg.wallet outputs change plan
unfolding finish_plan
finish_plan-PlanFor scan cfg ctx kind positions planned outputs change fee plan h =
    let (wit, _, h') = >>=_done (witness_for scan positions) _ h in
    let (spends, _, h'') = >>=_done (attach_paths wit.paths planned) _ h' in
    record {
      of_kind = ground arith;
      from = ground arith;
      pays = ground arith;
      change_to = ground arith;
    }

send_prepared-PlanFor :
    (rpc : Rpc) (scan : Scan) (cfg : SendConfig) (ctx : Context) (kind : TxPlanKind)
    (outs : List Output) (change : Text) (plan : TxPlan) (fee : ℕ)
    → send_prepared rpc scan cfg ctx kind outs change ≡ done (plan, fee)
    → PlanFor kind cfg.wallet (map to_output outs) change plan
unfolding send_prepared
send_prepared-PlanFor rpc scan cfg ctx kind outs change plan fee h =
    let (total, _, h1) =
      >>=_done (or_fail (sum_values 0 (amount_list outs)) outputs_sum_overflow) _ h in
    let ((selected, f), _, h2) =
      >>=_done (as_insufficient (select_notes (notes_to_unspent ctx.notes) total (length outs))) _
        h1 in
    let (planned, _, h3) = >>=_done (plan_selected rpc ctx.notes [] selected) _ h2 in
    let (p, p_is, h4) =
      >>=_done
        (finish_plan scan cfg ctx kind (position_list planned.0) planned.1 (map to_output outs)
          change f)
        _ h3 in
    let same : p ≡ plan = ground arith in
    subst (PlanFor kind cfg.wallet (map to_output outs) change) same (
      finish_plan-PlanFor scan cfg ctx kind (position_list planned.0) planned.1 (map to_output outs)
        change f p p_is)

-- A plan of `planSend` is of the kind asked for, for the wallet of the configuration, has the checked
-- outputs and sends its change to the trimmed address.
pub plan_send-PlanFor :
    (cfg : SendConfig) (kind : TxPlanKind) (outputs : List Output) (change : Text) (plan : TxPlan)
    (fee : ℕ)
    → plan_send cfg kind outputs change ≡ done (plan, fee)
    → (outs : List Output) × (check_outputs outputs ≡ done outs)
      × PlanFor kind (with_defaults cfg).wallet (map to_output outs) (trim_space change) plan
unfolding plan_send
plan_send-PlanFor cfg kind outputs change plan fee h =
    let cfg' = with_defaults cfg in
    let (services, _, h1) = >>=_done (services_of cfg) _ h in
    let (_, h2) = fail_if_done (is_empty cfg'.wallet) wallet_required _ h1 in
    let (_, h3) = fail_if_done (is_empty (trim_space change)) change_address_required _ h2 in
    let (_, h4) = fail_if_done (length outputs == 0) outputs_required _ h3 in
    let (outs, outs_is, h5) = >>=_done (check_outputs outputs) _ h4 in
    let (ctx, _, h6) = >>=_done (prepare services.0 services.1 cfg') _ h5 in
    (
      outs,
      outs_is,
      send_prepared-PlanFor services.0 services.1 cfg' ctx kind outs (trim_space change) plan fee
          h6,
    )
