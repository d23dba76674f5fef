-- ===== src/Cli/Withdraw/Plans.antt =====
-- What `runWithdraw` plans, and whom it asks to broadcast.
use juno_exchange_kit.Base.{
  ℕ, ◌≡◌, refl, subst, ap, ◌∙◌, Option, none, some, List, [], ◌∷◌, map, ◌||◌, ◌==◌, arith,
}
use juno_exchange_kit.Base.Int.{ltb_ℤ, pos}
use juno_exchange_kit.Base.Text.{
  Text, is_empty, trim_space, trim_left, trim_right, is_space, trim_space-nil,
}
use juno_exchange_kit.Base.Decimal.{format_uint}
use juno_exchange_kit.Store.Accounts.{account_balance}
use juno_exchange_kit.Store.Wallets.{next_internal_address}
use juno_exchange_kit.Txplan.Outcome.{
  Outcome, done, failed, fail_if_done, invalid_output, no_spendable_notes, insufficient_funds,
}
use juno_exchange_kit.Txplan.Prepare.{Output, TxOutput, TxPlan, withdrawal, with_defaults}
use juno_exchange_kit.Txplan.Plan.{check_outputs, to_output, plan_withdrawal}
use juno_exchange_kit.Txplan.Pays.{PlanFor, plan_send-PlanFor}
use juno_exchange_kit.Cli.Command.{
  World, Ended, returned, from_store, settle, >>=_returned, exit_if_passed, returned_inj,
  scan_url_required, broadcast_url_required, insufficient_balance, hot_wallet_missing,
}
use juno_exchange_kit.Cli.Config.{
  Broadcaster, Host, RpcFlags, ServicesFlags, resolved, resolved_scan_url, resolved_broadcast_url,
}
use juno_exchange_kit.Cli.Setup.{
  hot, Services, client_of, connect, stored_hrp, stored_coin_type, stored_wallet,
}
use juno_exchange_kit.Cli.Withdraw.{
  WithdrawFlags, Request, Prepared, prepare_withdraw, planned, withdraw_config, single_output,
  plan_payment,
}

planned_returned : {A : Type 0} (o : Outcome A) {a : A} → planned o ≡ returned a → o ≡ done a
unfolding planned
planned_returned (done b) h = ground arith
planned_returned (failed no_spendable_notes) h = absurd (ground arith)
planned_returned (failed insufficient_funds) h = absurd (ground arith)
planned_returned (failed e) h = absurd (ground arith)

-- The one output of the plan.
abbrev pub output_of : Request → TxOutput
output_of r = record {
  to_address = trim_space r.to;
  amount_zat = format_uint r.amount;
  memo_hex = [];
}

single_output-checked :
    (r : Request) (outs : List Output)
    → check_outputs (single_output r) ≡ done outs
    → map to_output outs ≡ output_of r ∷ []
unfolding check_outputs
single_output-checked r outs h =
    let (_, h1) = fail_if_done (is_empty (trim_space r.to) || (r.amount == 0)) invalid_output _ h in
    let checked : List Output =
      record { to_address = trim_space r.to; amount_zat = r.amount; memo_hex = trim_space [] }
      ∷ [] in
    let same : checked ≡ outs = ground arith in
    subst (λ l. map to_output l ≡ output_of r ∷ []) same (rw trim_space-nil refl)

hot-defaults :
    (flags : WithdrawFlags) (p : Prepared) → (with_defaults (withdraw_config flags p)).wallet ≡ hot
unfolding with_defaults withdraw_config trim_space trim_left trim_right is_space
hot-defaults flags p = refl

-- A payment that is planned is a withdrawal of the hot wallet, whose one output pays the amount to the
-- address.
pub plan_payment-PlanFor :
    (host : Host) (flags : WithdrawFlags) (r : Request) (p : Prepared) (plan : TxPlan × ℕ)
    (w v : World)
    → plan_payment host flags r p w ≡ (returned plan, v)
    → (change : Text) × PlanFor withdrawal hot (output_of r ∷ []) change plan.0
unfolding plan_payment plan_withdrawal
plan_payment-PlanFor host flags r p plan w v h =
    let (change, mid, _, h1) =
      >>=_returned (from_store (next_internal_address hot _)) (λ x. _) w h in
    let made =
      planned_returned (plan_withdrawal (withdraw_config flags p) (single_output r) change)
        (ap (λ (x : Ended (TxPlan × ℕ) × World). x.0) h1) in
    let (outs, outs_is, k) =
      plan_send-PlanFor (withdraw_config flags p) withdrawal (single_output r) change plan.0 plan.1
        made in
    (
      trim_space change,
      subst (λ x. PlanFor withdrawal x (output_of r ∷ []) (trim_space change) plan.0)
          (hot-defaults flags p)
          (subst
            (λ x.
              PlanFor withdrawal (with_defaults (withdraw_config flags p)).wallet x
                (trim_space change) plan.0)
            (single_output-checked r outs outs_is) k),
    )

client_of_returned : {A : Type 0} (o : Option A) {a : A} → client_of o ≡ returned a → o ≡ some a
unfolding client_of
client_of_returned none h = absurd (ground arith)
client_of_returned (some b) h = ground arith

connect-broadcaster :
    (host : Host) (rpc : RpcFlags) (services : ServicesFlags) (w v : World) (s : Services)
    → connect host rpc services w ≡ (returned s, v)
    → host.broadcast_client (resolved_broadcast_url host services) ≡ some s.broadcaster
unfolding connect
connect-broadcaster host rpc services w v s h =
    let (login, v1, _, h1) = >>=_returned (settle (resolved host rpc)) (λ x. _) w h in
    let (_, h2) =
      exit_if_passed (is_empty (resolved_scan_url host services)) scan_url_required _ v1 h1 in
    let (_, h3) =
      exit_if_passed (is_empty (resolved_broadcast_url host services)) broadcast_url_required _ v1
        h2 in
    let (scan, v2, _, h4) =
      >>=_returned (settle (client_of (host.scan_client (resolved_scan_url host services))))
        (λ x. _) v1 h3 in
    let client = client_of (host.broadcast_client (resolved_broadcast_url host services)) in
    let (b, v3, e, h5) = >>=_returned (settle client) (λ x. _) v2 h4 in
    let same = ap (λ (x : Services). x.broadcaster) (returned_inj h5).0 in
    client_of_returned (host.broadcast_client (resolved_broadcast_url host services))
      (ap (λ (x : Ended Broadcaster × World). x.0) e)
    ∙ ap some same

-- The broadcaster is the one that the flags or the environment name.
pub prepare_withdraw-broadcaster :
    (host : Host) (flags : WithdrawFlags) (r : Request) (p : Prepared) (w v : World)
    → prepare_withdraw host flags r w ≡ (returned p, v)
    → host.broadcast_client (resolved_broadcast_url host flags.services)
      ≡ some p.services.broadcaster
unfolding prepare_withdraw
prepare_withdraw-broadcaster host flags r p w v h =
    let (hrp, v1, _, h1) = >>=_returned stored_hrp (λ x. _) w h in
    let (coin, v2, _, h2) = >>=_returned stored_coin_type (λ x. _) v1 h1 in
    let (row, v3, _, h3) = >>=_returned (stored_wallet hot hot_wallet_missing) (λ x. _) v2 h2 in
    let (balance, v4, _, h4) =
      >>=_returned (from_store (account_balance r.account_id)) (λ x. _) v3 h3 in
    let (_, h5) =
      exit_if_passed (ltb_ℤ balance (pos r.amount)) (insufficient_balance balance (pos r.amount)) _
        v4 h4 in
    let (s, v5, e, h6) = >>=_returned (connect host flags.rpc flags.services) (λ x. _) v4 h5 in
    connect-broadcaster host flags.rpc flags.services v4 v5 s e
    ∙ ap (λ (x : Prepared). some x.services.broadcaster) (returned_inj h6).0
