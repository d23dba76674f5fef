-- ===== src/Txplan/Sweep.antt =====
-- Sweeps lose no value: what the notes hold is what the plan pays and its fee.
use juno_exchange_kit.Base.{
  ℕ, ◌+◌, ◌-◌, ◌<◌, ◌≡◌, ap, ◌∙◌, subst, false, List, [], ◌∷◌, leb, length, ◌==◌, arith,
}
use juno_exchange_kit.Base.Int.{ℤ, pos}
use juno_exchange_kit.Base.Word.{word}
use juno_exchange_kit.Base.Text.{Text, is_empty, trim_space}
use juno_exchange_kit.Base.Decimal.{format_uint, decimal_value, decimal_value-format_uint}
use juno_exchange_kit.Txplan.Outcome.{
  done, >>=_done, fail_if_done, or_fail, or_fail_done, notes_required, notes_sum_overflow,
  insufficient_funds, wallet_required, to_address_required, no_spendable_notes, service_failed,
}
use juno_exchange_kit.Txplan.Notes.{required_fee_send}
use juno_exchange_kit.Txplan.Chunks.{SpendableNote, Chunks, split_notes_balanced}
use juno_exchange_kit.Txplan.Split.{weight, weights, split_notes_balanced-weights}
use juno_exchange_kit.Txplan.Sums.{
  value_of_note, too_large, sum_values_exact, sum_list-value_list, Small-value_list,
  spendable_loop-small,
}
use juno_exchange_kit.Txplan.Services.{Rpc, Scan, get_info}
use juno_exchange_kit.Txplan.Actions.{BlockCache, list_spendable_notes}
use juno_exchange_kit.Txplan.Prepare.{sweep}
use juno_exchange_kit.Txplan.Plan.{
  plan_sweep_with_notes, plan_chunks, plan_sweep_many, plan_sweep, services_of, clamp_spends,
  change_or_to,
}
use juno_exchange_kit.Txplan.Build.{
  finish_plan, attach_paths, witness_for, sum_values, value_list, position_list, plan_notes,
}
use juno_exchange_kit.Txplan.Prepare.{
  SendConfig, Context, TxPlan, TxOutput, SpendNote, TxPlanKind, prepare, with_defaults,
  resolve_coin_type, expiry_height_of,
}

-- What a plan pays to its outputs, as the amounts are printed.
unfoldable pub paid : List TxOutput → ℕ
paid [] = 0
paid (o ∷ os) = decimal_value o.amount_zat + paid os

-- What several plans pay, and their fees.
unfoldable pub moved : List (TxPlan × ℕ) → ℕ
moved [] = 0
moved ((plan, fee) ∷ rest) = paid plan.outputs + fee + moved rest

required_fee_send-below : (s o f : ℕ) → required_fee_send s o ≡ done f → f < word
unfolding required_fee_send
required_fee_send-below s o f h = ground arith

-- A plan has the outputs and the fee that it was finished with.
pub finish_plan_fields :
    (scan : Scan) (cfg : SendConfig) (ctx : Context) (kind : TxPlanKind) (positions : List ℕ)
    (planned : List SpendNote) (outputs : List TxOutput) (change : Text) (fee : ℕ) (plan : TxPlan)
    → finish_plan scan cfg ctx kind positions planned outputs change fee ≡ done plan
    → (plan.outputs ≡ outputs) × (plan.fee_zat ≡ format_uint fee)
unfolding finish_plan
finish_plan_fields scan cfg ctx kind positions planned outputs change fee plan h =
    let (wit, _, h') = >>=_done (witness_for scan positions) _ h in
    let (spends, _, h'') = >>=_done (attach_paths wit.paths planned) _ h' in
    (ground arith, ground arith)

-- One output that pays the total less the fee.
swept :
    (p plan : TxPlan) (f fee total all : ℕ) (to memo : Text)
    → p ≡ plan
    → f ≡ fee
    → p.outputs
      ≡ record { to_address = to; amount_zat = format_uint (total - f); memo_hex = memo } ∷ []
    → p.fee_zat ≡ format_uint f
    → total ≡ all
    → total < word
    → leb total f ≡ false
    → f < word
    → (paid plan.outputs + fee ≡ all) × (0 < paid plan.outputs) × (decimal_value plan.fee_zat ≡ fee)
unfolding paid
swept p plan f fee total all to memo same_plan same_fee outs fees exact below enough small =
    let pays : paid p.outputs ≡ total - f =
      ap paid outs ∙ omega (arith, decimal_value-format_uint (total - f) (omega arith)) in
    let stated : decimal_value p.fee_zat ≡ f =
      ap decimal_value fees ∙ decimal_value-format_uint f (omega arith) in
    rw (← same_plan, ← same_fee) (ground arith, ground arith, stated)

module _ (rpc : Rpc) (scan : Scan) (cfg : SendConfig) (ctx : Context) (to memo change : Text) where
  -- A sweep of notes whose values are uint64 pays out all that they hold, less the fee that it states
  -- and prints, and pays something.
  pub plan_sweep_with_notes_pays :
      (notes : List SpendableNote) (cache cache' : BlockCache) (plan : TxPlan) (fee : ℕ)
      → weight too_large notes ≡ 0
      → plan_sweep_with_notes rpc scan cfg ctx notes to memo change cache
        ≡ done ((plan, fee), cache')
      → (paid plan.outputs + fee ≡ weight value_of_note notes)
        × (0 < paid plan.outputs)
        × (decimal_value plan.fee_zat ≡ fee)
  unfolding plan_sweep_with_notes
  plan_sweep_with_notes_pays notes cache cache' plan fee small h =
      let (_, h1) = fail_if_done (length notes == 0) notes_required _ h in
      let (total, total_is, h2) =
        >>=_done (or_fail (sum_values 0 (value_list notes)) notes_sum_overflow) _ h1 in
      let (f, fee_is, h3) = >>=_done (required_fee_send (length notes) 1) _ h2 in
      let (enough, h4) = fail_if_done (leb total f) insufficient_funds _ h3 in
      let (planned, _, h5) = >>=_done (plan_notes rpc cache notes) _ h4 in
      let (p, p_is, h6) =
        >>=_done (finish_plan scan cfg ctx sweep (position_list notes) planned.0 _ change f) _ h5 in
      let (outs, fees) = finish_plan_fields scan cfg ctx sweep _ planned.0 _ change f p p_is in
      let (exact, below) =
        sum_values_exact 0 (value_list notes) total (omega arith) (Small-value_list notes small)
          (or_fail_done (sum_values 0 (value_list notes)) notes_sum_overflow total_is) in
      swept p plan f fee total (weight value_of_note notes) to memo (ground arith) (ground arith)
        outs fees (omega (arith, exact, sum_list-value_list notes)) below enough
        (required_fee_send-below (length notes) 1 f fee_is)

  plan_chunks_pays :
      (chunks : Chunks) (cache : BlockCache) (plans : List (TxPlan × ℕ))
      → weights too_large chunks ≡ 0
      → plan_chunks rpc scan cfg ctx to memo change chunks cache ≡ done plans
      → moved plans ≡ weights value_of_note chunks
  unfolding plan_chunks moved weights
  plan_chunks_pays [] cache plans small h = ground arith
  plan_chunks_pays (c ∷ cs) cache plans small h =
      let (((plan, fee), cache'), first_is, h1) =
        >>=_done (plan_sweep_with_notes rpc scan cfg ctx c to memo change cache) _ h in
      let (rest, rest_is, h2) =
        >>=_done (plan_chunks rpc scan cfg ctx to memo change cs cache') _ h1 in
      let (pays, _, _) =
        plan_sweep_with_notes_pays c cache cache' plan fee (omega arith) first_is in
      let more = plan_chunks_pays cs cache' rest (omega arith) rest_is in
      let same : (plan, fee) ∷ rest ≡ plans = ground arith in
      subst (λ l. moved l ≡ weights value_of_note (c ∷ cs)) same (omega arith)

-- What `prepare` lists are notes with values of 63 bits.
prepare-small :
    (rpc : Rpc) (scan : Scan) (cfg : SendConfig) (ctx : Context)
    → prepare rpc scan cfg ≡ done ctx
    → weight too_large ctx.notes ≡ 0
unfolding prepare list_spendable_notes
prepare-small rpc scan cfg ctx h =
    let (info, _, h1) = >>=_done (get_info rpc) _ h in
    let (coin_type, _, h2) = >>=_done (resolve_coin_type cfg.coin_type info.chain) _ h1 in
    let (expiry, _, h3) = >>=_done (expiry_height_of info.height cfg.expiry_offset) _ h2 in
    let (notes, listed, h4) =
      >>=_done (list_spendable_notes scan cfg.wallet info.height cfg.min_confirmations) _ h3 in
    let (raw, _, looped) =
      >>=_done (or_fail (scan.wallet_notes cfg.wallet) service_failed) _ listed in
    let (_, h5) = fail_if_done (length notes == 0) no_spendable_notes _ h4 in
    let same : notes ≡ ctx.notes = ground arith in
    subst (λ l. weight too_large l ≡ 0) same
      (spendable_loop-small info.height cfg.min_confirmations raw notes looped)

-- `PlanSweepMany` loses nothing: if it returns, its plans pay out, with their fees, exactly what the
-- notes hold that it found to be spendable.
pub plan_sweep_many_pays :
    (cfg : SendConfig) (to_address memo_hex change_address : Text) (max_spends : ℤ)
    (plans : List (TxPlan × ℕ))
    → plan_sweep_many cfg to_address memo_hex change_address max_spends ≡ done plans
    → (rpc : Rpc) × (scan : Scan) × (ctx : Context) × (services_of cfg ≡ done (rpc, scan))
      × (prepare rpc scan (with_defaults cfg) ≡ done ctx)
      × (moved plans ≡ weight value_of_note ctx.notes)
unfolding plan_sweep_many
plan_sweep_many_pays cfg to_address memo change max_spends plans h =
    let cfg' = with_defaults cfg in
    let to = trim_space to_address in
    let ((rpc, scan), services, h1) = >>=_done (services_of cfg) _ h in
    let (_, h2) = fail_if_done (is_empty cfg'.wallet) wallet_required _ h1 in
    let (_, h3) = fail_if_done (is_empty to) to_address_required _ h2 in
    let (ctx, prepared, h4) = >>=_done (prepare rpc scan cfg') _ h3 in
    let small = prepare-small rpc scan cfg' ctx prepared in
    let chunks = split_notes_balanced ctx.notes (pos (clamp_spends max_spends)) in
    let kept = split_notes_balanced-weights too_large ctx.notes (pos (clamp_spends max_spends)) in
    let values =
      split_notes_balanced-weights value_of_note ctx.notes (pos (clamp_spends max_spends)) in
    (
      rpc,
      scan,
      ctx,
      services,
      prepared,
      plan_chunks_pays rpc scan cfg' ctx to (trim_space memo) (change_or_to (trim_space change) to)
            chunks [] plans (kept ∙ small) h4
          ∙ values,
    )

abbrev pub PaysAll : List SpendableNote → TxPlan × ℕ → Type 0
PaysAll notes (plan, fee) =
    (paid plan.outputs + fee ≡ weight value_of_note notes)
    × (0 < paid plan.outputs)
    × (decimal_value plan.fee_zat ≡ fee)

-- The plan pays out what the notes hold that were found to be spendable, less the fee that it states.
abbrev pub SweepPays : SendConfig → TxPlan → ℕ → Type 0
SweepPays cfg plan fee =
    (rpc : Rpc) × (scan : Scan) × (ctx : Context) × (services_of cfg ≡ done (rpc, scan))
    × (prepare rpc scan (with_defaults cfg) ≡ done ctx)
    × PaysAll ctx.notes (plan, fee)

-- `PlanSweep` loses nothing: if it returns, its plan pays out exactly what the notes hold that it
-- found to be spendable, less the fee that it states, and pays something.
pub plan_sweep_pays :
    (cfg : SendConfig) (to_address memo_hex change_address : Text) (plan : TxPlan) (fee : ℕ)
    → plan_sweep cfg to_address memo_hex change_address ≡ done (plan, fee)
    → SweepPays cfg plan fee
unfolding plan_sweep
plan_sweep_pays cfg to_address memo change plan fee h =
    let cfg' = with_defaults cfg in
    let to = trim_space to_address in
    let ((rpc, scan), services, h1) = >>=_done (services_of cfg) _ h in
    let (_, h2) = fail_if_done (is_empty cfg'.wallet) wallet_required _ h1 in
    let (_, h3) = fail_if_done (is_empty to) to_address_required _ h2 in
    let (ctx, prepared, h4) = >>=_done (prepare rpc scan cfg') _ h3 in
    let (((p, f), cache), swept_is, h5) =
      >>=_done
        (plan_sweep_with_notes rpc scan cfg' ctx ctx.notes to (trim_space memo)
          (change_or_to (trim_space change) to) [])
        _ h4 in
    let same : (p, f) ≡ (plan, fee) = ground arith in
    let pays =
      plan_sweep_with_notes_pays rpc scan cfg' ctx to (trim_space memo)
        (change_or_to (trim_space change) to) ctx.notes [] cache p f
        (prepare-small rpc scan cfg' ctx prepared) swept_is in
    (rpc, scan, ctx, services, prepared, subst (PaysAll ctx.notes) same pays)
