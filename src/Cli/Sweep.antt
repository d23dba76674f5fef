-- ===== src/Cli/Sweep.antt =====
-- `sweep consolidate` and `sweep to-cold`: internal/cli/sweep.go. The children of this module are about
-- them.
pub mod Batch
pub mod All
use juno_exchange_kit.Base.{
  ℕ, ◌%◌, ◌||◌, Bool, true, false, Option, none, some, List, [], ◌∷◌, ◌++◌, map, if◌then◌else◌,
}
use juno_exchange_kit.Base.Int.{ℤ, pos, ltb_ℤ}
use juno_exchange_kit.Base.Word.{word32}
use juno_exchange_kit.Base.Text.{Text, codes, is_empty, trim_space}
use juno_exchange_kit.Store.Wallets.{next_internal_address}
use juno_exchange_kit.Txplan.Outcome.{Outcome, done, failed}
use juno_exchange_kit.Txplan.Plan.{plan_sweep_many}
use juno_exchange_kit.Txplan.Prepare.{SendConfig, TxPlan}
use juno_exchange_kit.Cli.Command.{
  World, Ended, returned, exited, Cmd, exit_if, or_exit, settle, from_store, report, ◌>>=◌, ◌>>◌,
  missing_config, keys_failed, sweep_plan_failed, broadcast_failed,
}
use juno_exchange_kit.Cli.Config.{
  Host, RpcFlags, ServicesFlags, Broadcaster, resolved_data_dir, txsign_bin,
}
use juno_exchange_kit.Cli.Command.{no_data_dir}
use juno_exchange_kit.Cli.Setup.{
  hot, cold, Services, connect, stored_hrp, stored_coin_type, stored_wallet,
}
use juno_exchange_kit.Cli.Signer.{TxsignResult, sign_tx_plan, signer_fee}
use juno_exchange_kit.Cli.Withdraw.{submit}

pub record SweepFlags : Type 0 where
  pub data_dir : Text
  pub rpc : RpcFlags
  pub services : ServicesFlags
  pub minconf : ℤ
  pub expiry_offset : ℕ
  pub wait_confirmations : ℤ
  pub txsign_bin : Text

-- `sweepDeps`
pub record SweepDeps : Type 0 where
  pub ua_hrp : Text
  pub coin_type : ℕ
  pub hot_wallet_ufvk : Text
  pub hot_seed_path : Text
  pub cold_wallet_ufvk : Text
  pub services : Services
  pub txsign_bin : Text

-- Every failure of `loadSweepDeps` is reported as a missing configuration.
abbrev pub as_missing : {A : Type 0} → Ended A × World → Ended A × World
as_missing (returned a, w) = (returned a, w)
as_missing (exited e, w) = (exited missing_config, w)

unfoldable pub load_deps : Host → SweepFlags → Text → Cmd SweepDeps
load_deps host flags dir = do
  exit_if (if host.opens dir then false else true) missing_config
  ua_hrp ← stored_hrp
  coin_type ← stored_coin_type
  hot_wallet ← stored_wallet hot missing_config
  cold_wallet ← stored_wallet cold missing_config
  services ← connect host flags.rpc flags.services
  report (record {
    ua_hrp = ua_hrp;
    coin_type = coin_type;
    hot_wallet_ufvk = trim_space hot_wallet.ufvk;
    hot_seed_path = trim_space hot_wallet.seed_path;
    cold_wallet_ufvk = trim_space cold_wallet.ufvk;
    services = services;
    txsign_bin = txsign_bin host flags.txsign_bin;
  })

-- `loadSweepDeps`
unfoldable pub load_sweep_deps : Host → SweepFlags → Text → Cmd SweepDeps
load_sweep_deps host flags dir w = as_missing (load_deps host flags dir w)

unfoldable pub sweep_config : SweepFlags → SweepDeps → SendConfig
sweep_config flags d = record {
  rpc = some d.services.rpc;
  scan = some d.services.scan;
  wallet = hot;
  coin_type = d.coin_type;
  account = 0;
  min_confirmations = flags.minconf;
  expiry_offset = flags.expiry_offset % word32;
}

unfoldable pub swept : Outcome (List (TxPlan × ℕ)) → Ended (List TxPlan)
swept (done plans) = returned (map (λ (p : TxPlan × ℕ). p.0) plans)
swept (failed e) = exited (sweep_plan_failed e)

-- The plans that move all notes of the hot wallet to an address.
unfoldable pub plans_to : SweepFlags → SweepDeps → Text → Ended (List TxPlan)
plans_to flags d to = swept (plan_sweep_many (sweep_config flags d) to [] to (pos 0))

-- A signed transaction and its fee.
abbrev pub Signed : Type 0
Signed = Text × ℤ

abbrev pub bind_ended : {A B : Type 0} → Ended A → (A → Ended B) → Ended B
bind_ended (returned a) f = f a
bind_ended (exited e) f = exited e

-- The first loop: every plan is signed.
unfoldable pub sign_all : Host → Text → Text → List TxPlan → Ended (List Signed)
sign_all host bin seed_path [] = returned []
sign_all host bin seed_path (p ∷ plans) = bind_ended (sign_tx_plan host bin seed_path p) λ signed.
    bind_ended (signer_fee signed) λ fee.
      bind_ended (sign_all host bin seed_path plans)
        λ rest. returned ((signed.raw_tx_hex, fee) ∷ rest)

-- The second loop: the transactions are sent, in order. The result has their ids and fees.
unfoldable pub submit_all : Broadcaster → List Signed → Cmd (List Signed)
submit_all b [] = report []
submit_all b ((raw, fee) ∷ signed) = do
  txid ← submit b raw
  rest ← submit_all b signed
  report ((txid, fee) ∷ rest)

wait_loop : Broadcaster → ℤ → List Signed → Ended (Unit {0})
wait_loop b n [] = returned tt
wait_loop b n ((txid, fee) ∷ sent) =
    let rest = wait_loop b n sent in if b.confirmed txid n then rest else exited broadcast_failed

-- The third loop: the command waits for each.
unfoldable pub wait_all : Broadcaster → ℤ → List Signed → Ended (Unit {0})
unfolding wait_loop
wait_all b n sent = if ltb_ℤ (pos 0) n then wait_loop b n sent else returned tt

-- From the plans on; the result is the list that the command prints.
unfoldable pub sweep_plans : Host → SweepFlags → SweepDeps → List TxPlan → Cmd (List Signed)
sweep_plans host flags d plans = do
  signed ← settle (sign_all host d.txsign_bin d.hot_seed_path plans)
  sent ← submit_all d.services.broadcaster signed
  settle (wait_all d.services.broadcaster flags.wait_confirmations sent)
  report sent

unfoldable pub run_sweep_consolidate : Host → SweepFlags → Cmd (List Signed)
run_sweep_consolidate host flags = do
  dir ← or_exit (resolved_data_dir host flags.data_dir) no_data_dir
  d ← load_sweep_deps host flags dir
  to ← from_store (
      next_internal_address hot
        (host.address_from_ufvk d.hot_wallet_ufvk d.ua_hrp (codes "internal")))
  plans ← settle (plans_to flags d to)
  sweep_plans host flags d plans

unfoldable pub run_sweep_to_cold : Host → SweepFlags → Cmd (List Signed)
run_sweep_to_cold host flags = do
  dir ← or_exit (resolved_data_dir host flags.data_dir) no_data_dir
  d ← load_sweep_deps host flags dir
  to ← or_exit (host.address_from_ufvk d.cold_wallet_ufvk d.ua_hrp (codes "external") 0) keys_failed
  plans ← settle (plans_to flags d to)
  sweep_plans host flags d plans
