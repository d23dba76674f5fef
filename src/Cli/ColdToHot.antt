-- ===== src/Cli/ColdToHot.antt =====
-- The three steps that move funds from the cold wallet to the hot one: internal/cli/cold_to_hot.go. The
-- children of this module are about them.
pub mod Limit
pub mod Handoff
use juno_exchange_kit.Base.{
  ℕ, ◌%◌, ◌||◌, ◌&&◌, ◌==◌, Bool, true, false, not, Option, none, some, List, [], ◌∷◌, ◌++◌, length,
  ltb, take, if◌then◌else◌,
}
use juno_exchange_kit.Base.Int.{ℤ, pos, pos_part, ltb_ℤ}
use juno_exchange_kit.Base.Word.{word32, max_int64, of_word, add_int64, sub_int64}
use juno_exchange_kit.Base.Text.{Text, codes, is_empty, eq_text, trim_space}
use juno_exchange_kit.Base.Decimal.{parse_uint}
use juno_exchange_kit.Base.Table.{sort_by}
use juno_exchange_kit.Store.Schema.{Db, WalletRow}
use juno_exchange_kit.Store.Exec.{Exec, Result, ok, err}
use juno_exchange_kit.Store.Wallets.{meta, wallet, next_internal_address}
use juno_exchange_kit.Txplan.Outcome.{Outcome, done, failed, no_spendable_notes, insufficient_funds}
use juno_exchange_kit.Txplan.Notes.{required_fee_send}
use juno_exchange_kit.Txplan.Services.{WalletNote, Scan, Rpc, ChainResponse}
use juno_exchange_kit.Txplan.Actions.{confirmations, has_position}
use juno_exchange_kit.Txplan.Plan.{plan_rebalance}
use juno_exchange_kit.Txplan.Prepare.{Output, SendConfig, TxPlan}
use juno_exchange_kit.Cli.Command.{
  World, Ended, returned, exited, Cmd, Failure, exit_if, or_exit, settle, from_store, report, ◌>>=◌,
  ◌>>◌, amount_required, amount_not_positive, not_initialized, coin_type_missing, invalid_coin_type,
  hot_wallet_missing, cold_wallet_missing, scan_url_required, broadcast_url_required,
  no_liquidity_in_cold, plan_failed, txplan_required, invalid_txplan, io_failed, raw_required,
  source_conflict,
}
use juno_exchange_kit.Cli.Config.{
  Host, RpcFlags, ServicesFlags, Broadcaster, resolved, resolved_scan_url, resolved_broadcast_url,
  open_data_dir, txsign_bin,
}
use juno_exchange_kit.Cli.Setup.{hot, cold, client_of, parse_coin_type}
use juno_exchange_kit.Cli.Seeds.{read_file, write_file}
use juno_exchange_kit.Cli.Signer.{TxsignResult, sign_tx_plan}
use juno_exchange_kit.Cli.Withdraw.{submit, await}

pub record PlanFlags : Type 0 where
  pub data_dir : Text
  pub rpc : RpcFlags
  pub services : ServicesFlags
  pub amount_zat : Text
  pub out : Text
  pub minconf : ℤ
  pub expiry_offset : ℕ

-- A lookup whose error and whose missing row are the same failure.
abbrev pub found_or : {A : Type 0} → Result (Option A) × Db → Failure → World → Ended A × World
found_or (ok (some a), db) e w = (returned a, record w { db = db })
found_or (ok none, db) e w = (exited e, record w { db = db })
found_or (err x, db) e w = (exited e, record w { db = db })

abbrev pub lookup_or : {A : Type 0} → Exec (Option A) → Failure → Cmd A
lookup_or m e w = found_or (m w.db) e w

unfoldable pub parse_positive : Text → Ended ℕ
parse_positive s = elim (parse_uint 18446744073709551615 s) [
  | none ↦ exited amount_not_positive
  | some n ↦ if n == 0 then exited amount_not_positive else returned n
]

-- A note that the loop of `coldMaxSendable` takes.
unfoldable pub is_sendable : ℤ → ℤ → WalletNote → Bool
is_sendable tip minconf n =
    has_position n
    && not (ltb_ℤ n.height (pos 0) || ltb_ℤ tip n.height)
    && not (ltb_ℤ (pos 0) minconf && ltb_ℤ (confirmations tip n) minconf)
    && not (ltb_ℤ n.action_index (pos 0))
    && ltb_ℤ (pos 0) n.value_zat

unfoldable pub sendable_values : ℤ → ℤ → List WalletNote → List ℤ
sendable_values tip minconf [] = []
sendable_values tip minconf (n ∷ ns) =
    let rest = sendable_values tip minconf ns in
    if is_sendable tip minconf n then n.value_zat ∷ rest else rest

-- The 200 largest values, the largest first.
unfoldable pub largest_values : List ℤ → List ℤ
largest_values values = take 200 (sort_by (λ a b. ltb_ℤ b a) values)

-- The sum, unless it overflows.
unfoldable pub sum_checked : ℤ → List ℤ → Option ℤ
sum_checked total [] = some total
sum_checked total (v ∷ vs) =
    let rest = sum_checked (add_int64 total v) vs in
    if ltb_ℤ (pos 0) v && ltb_ℤ (sub_int64 (pos max_int64) total) v then none else rest

-- What `coldMaxSendable` returns.
pub record MaxSendable : Type 0 where
  pub max_amount_zat : ℤ
  pub spendable_zat : ℤ
  pub spendable_notes : ℕ

abbrev pub nothing_sendable : MaxSendable
nothing_sendable = record { max_amount_zat = pos 0; spendable_zat = pos 0; spendable_notes = 0 }

-- From the sum and the fee of `count` notes and one output on.
unfoldable pub max_of_sum : ℕ → Option ℤ → Outcome ℕ → MaxSendable
max_of_sum count none fee = nothing_sendable
max_of_sum count (some total) (failed e) = nothing_sendable
max_of_sum count (some total) (done fee) =
    if ltb_ℤ total (pos 0) || ltb max_int64 fee then nothing_sendable else record {
      max_amount_zat = if ltb_ℤ (pos fee) total then sub_int64 total (pos fee) else pos 0;
      spendable_zat = total;
      spendable_notes = count;
    }

unfoldable pub max_of_values : List ℤ → MaxSendable
max_of_values values =
    max_of_sum (length values) (sum_checked (pos 0) values) (required_fee_send (length values) 1)

unfoldable pub max_of_notes : ℤ → ℤ → Option (List WalletNote) → MaxSendable
max_of_notes tip minconf none = nothing_sendable
max_of_notes tip minconf (some raw) =
    max_of_values
      (largest_values (sendable_values tip (if ltb_ℤ minconf (pos 0) then pos 0 else minconf) raw))

-- `coldMaxSendable`
unfoldable pub cold_max_sendable : Rpc → Scan → ℤ → MaxSendable
cold_max_sendable rpc scan minconf = elim rpc.blockchain_info [
  | none ↦ nothing_sendable
  | some info ↦
      if ltb_ℤ info.blocks (pos 0)
      then nothing_sendable
      else max_of_notes info.blocks minconf (scan.wallet_notes cold)
]

abbrev pub lacks_notes : ℕ → MaxSendable → Failure
lacks_notes amount m =
    no_liquidity_in_cold (of_word amount) m.max_amount_zat m.spendable_zat m.spendable_notes

-- The error of `PlanRebalance`: the planner codes two as a lack of liquidity.
unfoldable pub rebalanced : {A : Type 0} → ℕ → MaxSendable → Outcome A → Ended A
rebalanced amount m (done a) = returned a
rebalanced amount m (failed no_spendable_notes) = exited (lacks_notes amount m)
rebalanced amount m (failed insufficient_funds) = exited (lacks_notes amount m)
rebalanced amount m (failed e) = exited (plan_failed e)

-- What the planner is given: the services, the wallets, the prefix and the coin type.
pub record PlanInput : Type 0 where
  pub ua_hrp : Text
  pub coin_type : ℕ
  pub hot_wallet : WalletRow
  pub cold_wallet : WalletRow
  pub rpc : Rpc
  pub scan : Scan

unfoldable pub plan_input : Host → PlanFlags → Cmd PlanInput
plan_input host flags =
    let scan_url = resolved_scan_url host flags.services in
    do
      ua_hrp ← lookup_or (meta (codes "ua_hrp")) not_initialized
      exit_if (is_empty (trim_space ua_hrp)) not_initialized
      text ← lookup_or (meta (codes "coin_type")) coin_type_missing
      coin_type ← or_exit (parse_coin_type text) invalid_coin_type
      hot_wallet ← lookup_or (wallet hot) hot_wallet_missing
      cold_wallet ← lookup_or (wallet cold) cold_wallet_missing
      login ← settle (resolved host flags.rpc)
      exit_if (is_empty scan_url) scan_url_required
      scan ← settle (client_of (host.scan_client scan_url))
      report (record {
        ua_hrp = ua_hrp;
        coin_type = coin_type;
        hot_wallet = hot_wallet;
        cold_wallet = cold_wallet;
        rpc = host.rpc_client login.0 login.1 login.2;
        scan = scan;
      })

unfoldable pub rebalance_config : PlanFlags → PlanInput → SendConfig
rebalance_config flags p = record {
  rpc = some p.rpc;
  scan = some p.scan;
  wallet = cold;
  coin_type = p.coin_type;
  account = 0;
  min_confirmations = flags.minconf;
  expiry_offset = flags.expiry_offset % word32;
}

-- A file is written if a path is given.
unfoldable pub write_out : Host → Text → Text → Cmd (Unit {0})
write_out host path content =
    if is_empty path then report tt else write_file host path (content ++ 10 ∷ [])

-- `runColdToHotPlan`: the funds and the change go to fresh internal addresses of the two wallets.
unfoldable pub run_cold_to_hot_plan : Host → PlanFlags → Cmd TxPlan
run_cold_to_hot_plan host flags =
    let amount_text = trim_space flags.amount_zat in
    do
      exit_if (is_empty amount_text) amount_required
      amount ← settle (parse_positive amount_text)
      _ ← settle (open_data_dir host flags.data_dir)
      p ← plan_input host flags
      to ← from_store (
          next_internal_address hot
            (host.address_from_ufvk p.hot_wallet.ufvk p.ua_hrp (codes "internal")))
      change ← from_store (
          next_internal_address cold
            (host.address_from_ufvk p.cold_wallet.ufvk p.ua_hrp (codes "internal")))
      plan ← settle (
          rebalanced amount (cold_max_sendable p.rpc p.scan flags.minconf) (
            plan_rebalance (rebalance_config flags p)
              (record { to_address = to; amount_zat = amount; memo_hex = [] } ∷ []) change))
      write_out host flags.out (host.plan_json plan.0)
      report plan.0

pub record SignFlags : Type 0 where
  pub data_dir : Text
  pub txplan : Text
  pub out : Text
  pub txsign_bin : Text

-- `loadTxPlan`
unfoldable pub load_tx_plan : Host → Text → Cmd TxPlan
load_tx_plan host path w =
    if eq_text path (codes "-")
    then or_exit (host.decode_plan host.stdin) invalid_txplan w
    else (or_exit (read_file path w.files) io_failed >>= λ content.
          or_exit (host.decode_plan content) invalid_txplan)
        w

-- `runColdToHotSign`
unfoldable pub run_cold_to_hot_sign : Host → SignFlags → Cmd TxsignResult
run_cold_to_hot_sign host flags =
    let path = trim_space flags.txplan in
    do
      exit_if (is_empty path) txplan_required
      _ ← settle (open_data_dir host flags.data_dir)
      cold_wallet ← lookup_or (wallet cold) cold_wallet_missing
      plan ← load_tx_plan host path
      signed ←
          settle (sign_tx_plan host (txsign_bin host flags.txsign_bin) cold_wallet.seed_path plan)
      write_out host flags.out signed.raw_tx_hex
      report signed

pub record BroadcastFlags : Type 0 where
  pub services : ServicesFlags
  pub raw_tx_hex : Text
  pub raw_tx_file : Text
  pub wait_confirmations : ℤ

-- `loadHexInput`: exactly one of the two sources.
unfoldable pub load_hex_input : Text → Text → Cmd Text
load_hex_input raw_hex raw_file w =
    if is_empty (trim_space raw_hex) && is_empty (trim_space raw_file)
    then (exited raw_required, w)
    else if not (is_empty (trim_space raw_hex)) && not (is_empty (trim_space raw_file))
    then (exited source_conflict, w)
    else if not (is_empty (trim_space raw_hex))
    then (returned (trim_space raw_hex), w)
    else (or_exit (read_file (trim_space raw_file) w.files) io_failed >>= λ content.
          report (trim_space content))
        w

-- `runColdToHotBroadcast`
unfoldable pub run_cold_to_hot_broadcast : Host → BroadcastFlags → Cmd Text
run_cold_to_hot_broadcast host flags =
    let url = resolved_broadcast_url host flags.services in
    do
      raw ← load_hex_input flags.raw_tx_hex flags.raw_tx_file
      exit_if (is_empty url) broadcast_url_required
      b ← settle (client_of (host.broadcast_client url))
      txid ← submit b raw
      settle (await b txid flags.wait_confirmations)
      report txid
