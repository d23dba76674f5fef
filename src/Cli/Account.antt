-- ===== src/Cli/Account.antt =====
-- The `account` commands: internal/cli/account.go. The child of this module is about the wait for a deposit.
pub mod Wait
use juno_exchange_kit.Base.{
  ℕ, zero, suc, ◌&&◌, ◌||◌, ◌==◌, Bool, true, false, not, Option, none, some, List, [], ◌∷◌, ◌++◌,
  length, ltb, if◌then◌else◌,
}
use juno_exchange_kit.Base.Int.{ℤ, pos, ltb_ℤ, ◌-ℤ◌, ◌*ℤ◌}
use juno_exchange_kit.Base.Word.{max_int64, add_int64, sub_int64}
use juno_exchange_kit.Base.Text.{Text, codes, is_empty, eq_text, trim_space}
use juno_exchange_kit.Base.Decimal.{parse_uint, format_uint}
use juno_exchange_kit.Store.Schema.{
  DepositStatus, detected, confirmed, unconfirmed, orphaned, other_status, DepositRow,
}
use juno_exchange_kit.Store.Exec.{Exec, Result, ok, err, no_rows}
use juno_exchange_kit.Store.Accounts.{
  create_account, account_balance, AccountSummary, list_accounts,
}
use juno_exchange_kit.Store.Addresses.{get_or_assign_deposit_address}
use juno_exchange_kit.Store.DepositQueries.{
  DepositsSummary, pending_deposits_summary, list_account_deposits_since,
}
use juno_exchange_kit.Txplan.Services.{Rpc, ChainResponse}
use juno_exchange_kit.Cli.Command.{
  World, Ended, returned, exited, Cmd, Failure, exit_if, or_exit, settle, from_store, report, ◌>>=◌,
  ◌>>◌, store_failed, account_id_missing, account_missing, timeout_not_positive, poll_not_positive,
  negative_lookback, deposit_timeout, min_balance_not_integer, min_balance_too_large,
  unexpected_argument, hot_wallet_missing, scan_url_required,
}
use juno_exchange_kit.Cli.Config.{
  Host, RpcFlags, ServicesFlags, resolved, resolved_scan_url, open_data_dir,
}
use juno_exchange_kit.Cli.Setup.{hot, stored_hrp, stored_wallet, client_of}
use juno_exchange_kit.Cli.Sync.{Scanner, sync_wallet}
use juno_exchange_kit.Cli.Juno.{format_juno, human_ago}

-- `runAccountCreate`
unfoldable pub run_account_create : Host → Text → Cmd Text
run_account_create host data_dir = do
  _ ← settle (open_data_dir host data_dir)
  from_store (create_account host.random host.now)

-- The one positional argument of a command.
unfoldable pub single_argument : List Text → Ended Text
single_argument (a ∷ []) = returned a
single_argument _ = exited account_id_missing

-- `runAccountDepositAddress`
unfoldable pub run_account_deposit_address : Host → Text → List Text → Cmd Text
run_account_deposit_address host data_dir args = do
  account_id ← settle (single_argument args)
  _ ← settle (open_data_dir host data_dir)
  ua_hrp ← stored_hrp
  w ← stored_wallet hot hot_wallet_missing
  from_store (
      get_or_assign_deposit_address account_id hot
        (host.address_from_ufvk w.ufvk ua_hrp (codes "external")) host.now)

-- An account that is not there has its own message.
abbrev pub balance_failure : Failure → Failure
balance_failure (store_failed no_rows) = account_missing
balance_failure e = e

abbrev pub with_failure : {A : Type 0} → (Failure → Failure) → Ended A × World → Ended A × World
with_failure f (returned a, w) = (returned a, w)
with_failure f (exited e, w) = (exited (f e), w)

unfoldable pub known_balance : Text → Cmd ℤ
known_balance account_id w =
    with_failure balance_failure (from_store (account_balance account_id) w)

-- `runAccountBalance`; the JSON output has the pending deposits as well.
unfoldable pub run_account_balance :
    Host → Text → Bool → List Text → Cmd (ℤ × Option DepositsSummary)
run_account_balance host data_dir json args = do
  arg ← settle (single_argument args)
  _ ← settle (open_data_dir host data_dir)
  balance ← known_balance (trim_space arg)
  if json
      then (do
        pending ← from_store (pending_deposits_summary (some (trim_space arg)))
        report (balance, some pending))
      else report (balance, none)

-- A minimum that is given: a decimal within an int64.
unfoldable pub parse_minimum : Text → Ended ℤ
parse_minimum s = elim (parse_uint 18446744073709551615 (trim_space s)) [
  | none ↦ exited min_balance_not_integer
  | some n ↦ if ltb max_int64 n then exited min_balance_too_large else returned (pos n)
]

-- The balance to wait for: the minimum, or one more than now.
unfoldable pub target_balance : Text → ℤ → Ended ℤ
target_balance minimum start =
    let more = add_int64 start (pos 1) in
    if is_empty minimum
    then returned (if ltb_ℤ more (pos 0) then add_int64 start (pos 1) else more)
    else parse_minimum minimum

unfoldable pub status_text : DepositStatus → Text
status_text detected = codes "detected"
status_text confirmed = codes "confirmed"
status_text unconfirmed = codes "unconfirmed"
status_text orphaned = codes "orphaned"
status_text (other_status s) = s

-- The statuses that were printed, by the deposit's key.
abbrev pub Seen : Type 0
Seen = List (Text × Text)

unfoldable pub seen_status : Text → Seen → Text
seen_status key [] = []
seen_status key ((k, s) ∷ seen) = if eq_text k key then s else seen_status key seen

unfoldable pub deposit_key : DepositRow → Text
deposit_key r = r.wallet_id ++ (codes ":" ++ (r.txid ++ (codes ":" ++ format_uint r.action_index)))

-- The confirmations at a tip, where the tip is known and not below the deposit.
unfoldable pub confirmations_text : ℤ → ℤ → Text
confirmations_text tip height =
    if ltb_ℤ (pos 0) tip && ltb_ℤ (pos 0) height && not (ltb_ℤ tip height)
    then codes " conf=" ++ format_uint (nonneg (add_int64 (sub_int64 tip height) (pos 1)))
    else []
  where
    nonneg : ℤ → ℕ
    nonneg (pos n) = n
    nonneg _ = 0

unfoldable pub update_line : DepositStatus → Text → List Text
update_line detected text = (codes "NEW_PENDING_DEPOSIT " ++ text) ∷ []
update_line unconfirmed text = (codes "NEW_PENDING_DEPOSIT " ++ text) ∷ []
update_line confirmed text = (codes "NEW_CONFIRMED_DEPOSIT " ++ text) ∷ []
update_line orphaned text = (codes "DEPOSIT_ORPHANED " ++ text) ∷ []
update_line (other_status s) text = []

-- The loop of `printDepositUpdates`: the lines, and what was seen then. Times are in seconds.
unfoldable pub print_updates : ℤ → ℤ → List DepositRow → Seen → List Text × Seen
print_updates now tip [] seen = ([], seen)
print_updates now tip (r ∷ rows) seen =
    let key = deposit_key r in
    let same = eq_text (seen_status key seen) (status_text r.status) in
    let (lines, seen') =
      print_updates now tip rows (if same then seen else (key, status_text r.status) ∷ seen) in
    let text =
      format_juno r.amount_zat
      ++ (codes " JUNO"
          ++ (confirmations_text tip r.height
              ++ (codes " " ++ human_ago ((now -ℤ r.updated_at) *ℤ pos 1000000000)))) in
    if same then (lines, seen') else (update_line r.status text ++ lines, seen')

abbrev pub updates_of :
    {A : Type 0} → ℤ → ℤ → Result (List DepositRow) × A → Seen → List Text × Seen
updates_of now tip (ok rows, db) seen = print_updates now tip rows seen
updates_of now tip (err e, db) seen = ([], seen)

-- `printDepositUpdates`; an error prints nothing, and no lines go with JSON.
unfoldable pub print_deposit_updates : Bool → ℤ → ℤ → Text → ℤ → Seen → World → List Text × Seen
print_deposit_updates json now tip account_id since seen w =
    if json
    then ([], seen)
    else updates_of now tip (list_account_deposits_since account_id since (pos 500) w.db) seen

unfoldable pub tip_of : Option Rpc → ℤ
tip_of none = pos 0
tip_of (some rpc) = elim rpc.blockchain_info [ none ↦ pos 0 | some info ↦ info.blocks ]

pub record WaitFlags : Type 0 where
  pub data_dir : Text
  pub json : Bool
  pub rpc : RpcFlags
  pub services : ServicesFlags
  pub timeout : ℤ
  pub poll : ℤ
  pub min_balance : Text
  pub lookback : ℤ

-- What does not change in the loop. The fuel is that of `syncWallet`.
pub record Waiting : Type 0 where
  pub json : Bool
  pub account_id : Text
  pub target : ℤ
  pub since : ℤ
  pub now : ℤ
  pub rpc : Option Rpc
  -- The scanner in every round, by the rounds that are left.
  pub scanners : ℕ → Scanner
  pub fuel : ℕ

-- The balance that was reached, and the lines that were printed on the way.
abbrev pub Waited : Type 0
Waited = ℤ × List Text

-- `syncWallet`, whose outcome the loop drops.
unfoldable pub sync_hot : Waiting → ℕ → Cmd (Unit {0})
sync_hot c rounds w =
    (returned tt, record w { db = (sync_wallet (c.scanners rounds) hot c.now c.fuel w.db).1 })

-- The loop of `runAccountWaitDeposit`; the rounds are the polls before the timeout.
unfoldable pub wait_loop : Waiting → ℕ → Seen → List Text → Cmd Waited
wait_loop c zero seen lines = λ w. (exited deposit_timeout, w)
wait_loop c (suc rounds) seen lines = do
  balance ← from_store (account_balance c.account_id)
  if not (ltb_ℤ balance c.target)
      then report (balance, lines)
      else (sync_hot c rounds >> λ w.
          (let (more, seen') =
              print_deposit_updates c.json c.now (tip_of c.rpc) c.account_id c.since seen w in
            wait_loop c rounds seen' (lines ++ more) w))

abbrev pub rpc_if_set : Host → Ended (Text × Text × Text) → Option Rpc
rpc_if_set host (returned (url, user, pass)) = some (host.rpc_client url user pass)
rpc_if_set host (exited e) = none

-- `runAccountWaitDeposit`
unfoldable pub run_account_wait_deposit :
    Host → (ℕ → Scanner) → ℕ → ℕ → WaitFlags → List Text → Cmd Waited
run_account_wait_deposit host scanners fuel rounds flags args = do
  arg ← settle (single_argument args)
  let account_id = trim_space arg
  exit_if (not (ltb_ℤ (pos 0) flags.timeout)) timeout_not_positive
  exit_if (not (ltb_ℤ (pos 0) flags.poll)) poll_not_positive
  exit_if (ltb_ℤ flags.lookback (pos 0)) negative_lookback
  _ ← settle (open_data_dir host flags.data_dir)
  exit_if (is_empty (resolved_scan_url host flags.services)) scan_url_required
  _ ← settle (client_of (host.scan_client (resolved_scan_url host flags.services)))
  start ← known_balance account_id
  target ← settle (target_balance flags.min_balance start)
  wait_loop
      (record {
        json = flags.json;
        account_id = account_id;
        target = target;
        since = host.now -ℤ flags.lookback;
        now = host.now;
        rpc = rpc_if_set host (resolved host flags.rpc);
        scanners = scanners;
        fuel = fuel;
      })
      rounds [] []

pub record ListFlags : Type 0 where
  pub data_dir : Text
  pub limit : ℤ
  pub offset : ℤ
  pub min_balance : Text

unfoldable pub optional_minimum : Text → Ended (Option ℤ)
optional_minimum s =
    if is_empty (trim_space s) then returned none else some_minimum (parse_minimum s)
  where
    some_minimum : Ended ℤ → Ended (Option ℤ)
    some_minimum (returned n) = returned (some n)
    some_minimum (exited e) = exited e

-- `runAccountList`
unfoldable pub run_account_list : Host → ListFlags → List Text → Cmd (List AccountSummary)
run_account_list host flags args = do
  exit_if (ltb 0 (length args)) unexpected_argument
  _ ← settle (open_data_dir host flags.data_dir)
  minimum ← settle (optional_minimum flags.min_balance)
  from_store (list_accounts flags.limit flags.offset minimum)
