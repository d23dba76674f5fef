-- ===== src/Cli/Withdraw.antt =====
-- `runWithdraw` of internal/cli/withdraw.go. The children of this module are about it.
pub mod Sent
pub mod Plans
pub mod Pays
pub mod Kept
pub mod Offer
use juno_exchange_kit.Base.{
  ℕ, ◌%◌, ◌||◌, ◌&&◌, ◌==◌, Bool, true, false, not, Option, none, some, List, [], ◌∷◌, ◌++◌, ltb,
  if◌then◌else◌,
}
use juno_exchange_kit.Base.Int.{ℤ, pos, ltb_ℤ}
use juno_exchange_kit.Base.Word.{word, word32, max_int64, of_word, add_int64, sub_int64}
use juno_exchange_kit.Base.Text.{Text, codes, is_empty, trim_space}
use juno_exchange_kit.Base.Decimal.{parse_uint}
use juno_exchange_kit.Store.Schema.{WalletRow}
use juno_exchange_kit.Store.Accounts.{account_balance}
use juno_exchange_kit.Store.Wallets.{next_internal_address}
use juno_exchange_kit.Store.Withdrawals.{Payment, create_withdrawal_and_debit}
use juno_exchange_kit.Txplan.Outcome.{
  Outcome, done, failed, PlanError, no_spendable_notes, insufficient_funds,
}
use juno_exchange_kit.Txplan.Plan.{plan_withdrawal}
use juno_exchange_kit.Txplan.Prepare.{Output, SendConfig, TxPlan}
use juno_exchange_kit.Cli.Command.{
  World, Ended, returned, exited, Cmd, exit_if, or_exit, settle, from_store, report, ◌>>=◌, ◌>>◌,
  arguments_required, amount_not_positive, amount_too_large, amount_overflow, hot_wallet_missing,
  no_liquidity_in_hot, plan_failed, insufficient_balance, insufficient_for_fee, broadcast_failed,
  confirm_wait_failed,
}
use juno_exchange_kit.Cli.Config.{
  Host, RpcFlags, ServicesFlags, Broadcaster, open_data_dir, txsign_bin,
}
use juno_exchange_kit.Cli.Setup.{
  hot, Services, connect, stored_hrp, stored_coin_type, stored_wallet,
}
use juno_exchange_kit.Cli.Signer.{TxsignResult, sign_tx_plan, signer_fee}

-- What package flag makes of the command line.
pub record WithdrawFlags : Type 0 where
  pub data_dir : Text
  pub rpc : RpcFlags
  pub services : ServicesFlags
  pub account : Text
  pub to : Text
  pub amount_zat : Text
  pub minconf : ℤ
  pub expiry_offset : ℕ
  pub wait_confirmations : ℤ
  pub txsign_bin : Text

-- The arguments, checked.
pub record Request : Type 0 where
  pub account_id : Text
  pub to : Text
  pub amount : ℕ

-- The amount: a decimal of 64 bits, above 0 and within an int64.
unfoldable pub parse_amount : Text → Ended ℕ
parse_amount s = elim (parse_uint 18446744073709551615 s) [
  | none ↦ exited amount_not_positive
  | some n ↦
      if n == 0
      then exited amount_not_positive
      else if ltb max_int64 n
      then exited amount_too_large
      else returned n
]

unfoldable pub parse_request : WithdrawFlags → Cmd Request
parse_request flags =
    let account_id = trim_space flags.account in
    let to = trim_space flags.to in
    let text = trim_space flags.amount_zat in
    do
      exit_if (is_empty account_id || is_empty to || is_empty text) arguments_required
      amount ← settle (parse_amount text)
      report (record { account_id = account_id; to = to; amount = amount })

-- What is known once the arguments, the store and the services are.
pub record Prepared : Type 0 where
  pub ua_hrp : Text
  pub coin_type : ℕ
  pub hot_wallet : WalletRow
  pub balance : ℤ
  pub services : Services

unfoldable pub prepare_withdraw : Host → WithdrawFlags → Request → Cmd Prepared
prepare_withdraw host flags r = do
  ua_hrp ← stored_hrp
  coin_type ← stored_coin_type
  hot_wallet ← stored_wallet hot hot_wallet_missing
  balance ← from_store (account_balance r.account_id)
  exit_if (ltb_ℤ balance (pos r.amount)) (insufficient_balance balance (pos r.amount))
  services ← connect host flags.rpc flags.services
  report (record {
    ua_hrp = ua_hrp;
    coin_type = coin_type;
    hot_wallet = hot_wallet;
    balance = balance;
    services = services;
  })

-- What the command makes of an error of `PlanWithdrawal`: the planner codes two as a lack of liquidity.
unfoldable pub planned : {A : Type 0} → Outcome A → Ended A
planned (done a) = returned a
planned (failed no_spendable_notes) = exited no_liquidity_in_hot
planned (failed insufficient_funds) = exited no_liquidity_in_hot
planned (failed e) = exited (plan_failed e)

unfoldable pub withdraw_config : WithdrawFlags → Prepared → SendConfig
withdraw_config flags p = record {
  rpc = some p.services.rpc;
  scan = some p.services.scan;
  wallet = hot;
  coin_type = p.coin_type;
  account = 0;
  min_confirmations = flags.minconf;
  expiry_offset = flags.expiry_offset % word32;
}

abbrev pub single_output : Request → List Output
single_output r = record { to_address = r.to; amount_zat = r.amount; memo_hex = [] } ∷ []

-- The change goes to the next internal address of the hot wallet.
unfoldable pub plan_payment : Host → WithdrawFlags → Request → Prepared → Cmd (TxPlan × ℕ)
plan_payment host flags r p = do
  change ← from_store (
      next_internal_address hot
        (host.address_from_ufvk p.hot_wallet.ufvk p.ua_hrp (codes "internal")))
  settle (planned (plan_withdrawal (withdraw_config flags p) (single_output r) change))

-- The largest amount that the message offers: what is left of the balance after the fee.
unfoldable pub max_amount : ℤ → ℤ → ℤ
max_amount balance fee =
    if ltb_ℤ (pos 0) balance && ltb_ℤ fee balance then sub_int64 balance fee else pos 0

-- The test of the amount with the planned fee, a uint64, against the balance.
unfoldable pub check_total : ℤ → ℕ → ℕ → Ended (Unit {0})
check_total balance amount fee =
    let total = add_int64 (pos amount) (of_word fee) in
    if ltb_ℤ total (pos amount)
    then exited amount_overflow
    else if ltb_ℤ balance total
    then exited
        (insufficient_for_fee balance (pos amount) (of_word fee) (max_amount balance (of_word fee)))
    else returned tt

-- `Submit`: a transaction that the broadcaster accepts is out.
unfoldable pub answered : Text → World → Option Text → Ended Text × World
answered raw w none = (exited broadcast_failed, w)
answered raw w (some txid) = (returned txid, record w { submitted = w.submitted ++ raw ∷ [] })

unfoldable pub submit : Broadcaster → Text → Cmd Text
submit b raw w = answered raw w (b.submit w.submitted raw)

unfoldable pub await : Broadcaster → Text → ℤ → Ended (Unit {0})
await b txid n =
    if ltb_ℤ (pos 0) n
    then (if b.confirmed txid n then returned tt else exited confirm_wait_failed)
    else returned tt

-- What the command prints.
pub record Withdrawn : Type 0 where
  pub txid : Text
  pub fee : ℤ

abbrev pub payment_of : Request → ℤ → Text → Payment
payment_of r fee txid = record {
  account_id = r.account_id;
  wallet_id = hot;
  to_address = r.to;
  amount_zat = pos r.amount;
  fee_zat = fee;
  txid = txid;
}

-- From a signed transaction on: it is sent, the account is debited, and the command waits.
unfoldable pub send_signed :
    Host → WithdrawFlags → Request → Broadcaster → TxsignResult → ℤ → Cmd Withdrawn
send_signed host flags r b signed fee = do
  txid ← submit b signed.raw_tx_hex
  _ ← from_store (create_withdrawal_and_debit (payment_of r fee txid) host.random host.now)
  settle (await b txid flags.wait_confirmations)
  report (record { txid = txid; fee = fee })

-- From the plan on: it is checked against the balance and signed.
unfoldable pub pay : Host → WithdrawFlags → Request → Prepared → TxPlan × ℕ → Cmd Withdrawn
pay host flags r p plan = do
  settle (check_total p.balance r.amount plan.1)
  signed ←
      settle (sign_tx_plan host (txsign_bin host flags.txsign_bin) p.hot_wallet.seed_path plan.0)
  fee ← settle (signer_fee signed)
  send_signed host flags r p.services.broadcaster signed fee

unfoldable pub run_withdraw : Host → WithdrawFlags → Cmd Withdrawn
run_withdraw host flags = do
  r ← parse_request flags
  _ ← settle (open_data_dir host flags.data_dir)
  p ← prepare_withdraw host flags r
  plan ← plan_payment host flags r p
  pay host flags r p plan
