-- ===== src/Cli/Signer.antt =====
-- `signTxPlan` of internal/cli/txsign.go, and the fee that the commands read of its result.
use juno_exchange_kit.Base.{◌||◌, none, some, if◌then◌else◌}
use juno_exchange_kit.Base.Int.{ℤ, pos, ltb_ℤ}
use juno_exchange_kit.Base.Text.{Text, codes, is_empty, eq_text, trim_space, to_lower}
use juno_exchange_kit.Base.Decimal.{parse_int64}
use juno_exchange_kit.Base.{not}
use juno_exchange_kit.Txplan.Prepare.{TxPlan}
use juno_exchange_kit.Cli.Command.{
  Ended, returned, exited, bin_required, seed_path_required, process_failed, invalid_json,
  invalid_response, refused, sign_failed, invalid_signer_fee,
}
use juno_exchange_kit.Cli.Config.{Host, SignerReply, SignerRun, process_error, not_json, printed}

pub record TxsignResult : Type 0 where
  pub txid : Text
  pub raw_tx_hex : Text
  pub fee_zat : Text

-- The message, the code or a constant, the first that is not blank.
unfoldable pub refusal : SignerReply → Text
refusal r =
    if not (is_empty (trim_space r.error_message))
    then trim_space r.error_message
    else if not (is_empty (trim_space r.error_code))
    then trim_space r.error_code
    else codes "sign_failed"

unfoldable pub read_reply : SignerReply → Ended TxsignResult
read_reply r =
    if not (eq_text (trim_space r.status) (codes "ok"))
    then exited (sign_failed (refused (refusal r)))
    else if is_empty (to_lower (trim_space r.txid))
        || is_empty (trim_space r.raw_tx_hex)
        || is_empty (trim_space r.fee_zat)
    then exited (sign_failed invalid_response)
    else returned (record {
      txid = to_lower (trim_space r.txid);
      raw_tx_hex = trim_space r.raw_tx_hex;
      fee_zat = trim_space r.fee_zat;
    })

-- How the child process ended decides.
unfoldable pub read_run : SignerRun → Ended TxsignResult
read_run process_error = exited (sign_failed process_failed)
read_run not_json = exited (sign_failed invalid_json)
read_run (printed r) = read_reply r

unfoldable pub sign_tx_plan : Host → Text → Text → TxPlan → Ended TxsignResult
sign_tx_plan host bin seed_path plan =
    if is_empty (trim_space bin)
    then exited (sign_failed bin_required)
    else if is_empty (trim_space seed_path)
    then exited (sign_failed seed_path_required)
    else read_run (host.run_txsign (trim_space bin) (trim_space seed_path) plan)

-- The fee as an int64 that is not negative.
unfoldable pub signer_fee : TxsignResult → Ended ℤ
signer_fee s = elim (parse_int64 (trim_space s.fee_zat)) [
  | none ↦ exited invalid_signer_fee
  | some fee ↦ if ltb_ℤ fee (pos 0) then exited invalid_signer_fee else returned fee
]
