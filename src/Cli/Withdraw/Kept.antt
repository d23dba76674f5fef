-- ===== src/Cli/Withdraw/Kept.antt =====
-- `runWithdraw` keeps the books right, and what it offers when the balance does not cover the fee.
use juno_exchange_kit.Base.{ℕ, ◌≤◌, arith}
use juno_exchange_kit.Base.Int.{ℤ}
use juno_exchange_kit.Base.Word.{IsInt64, max_int64}
use juno_exchange_kit.Base.Text.{trim_space}
use juno_exchange_kit.Store.Withdrawals.{create_withdrawal_and_debit}
use juno_exchange_kit.Store.Ledger.{IsConsistent}
use juno_exchange_kit.Store.Ledger.Run.{SameBooks-IsConsistent}
use juno_exchange_kit.Store.Ledger.Withdrawals.{create_withdrawal_and_debit-IsConsistent}
use juno_exchange_kit.Txplan.Prepare.{TxPlan}
use juno_exchange_kit.Cli.Command.{
  World, from_store, After, After-settle, After-bind, After-then, After-from_store,
}
use juno_exchange_kit.Cli.Config.{Host, Broadcaster, open_data_dir, txsign_bin}
use juno_exchange_kit.Cli.Signer.{TxsignResult, sign_tx_plan, signer_fee}
use juno_exchange_kit.Cli.Quiet.{Quiet, Quiet-refl}
use juno_exchange_kit.Cli.Withdraw.{
  WithdrawFlags, Request, Prepared, parse_request, prepare_withdraw, plan_payment, check_total,
  await, payment_of, send_signed, pay, run_withdraw,
}
use juno_exchange_kit.Cli.Withdraw.Sent.{
  parse_request-Quiet, prepare_withdraw-Quiet, plan_payment-Quiet, After-submit,
}
use juno_exchange_kit.Cli.Withdraw.Pays.{parse_amount_fits, parse_request_fits, signer_fee-IsInt64}

-- The books are right.
abbrev pub HasBooks : World → Type 0
HasBooks w = IsConsistent w.db

Quiet-HasBooks : (w v : World) → HasBooks w → Quiet w v → HasBooks v
Quiet-HasBooks w v c q = SameBooks-IsConsistent w.db v.db q.books c

module _ (host : Host) (flags : WithdrawFlags) where
  send_signed-HasBooks :
      (r : Request) (b : Broadcaster) (signed : TxsignResult) (fee : ℤ) (v : World)
      → r.amount ≤ max_int64
      → IsInt64 fee
      → HasBooks v
      → After HasBooks (send_signed host flags r b signed fee) v
  unfolding send_signed
  send_signed-HasBooks r b signed fee v fa ff c =
      After-submit HasBooks b signed.raw_tx_hex _ v c λ txid.
        let call = create_withdrawal_and_debit (payment_of r fee txid) host.random host.now in
        let out : World = record v { submitted = _ } in
        After-bind HasBooks (from_store call) _ out
          (After-from_store HasBooks call out (
            create_withdrawal_and_debit-IsConsistent (payment_of r fee txid) host.random host.now
              v.db (omega arith) ff c))
          λ _ v1 _ k. After-settle HasBooks (await b txid flags.wait_confirmations) _ v1 k λ _ _. k

  pay-HasBooks :
      (r : Request) (p : Prepared) (plan : TxPlan × ℕ) (v : World)
      → r.amount ≤ max_int64
      → HasBooks v
      → After HasBooks (pay host flags r p plan) v
  unfolding pay
  pay-HasBooks r p plan v fa c =
      After-settle HasBooks (check_total p.balance r.amount plan.1) _ v c λ _ _.
        After-settle HasBooks
          (sign_tx_plan host (txsign_bin host flags.txsign_bin) p.hot_wallet.seed_path plan.0) _ v c
          λ signed _. After-settle HasBooks (signer_fee signed) _ v c λ fee e.
            send_signed-HasBooks r p.services.broadcaster signed fee v fa
              (signer_fee-IsInt64 signed e) c

  -- Wherever `withdraw` stops, also after the transaction went out, books that are right stay right.
  pub run_withdraw-HasBooks : (w : World) → HasBooks w → HasBooks (run_withdraw host flags w).1
  unfolding run_withdraw
  run_withdraw-HasBooks w c =
      let Q = Quiet w in
      let le = λ (v : World) (q : Q v). Quiet-HasBooks w v c q in
      After-then Q HasBooks (parse_request flags) _ w (parse_request-Quiet w flags w (Quiet-refl w))
        le
        λ r v1 e1 q1.
          After-settle HasBooks (open_data_dir host flags.data_dir) _ v1 (le v1 q1) λ _ _.
            After-then Q HasBooks (prepare_withdraw host flags r) _ v1
              (prepare_withdraw-Quiet w host flags r v1 q1) le
              λ p v2 _ q2.
                After-then Q HasBooks (plan_payment host flags r p) _ v2
                  (plan_payment-Quiet w host flags r p v2 q2) le
                  λ plan v3 _ q3.
                    let (amount, named, stays) = parse_request_fits flags w v1 r e1 in
                    let (asked, least, fits) =
                      parse_amount_fits (trim_space flags.amount_zat) amount in
                    pay-HasBooks r p plan v3 fits (le v3 q3)
