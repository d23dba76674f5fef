-- ===== src/Cli/Withdraw/Sent.antt =====
-- What `runWithdraw` sends, and what the store says then.
use juno_exchange_kit.Base.{
  ℕ, ◌≡◌, ◌⊎◌, ap, inl, inr, ◌||◌, Option, none, some, List, [], ◌∷◌, ◌++◌,
}
use juno_exchange_kit.Base.Int.{ℤ, pos, ltb_ℤ}
use juno_exchange_kit.Base.Text.{Text, is_empty, trim_space}
use juno_exchange_kit.Store.Accounts.{account_balance}
use juno_exchange_kit.Store.Wallets.{next_internal_address}
use juno_exchange_kit.Store.Withdrawals.{create_withdrawal_and_debit}
use juno_exchange_kit.Store.Ledger.Untouched.{next_internal_address-SameBooks}
use juno_exchange_kit.Txplan.Prepare.{TxPlan}
use juno_exchange_kit.Cli.Command.{
  World, Cmd, proceed, ◌>>=◌, from_store, After, After-exit_if, After-settle, After-bind,
  After-then, After-from_store, hot_wallet_missing,
}
use juno_exchange_kit.Cli.Config.{Host, Broadcaster, open_data_dir, txsign_bin}
use juno_exchange_kit.Cli.Setup.{hot, stored_hrp, stored_coin_type, stored_wallet, connect}
use juno_exchange_kit.Cli.Signer.{TxsignResult, sign_tx_plan, signer_fee}
use juno_exchange_kit.Cli.Quiet.{
  Quiet, Quiet-refl, from_store-Quiet, account_balance-Quiet, stored_hrp-Quiet,
  stored_coin_type-Quiet, stored_wallet-Quiet, connect-Quiet,
}
use juno_exchange_kit.Cli.Withdraw.{
  WithdrawFlags, Request, Prepared, parse_amount, parse_request, prepare_withdraw, plan_payment,
  check_total, answered, submit, await, payment_of, send_signed, pay, run_withdraw,
}

-- Either nothing more was sent and the books are the same, or one more transaction was sent.
abbrev pub SendsOnce : World → World → Type 0
SendsOnce w w' = Quiet w w' ⊎ ((raw : Text) × (w'.submitted ≡ w.submitted ++ raw ∷ []))

answered-After :
    {A : Type 0} (P : World → Type 0) (raw : Text) (o : Option Text) (f : Text → Cmd A) (v : World)
    → P v
    → ((txid : Text) → After P (f txid) (record v { submitted = v.submitted ++ raw ∷ [] }))
    → P (proceed (answered raw v o) f).1
unfolding answered
answered-After P raw none f v p h = p
answered-After P raw (some txid) f v p h = h txid

-- A transaction is out, or the world is as it was.
pub After-submit :
    {A : Type 0} (P : World → Type 0) (b : Broadcaster) (raw : Text) (f : Text → Cmd A) (v : World)
    → P v
    → ((txid : Text) → After P (f txid) (record v { submitted = v.submitted ++ raw ∷ [] }))
    → After P (submit b raw >>= f) v
unfolding submit
After-submit P b raw f v p h = answered-After P raw (b.submit v.submitted raw) f v p h

module _ (w : World) where
  pub parse_request-Quiet :
      (flags : WithdrawFlags) (v : World) → Quiet w v → After (Quiet w) (parse_request flags) v
  unfolding parse_request
  parse_request-Quiet flags v q =
      After-exit_if (Quiet w)
        (is_empty (trim_space flags.account)
          || is_empty (trim_space flags.to)
          || is_empty (trim_space flags.amount_zat))
        _ _ v q
        λ _. After-settle (Quiet w) (parse_amount (trim_space flags.amount_zat)) _ v q λ _ _. q

  pub prepare_withdraw-Quiet :
      (host : Host) (flags : WithdrawFlags) (r : Request) (v : World)
      → Quiet w v
      → After (Quiet w) (prepare_withdraw host flags r) v
  unfolding prepare_withdraw
  prepare_withdraw-Quiet host flags r v q =
      let P = Quiet w in
      After-bind P stored_hrp _ v (stored_hrp-Quiet w v q) λ hrp v1 _ q1.
        After-bind P stored_coin_type _ v1 (stored_coin_type-Quiet w v1 q1) λ coin v2 _ q2.
          After-bind P (stored_wallet hot hot_wallet_missing) _ v2
            (stored_wallet-Quiet w hot hot_wallet_missing v2 q2)
            λ row v3 _ q3.
              After-bind P (from_store (account_balance r.account_id)) _ v3
                (account_balance-Quiet w r.account_id v3 q3)
                λ balance v4 _ q4. After-exit_if P (ltb_ℤ balance (pos r.amount)) _ _ v4 q4 λ _.
                  After-bind P (connect host flags.rpc flags.services) _ v4
                    (connect-Quiet w host flags.rpc flags.services v4 q4) λ _ v5 _ q5. q5

  pub plan_payment-Quiet :
      (host : Host) (flags : WithdrawFlags) (r : Request) (p : Prepared) (v : World)
      → Quiet w v
      → After (Quiet w) (plan_payment host flags r p) v
  unfolding plan_payment
  plan_payment-Quiet host flags r p v q =
      After-bind (Quiet w) (from_store (next_internal_address hot _)) _ v
        (from_store-Quiet w (next_internal_address hot _) v q
          (next_internal_address-SameBooks hot _ v.db))
        λ change v1 _ q1. q1

  send_signed-SendsOnce :
      (host : Host) (flags : WithdrawFlags) (r : Request) (b : Broadcaster) (signed : TxsignResult)
      (fee : ℤ) (v : World)
      → Quiet w v
      → After (SendsOnce w) (send_signed host flags r b signed fee) v
  unfolding send_signed
  send_signed-SendsOnce host flags r b signed fee v q =
      let raw = signed.raw_tx_hex in
      let P = SendsOnce w in
      After-submit P b raw _ v (inl q) λ txid.
        let out : World = record v { submitted = v.submitted ++ raw ∷ [] } in
        let call = create_withdrawal_and_debit (payment_of r fee txid) host.random host.now in
        let sent : out.submitted ≡ w.submitted ++ raw ∷ [] =
          ap (λ (xs : List Text). xs ++ raw ∷ []) q.sent in
        After-bind P (from_store call) _ out (After-from_store P call out (inr (raw, sent)))
          λ _ v1 _ k. After-settle P (await b txid flags.wait_confirmations) _ v1 k λ _ _. k

  pay-SendsOnce :
      (host : Host) (flags : WithdrawFlags) (r : Request) (p : Prepared) (plan : TxPlan × ℕ)
      (v : World)
      → Quiet w v
      → After (SendsOnce w) (pay host flags r p plan) v
  unfolding pay
  pay-SendsOnce host flags r p plan v q =
      let P = SendsOnce w in
      After-settle P (check_total p.balance r.amount plan.1) _ v (inl q) λ _ _.
        After-settle P
          (sign_tx_plan host (txsign_bin host flags.txsign_bin) p.hot_wallet.seed_path plan.0) _ v
          (inl q)
          λ signed _.
            After-settle P (signer_fee signed) _ v (inl q)
              λ fee _. send_signed-SendsOnce host flags r p.services.broadcaster signed fee v q

SendsOnce-Quiet : (w v : World) → Quiet w v → SendsOnce w v
SendsOnce-Quiet w v q = inl q

-- However `withdraw` ends, either it has sent nothing and every balance, deposit and withdrawal is as it
-- was, or it has sent exactly one transaction: there is no debit without a transaction.
pub run_withdraw-SendsOnce :
    (host : Host) (flags : WithdrawFlags) (w : World) → SendsOnce w (run_withdraw host flags w).1
unfolding run_withdraw
run_withdraw-SendsOnce host flags w =
    let Q = Quiet w in
    let P = SendsOnce w in
    let le = SendsOnce-Quiet w in
    After-then Q P (parse_request flags) _ w (parse_request-Quiet w flags w (Quiet-refl w)) le
      λ r v1 _ q1. After-settle P (open_data_dir host flags.data_dir) _ v1 (inl q1) λ _ _.
        After-then Q P (prepare_withdraw host flags r) _ v1
          (prepare_withdraw-Quiet w host flags r v1 q1) le
          λ p v2 _ q2.
            After-then Q P (plan_payment host flags r p) _ v2
              (plan_payment-Quiet w host flags r p v2 q2) le
              λ plan v3 _ q3. pay-SendsOnce w host flags r p plan v3 q3
