-- ===== src/Cli/Withdraw/Pays.antt =====
-- `runWithdraw` and the books: what it keeps, and what it has done when it returns.
use juno_exchange_kit.Base.{
  ℕ, ◌≤◌, ◌≡◌, refl, ap, sym, subst, inl, inr, ◌∙◌, ◌||◌, Option, none, some, List, [], ◌∷◌, ◌++◌,
  arith, Option-cases,
}
use juno_exchange_kit.Base.Int.{ℤ}
use juno_exchange_kit.Base.Word.{IsInt64, max_int64}
use juno_exchange_kit.Base.Text.{Text, is_empty, trim_space}
use juno_exchange_kit.Base.Decimal.{parse_uint, parse_int64, parse_int64-IsInt64}
use juno_exchange_kit.Store.Schema.{Db}
use juno_exchange_kit.Store.Exec.{ok}
use juno_exchange_kit.Store.Withdrawals.{Payment, trim_payment, create_withdrawal_and_debit}
use juno_exchange_kit.Store.Ledger.{IsConsistent, GoodBalances}
use juno_exchange_kit.Store.Ledger.Untouched.{SameBooks}
use juno_exchange_kit.Store.Ledger.Paid.{Paid, create_withdrawal_and_debit-Paid}
use juno_exchange_kit.Txplan.Prepare.{TxPlan, withdrawal}
use juno_exchange_kit.Txplan.Pays.{PlanFor}
use juno_exchange_kit.Cli.Setup.{hot}
use juno_exchange_kit.Cli.Withdraw.Plans.{
  output_of, plan_payment-PlanFor, prepare_withdraw-broadcaster,
}
use juno_exchange_kit.Cli.Command.{
  World, Ended, returned, from_store, settle, >>=_returned, exit_if_passed, from_store_returned,
  returned_inj, After-returned,
}
use juno_exchange_kit.Cli.Config.{
  Host, Broadcaster, resolved_broadcast_url, open_data_dir, txsign_bin,
}
use juno_exchange_kit.Cli.Signer.{TxsignResult, sign_tx_plan, signer_fee}
use juno_exchange_kit.Cli.Quiet.{Quiet, Quiet-refl}
use juno_exchange_kit.Cli.Withdraw.{
  WithdrawFlags, Request, Prepared, Withdrawn, parse_amount, parse_request, prepare_withdraw,
  plan_payment, check_total, answered, submit, await, payment_of, send_signed, pay, run_withdraw,
}
use juno_exchange_kit.Cli.Withdraw.Sent.{
  parse_request-Quiet, prepare_withdraw-Quiet, plan_payment-Quiet,
}

-- An amount that is read is positive, and an int64.
pub parse_amount_fits :
    (s : Text) {n : ℕ}
    → parse_amount s ≡ returned n
    → (parse_uint 18446744073709551615 s ≡ some n) × (1 ≤ n) × (n ≤ max_int64)
unfolding parse_amount
parse_amount_fits s h = elim (Option-cases (parse_uint 18446744073709551615 s)) [
  | inl e ↦ absurd (ground arith)
  | inr (n, e) ↦ ground arith
]

pub signer_fee-IsInt64 : (s : TxsignResult) {fee : ℤ} → signer_fee s ≡ returned fee → IsInt64 fee
unfolding signer_fee
signer_fee-IsInt64 s {fee} h = elim (Option-cases (parse_int64 (trim_space s.fee_zat))) [
  | inl e ↦ absurd (ground arith)
  | inr (v, e) ↦
      let same : v ≡ fee = ground arith in
      subst IsInt64 same (parse_int64-IsInt64 (trim_space s.fee_zat) e)
]

-- The request that the flags make.
abbrev pub request_of : WithdrawFlags → ℕ → Request
request_of flags amount = record {
  account_id = trim_space flags.account;
  to = trim_space flags.to;
  amount = amount;
}

pub parse_request_fits :
    (flags : WithdrawFlags) (w v : World) (r : Request)
    → parse_request flags w ≡ (returned r, v)
    → (parse_amount (trim_space flags.amount_zat) ≡ returned r.amount)
      × (r ≡ request_of flags r.amount)
      × (v ≡ w)
unfolding parse_request
parse_request_fits flags w v r h =
    let (e, h1) =
      exit_if_passed
        (is_empty (trim_space flags.account)
          || is_empty (trim_space flags.to)
          || is_empty (trim_space flags.amount_zat))
        _ _ w h in
    let (amount, mid, k, h2) =
      >>=_returned (settle (parse_amount (trim_space flags.amount_zat))) (λ a. _) w h1 in
    let (same, stays) = returned_inj h2 in
    (
      subst (λ x. parse_amount (trim_space flags.amount_zat) ≡ returned x.amount) same
          (ap (λ (x : Ended ℕ × World). x.0) k),
      subst (λ x. x ≡ request_of flags x.amount) same refl,
      sym stays ∙ sym (ap (λ (x : Ended ℕ × World). x.1) k),
    )

-- The payment that the store is asked for.
abbrev pub requested : WithdrawFlags → ℕ → Withdrawn → Payment
requested flags amount out = payment_of (request_of flags amount) out.fee out.txid

-- One transaction went out. It is what the signer made of a plan of the hot wallet whose one output pays
-- the amount that was asked for to the address; the broadcaster answered with the id that is reported; and
-- the account paid that amount and the signer's fee.
pub record PaidOnce (host : Host) (flags : WithdrawFlags) (out : Withdrawn) (w w' : World)
    : Type 0 where
  pub amount : ℕ
  pub asked : parse_uint 18446744073709551615 (trim_space flags.amount_zat) ≡ some amount
  pub plan : TxPlan
  pub change : Text
  pub planned_for : PlanFor withdrawal hot (output_of (request_of flags amount) ∷ []) change plan
  pub seed_path : Text
  pub signed : TxsignResult
  pub signing :
      sign_tx_plan host (txsign_bin host flags.txsign_bin) seed_path plan ≡ returned signed
  pub fee : signer_fee signed ≡ returned out.fee
  pub broadcaster : Broadcaster
  pub named : host.broadcast_client (resolved_broadcast_url host flags.services) ≡ some broadcaster
  pub accepted : broadcaster.submit w.submitted signed.raw_tx_hex ≡ some out.txid
  pub sent : w'.submitted ≡ w.submitted ++ signed.raw_tx_hex ∷ []
  pub id : Text
  pub paid : Paid (trim_payment (requested flags amount out)) id host.now w.db w'.db

Paid-after :
    (p : Payment) (id : Text) (now : ℤ) (db mid db' : Db)
    → SameBooks db mid
    → Paid p id now mid db'
    → Paid p id now db db'
Paid-after p id now db mid db' s k = record {
  moved = λ a. rw (← s.balances) (k.moved a);
  recorded = rw (← s.withdrawals) k.recorded;
  deposits = k.deposits ∙ s.deposits;
}

answered_returned :
    (raw : Text) (v : World) (o : Option Text) {txid : Text} {mid : World}
    → answered raw v o ≡ (returned txid, mid)
    → (o ≡ some txid) × (mid ≡ record v { submitted = v.submitted ++ raw ∷ [] })
unfolding answered
answered_returned raw v none h = absurd (ground arith)
answered_returned raw v (some t) h = (ground arith, ground arith)

pub submit_returned :
    (b : Broadcaster) (raw : Text) (v : World) {txid : Text} {mid : World}
    → submit b raw v ≡ (returned txid, mid)
    → (b.submit v.submitted raw ≡ some txid)
      × (mid ≡ record v { submitted = v.submitted ++ raw ∷ [] })
unfolding submit
submit_returned b raw v h = answered_returned raw v (b.submit v.submitted raw) h

module _ (host : Host) (flags : WithdrawFlags) (amount : ℕ) (fits : amount ≤ max_int64) where
  send_signed-Paid :
      (b : Broadcaster) (signed : TxsignResult) (fee : ℤ) (w w' : World) (out : Withdrawn)
      → IsInt64 fee
      → GoodBalances w.db.balances
      → send_signed host flags (request_of flags amount) b signed fee w ≡ (returned out, w')
      → (id : Text) × (b.submit w.submitted signed.raw_tx_hex ≡ some out.txid)
        × (out.fee ≡ fee)
        × (w'.submitted ≡ w.submitted ++ signed.raw_tx_hex ∷ [])
        × Paid (trim_payment (requested flags amount out)) id host.now w.db w'.db
  unfolding send_signed
  send_signed-Paid b signed fee w w' out ff g h =
      let r = request_of flags amount in
      let (txid, v1, e1, h1) = >>=_returned (submit b signed.raw_tx_hex) (λ x. _) w h in
      let call = create_withdrawal_and_debit (payment_of r fee txid) host.random host.now in
      let (res, v2, e2, h2) = >>=_returned (from_store call) (λ x. _) v1 h1 in
      let (u, v3, e3, h3) =
        >>=_returned (settle (await b txid flags.wait_confirmations)) (λ x. _) v2 h2 in
      let (same, stays) = returned_inj h3 in
      let (db2, ran, at) = from_store_returned call v1 e2 in
      let (taken, sent) = submit_returned b signed.raw_tx_hex w e1 in
      let last : w' ≡ record v1 { db = db2 } =
        sym stays ∙ sym (ap (λ (x : Ended (Unit {0}) × World). x.1) e3) ∙ at in
      let ran' : create_withdrawal_and_debit (payment_of r fee txid) host.random host.now w.db
          ≡ (ok res, db2) =
        subst (λ (v : World). call v.db ≡ (ok res, db2)) sent ran in
      let (id, paid) =
        create_withdrawal_and_debit-Paid (payment_of r fee txid) host.random host.now res w.db db2
          (omega arith) ff g ran' in
      let paid' : Paid (trim_payment (payment_of r fee txid)) id host.now w.db w'.db =
        subst (Paid (trim_payment (payment_of r fee txid)) id host.now w.db)
          (sym (ap (λ (v : World). v.db) last)) paid in
      (
        id,
        taken ∙ ap (λ (o : Withdrawn). some o.txid) same,
        sym (ap (λ (o : Withdrawn). o.fee) same),
        ap (λ (v : World). v.submitted) last ∙ ap (λ (v : World). v.submitted) sent,
        subst
            (λ (o : Withdrawn).
              Paid (trim_payment (requested flags amount o)) id host.now w.db w'.db)
            same paid',
      )

  -- What `pay` has done with a plan when it returns.
  record PaysPlan (p : Prepared) (plan : TxPlan) (w w' : World) (out : Withdrawn) : Type 0 where
    pub signed : TxsignResult
    pub signing :
        sign_tx_plan host (txsign_bin host flags.txsign_bin) p.hot_wallet.seed_path plan
        ≡ returned signed
    pub fee : signer_fee signed ≡ returned out.fee
    pub accepted : p.services.broadcaster.submit w.submitted signed.raw_tx_hex ≡ some out.txid
    pub sent : w'.submitted ≡ w.submitted ++ signed.raw_tx_hex ∷ []
    pub id : Text
    pub paid : Paid (trim_payment (requested flags amount out)) id host.now w.db w'.db

  pay-PaysPlan :
      (p : Prepared) (plan : TxPlan × ℕ) (w w' : World) (out : Withdrawn)
      → GoodBalances w.db.balances
      → pay host flags (request_of flags amount) p plan w ≡ (returned out, w')
      → PaysPlan p plan.0 w w' out
  unfolding pay
  pay-PaysPlan p plan w w' out g h =
      let (u, v1, e1, h1) =
        >>=_returned (settle (check_total p.balance amount plan.1)) (λ x. _) w h in
      let (signed, v2, e2, h2) =
        >>=_returned
          (settle
            (sign_tx_plan host (txsign_bin host flags.txsign_bin) p.hot_wallet.seed_path plan.0))
          (λ x. _) v1 h1 in
      let (fee, v3, e3, h3) = >>=_returned (settle (signer_fee signed)) (λ x. _) v2 h2 in
      let there : v3 ≡ w =
        sym (ap (λ (x : Ended ℤ × World). x.1) e3)
        ∙ sym (ap (λ (x : Ended TxsignResult × World). x.1) e2)
        ∙ sym (ap (λ (x : Ended (Unit {0}) × World). x.1) e1) in
      let charged = ap (λ (x : Ended ℤ × World). x.0) e3 in
      let ff = signer_fee-IsInt64 signed charged in
      let sends =
        subst
          (λ v.
            send_signed host flags (request_of flags amount) p.services.broadcaster signed fee v
            ≡ (returned out, w'))
          there h3 in
      let (id, accepted, same, sent, paid) =
        send_signed-Paid p.services.broadcaster signed fee w w' out ff g sends in
      record {
        signed = signed;
        signing = ap (λ (x : Ended TxsignResult × World). x.0) e2;
        fee = charged ∙ ap returned (sym same);
        accepted = accepted;
        sent = sent;
        id = id;
        paid = paid;
      }

-- A `withdraw` that returns, on books that are right: exactly one transaction went out, which the signer
-- made of a plan of the hot wallet whose one output pays the amount that was asked for to the address that
-- was given; the id reported is the broadcaster's; the account paid exactly the amount and the fee that the
-- signer reports, every other balance is as it was, and the withdrawal is recorded with that id, trimmed and
-- in lower case.
pub run_withdraw-PaidOnce :
    (host : Host) (flags : WithdrawFlags) (w w' : World) (out : Withdrawn)
    → IsConsistent w.db
    → run_withdraw host flags w ≡ (returned out, w')
    → PaidOnce host flags out w w'
unfolding run_withdraw
run_withdraw-PaidOnce host flags w w' out c h =
    let (r, v1, e1, h1) = >>=_returned (parse_request flags) (λ x. _) w h in
    let (d, v2, e2, h2) =
      >>=_returned (settle (open_data_dir host flags.data_dir)) (λ x. _) v1 h1 in
    let (p, v3, e3, h3) = >>=_returned (prepare_withdraw host flags r) (λ x. _) v2 h2 in
    let (plan, v4, e4, h4) = >>=_returned (plan_payment host flags r p) (λ x. _) v3 h3 in
    let q1 =
      After-returned (Quiet w) (parse_request flags) w
        (parse_request-Quiet w flags w (Quiet-refl w)) e1 in
    let q2 = subst (Quiet w) (ap (λ (x : Ended Text × World). x.1) e2) q1 in
    let q3 =
      After-returned (Quiet w) (prepare_withdraw host flags r) v2
        (prepare_withdraw-Quiet w host flags r v2 q2) e3 in
    let q4 =
      After-returned (Quiet w) (plan_payment host flags r p) v3
        (plan_payment-Quiet w host flags r p v3 q3) e4 in
    let (amount, named, stays) = parse_request_fits flags w v1 r e1 in
    let (asked, least, fits) = parse_amount_fits (trim_space flags.amount_zat) amount in
    let g : GoodBalances v4.db.balances =
      subst GoodBalances (sym q4.books.balances) c.good_balances in
    let named' = subst (λ x. pay host flags x p plan v4 ≡ (returned out, w')) named h4 in
    let k = pay-PaysPlan host flags r.amount fits p plan v4 w' out g named' in
    let (change, made) = plan_payment-PlanFor host flags r p plan v3 v4 e4 in
    record {
      amount = r.amount;
      asked = asked;
      plan = plan.0;
      change = change;
      planned_for =
          subst (λ (x : Request). PlanFor withdrawal hot (output_of x ∷ []) change plan.0) named
            made;
      seed_path = p.hot_wallet.seed_path;
      signed = k.signed;
      signing = k.signing;
      fee = k.fee;
      broadcaster = p.services.broadcaster;
      named = prepare_withdraw-broadcaster host flags r p v2 v3 e3;
      accepted =
          subst (λ s. p.services.broadcaster.submit s k.signed.raw_tx_hex ≡ some out.txid) q4.sent
            k.accepted;
      sent = k.sent ∙ ap (λ (xs : List Text). xs ++ k.signed.raw_tx_hex ∷ []) q4.sent;
      id = k.id;
      paid = Paid-after _ k.id host.now w.db v4.db w'.db q4.books k.paid;
    }
