-- ===== src/Store/Ledger/Paid.antt =====
-- What a `CreateWithdrawalAndDebit` that returns has done to the books.
use juno_exchange_kit.Base.{
  ℕ, ◌≡◌, subst, sym, ap, inl, inr, not, ◌||◌, Option, arith, List, [], ◌∷◌, ◌++◌, Bool-cases,
}
use juno_exchange_kit.Base.Int.{ℤ, pos, ltb_ℤ, ◌+ℤ◌, ◌-ℤ◌, ◌≤ℤ◌, int_laws, parts_of_eq}
use juno_exchange_kit.Base.Word.{IsInt64, add_int64, sub_int64}
use juno_exchange_kit.Base.Text.{Text, is_empty, eq_text}
use juno_exchange_kit.Store.Schema.{Db}
use juno_exchange_kit.Store.Exec.{
  Result, ok, transaction, lift, >>=_ok, raise_if_passed, transaction_ok,
}
use juno_exchange_kit.Store.Accounts.{random_hex}
use juno_exchange_kit.Store.Deposits.{set_balance}
use juno_exchange_kit.Store.Withdrawals.{
  Payment, withdrawal_row, withdraw_tx, withdraw_trimmed, trim_payment, create_withdrawal_and_debit,
}
use juno_exchange_kit.Store.Ledger.{amount_at, balance_of, GoodBalances}
use juno_exchange_kit.Store.Ledger.Deposits.{positive_of_test}
use juno_exchange_kit.Store.Ledger.Balances.{set_balance_moves, found_nonneg}
use juno_exchange_kit.Store.Ledger.Withdrawals.{withdraw_tx_ok, withdraw_exact}

-- The account paid the amount and the fee, and the withdrawal stands behind the others.
pub record Paid (p : Payment) (id : Text) (now : ℤ) (db db' : Db) : Type 0 where
  pub moved :
      (a : Text)
      → balance_of a db'.balances
        ≡ balance_of a db.balances -ℤ amount_at a p.account_id (p.amount_zat +ℤ p.fee_zat)
  pub recorded : db'.withdrawals ≡ db.withdrawals ++ withdrawal_row p id now ∷ []
  pub deposits : db'.deposits ≡ db.deposits

paid_amount :
    (a x : Text) (next bal total before after : ℤ)
    → next ≡ bal -ℤ total
    → after ≡ before +ℤ amount_at a x (next -ℤ bal)
    → after ≡ before -ℤ amount_at a x total
unfolding amount_at
paid_amount a x next bal total before after e h = elim (Bool-cases (eq_text x a)) [
  | inl k ↦
      let m : after ≡ before +ℤ (next -ℤ bal) = rw k at h in
      rw k (omega (int_laws, parts_of_eq e, parts_of_eq m))
  | inr k ↦ let m : after ≡ before +ℤ pos 0 = rw k at h in rw k (omega (int_laws, parts_of_eq m))
]

module _ (p : Payment) (now : ℤ) (fa : IsInt64 p.amount_zat) (ff : IsInt64 p.fee_zat) where
  withdraw_tx-Paid :
      (id res : Text) (db db' : Db)
      → GoodBalances db.balances
      → pos 1 ≤ℤ p.amount_zat
      → withdraw_tx p id now db ≡ (ok res, db')
      → Paid p id now db db'
  withdraw_tx-Paid id res db db' g positive h =
      let (r, found, no_overflow, covered, e) = withdraw_tx_ok p id now db db' res h in
      let (fb, nb) = found_nonneg p.account_id r db.balances found g in
      let (exact, fits, nonneg) =
        withdraw_exact p id now r.balance_zat fa ff fb nb positive no_overflow covered in
      let next = sub_int64 r.balance_zat (add_int64 p.amount_zat p.fee_zat) in
      let change = set_balance_moves p.account_id next now r db found g fits nonneg in
      let mid = set_balance p.account_id next now db in
      subst (Paid p id now db) (sym e) (record {
        moved = λ a. paid_amount a p.account_id next r.balance_zat _ _ _ exact (change.moved a);
        recorded = ap (λ (d : Db). d.withdrawals ++ withdrawal_row p id now ∷ []) change.others;
        deposits = ap (λ (d : Db). d.deposits) change.others;
      })

  withdraw_trimmed-Paid :
      (rand : ℕ → Option (List ℕ)) (res : Text) (db db' : Db)
      → GoodBalances db.balances
      → withdraw_trimmed p rand now db ≡ (ok res, db')
      → (id : Text) × Paid p id now db db'
  unfolding withdraw_trimmed
  withdraw_trimmed-Paid rand res db db' g h =
      let (named, h1) =
        raise_if_passed
          (is_empty p.account_id
            || is_empty p.wallet_id
            || is_empty p.to_address
            || is_empty p.txid)
          _ _ db h in
      let (positive, h2) =
        raise_if_passed (not (ltb_ℤ (pos 0) p.amount_zat) || ltb_ℤ p.fee_zat (pos 0)) _ _ db h1 in
      let (id, mid, k, h3) = >>=_ok (lift (random_hex (pos 16) rand)) (λ id. _) db h2 in
      let same : mid ≡ db = ap (λ (x : Result Text × Db). x.1) (sym k) in
      let ran : withdraw_tx p id now db ≡ (ok res, db') =
        transaction_ok (withdraw_tx p id now) db
          (subst (λ d. transaction (withdraw_tx p id now) d ≡ (ok res, db')) same h3) in
      (id, withdraw_tx-Paid id res db db' g (positive_of_test p.amount_zat (ground arith)) ran)

-- A `CreateWithdrawalAndDebit` that returns has debited the account, trimmed, by exactly the amount and
-- the fee, left every other balance as it was, and recorded the withdrawal.
pub create_withdrawal_and_debit-Paid :
    (p : Payment) (rand : ℕ → Option (List ℕ)) (now : ℤ) (res : Text) (db db' : Db)
    → IsInt64 p.amount_zat
    → IsInt64 p.fee_zat
    → GoodBalances db.balances
    → create_withdrawal_and_debit p rand now db ≡ (ok res, db')
    → (id : Text) × Paid (trim_payment p) id now db db'
unfolding create_withdrawal_and_debit
create_withdrawal_and_debit-Paid p rand now res db db' fa ff g h =
    withdraw_trimmed-Paid (trim_payment p) now fa ff rand res db db' g h
