-- ===== src/Store/Ledger/Withdrawals.antt =====
-- `CreateWithdrawalAndDebit` keeps the books.
use juno_exchange_kit.Base.{
  ℕ, ◌≡◌, refl, subst, sym, ap, inl, inr, not, ◌||◌, Option, some, arith, Bool-cases, Option-cases,
  ◌∙◌, List, [], ◌∷◌, ◌++◌,
}
use juno_exchange_kit.Base.Int.{ℤ, pos, ltb_ℤ, ◌+ℤ◌, ◌-ℤ◌, ◌≤ℤ◌, int_laws, parts_of_eq}
use juno_exchange_kit.Base.Word.{
  IsInt64, IsNat, add_int64, sub_int64, sub_int64_exact, add_int64_nonneg, IsNat-of_nonneg,
}
use juno_exchange_kit.Base.Text.{Text, is_empty, eq_text}
use juno_exchange_kit.Base.Table.{select_first, sum_of, sum_of-append}
use juno_exchange_kit.Store.Schema.{BalanceRow, WithdrawalRow, Db, is_balance}
use juno_exchange_kit.Store.Exec.{ok, lift}
use juno_exchange_kit.Store.Accounts.{select_balance, random_hex}
use juno_exchange_kit.Store.Deposits.{set_balance}
use juno_exchange_kit.Store.Withdrawals.{
  Payment, withdrawal_row, insert_withdrawal, withdraw_tx, withdraw_trimmed, trim_payment,
  create_withdrawal_and_debit,
}
use juno_exchange_kit.Store.Keeps.{Keeps, Keeps-raise_if, Keeps-read, Keeps-transaction}
use juno_exchange_kit.Store.Ledger.{
  amount_at, debit_of, withdrawn, credited, IsConsistent, GoodDeposits,
}
use juno_exchange_kit.Store.Ledger.Deposits.{positive_of_test}
use juno_exchange_kit.Store.Ledger.Balances.{BalanceChange, set_balance_moves, found_nonneg}

module _ (p : Payment) (id : Text) (now : ℤ) where
  -- What a withdrawal that commits has checked and written.
  pub withdraw_tx_ok :
      (db db' : Db) (res : Text)
      → withdraw_tx p id now db ≡ (ok res, db')
      → (r : BalanceRow) × (select_first (is_balance p.account_id) db.balances ≡ some r)
        × (p.amount_zat ≤ℤ add_int64 p.amount_zat p.fee_zat)
        × (add_int64 p.amount_zat p.fee_zat ≤ℤ r.balance_zat)
        × (let next = sub_int64 r.balance_zat (add_int64 p.amount_zat p.fee_zat) in
            let mid = set_balance p.account_id next now db in
            db' ≡ record mid { withdrawals = mid.withdrawals ++ withdrawal_row p id now ∷ [] })
  unfolding withdraw_tx select_balance insert_withdrawal
  withdraw_tx_ok db db' res h =
      elim (Option-cases (select_first (is_balance p.account_id) db.balances)) [
        | inl e ↦ absurd (ground arith)
        | inr (r, e) ↦ (r, e, ground arith, ground arith, ground arith)
      ]

amount_at-cancel :
    (a x : Text) (u v : ℤ) → u +ℤ v ≡ pos 0 → amount_at a x u +ℤ amount_at a x v ≡ pos 0
unfolding amount_at
amount_at-cancel a x u v h = elim (Bool-cases (eq_text x a)) [
  | inl e ↦ rw e h
  | inr e ↦ rw e (omega int_laws)
]

withdrawn-append :
    (a : Text) (rows : List WithdrawalRow) (row : WithdrawalRow)
    → withdrawn a (rows ++ row ∷ []) ≡ withdrawn a rows +ℤ debit_of a row
unfolding withdrawn
withdrawn-append a rows row =
    rw (sum_of-append (debit_of a) rows (row ∷ [])) (unfold sum_of in omega int_laws)

-- One more withdrawal, of which the balance paid exactly the amount and the fee.
IsConsistent-paid :
    (db mid : Db) (row : WithdrawalRow) (gain : Text → ℤ)
    → IsConsistent db
    → BalanceChange db mid gain
    → ((a : Text) → gain a +ℤ debit_of a row ≡ pos 0)
    → IsConsistent (record mid { withdrawals = mid.withdrawals ++ row ∷ [] })
IsConsistent-paid db mid row gain c change paid =
    let same_deposits = ap (λ (x : Db). x.deposits) change.others in
    let same_withdrawals = ap (λ (x : Db). x.withdrawals) change.others in
    record {
      good_balances = change.good;
      good_deposits = subst GoodDeposits (sym same_deposits) c.good_deposits;
      ledger = λ a.
          let d = ap (credited a) same_deposits in
          let w : withdrawn a (mid.withdrawals ++ row ∷ [])
              ≡ withdrawn a db.withdrawals +ℤ debit_of a row =
            ap (λ ws. withdrawn a (ws ++ row ∷ [])) same_withdrawals
            ∙ withdrawn-append a db.withdrawals row in
          rw (w, d, change.moved a)
            (omega (int_laws, parts_of_eq (c.ledger a), parts_of_eq (paid a)));
    }

module _ (p : Payment) (id : Text) (now : ℤ) where
  -- The sum that is debited is the amount and the fee: neither the sum nor the difference wraps.
  pub withdraw_exact :
      (bal : ℤ)
      → IsInt64 p.amount_zat
      → IsInt64 p.fee_zat
      → IsInt64 bal
      → IsNat bal
      → pos 1 ≤ℤ p.amount_zat
      → p.amount_zat ≤ℤ add_int64 p.amount_zat p.fee_zat
      → add_int64 p.amount_zat p.fee_zat ≤ℤ bal
      → let next = sub_int64 bal (add_int64 p.amount_zat p.fee_zat) in
        (next ≡ bal -ℤ (p.amount_zat +ℤ p.fee_zat)) × IsInt64 next × IsNat next
  withdraw_exact bal fa ff fb nb positive no_overflow covered =
      let (exact, fits) =
        add_int64_nonneg p.amount_zat p.fee_zat fa (IsNat-of_nonneg p.amount_zat (omega arith)) ff
          (IsNat-of_nonneg (add_int64 p.amount_zat p.fee_zat) (omega arith)) in
      let total = p.amount_zat +ℤ p.fee_zat in
      let covered' : total ≤ℤ bal = rw (← exact) covered in
      let above : p.amount_zat ≤ℤ total = rw (← exact) no_overflow in
      let left_fits : IsInt64 (bal -ℤ total) = unfold ◌-ℤ◌ in ground arith in
      let left_nonneg : IsNat (bal -ℤ total) = unfold ◌-ℤ◌ in ground arith in
      let e : sub_int64 bal (add_int64 p.amount_zat p.fee_zat) ≡ bal -ℤ total =
        ap (sub_int64 bal) exact ∙ sub_int64_exact bal total left_fits in
      (e, subst IsInt64 (sym e) left_fits, subst IsNat (sym e) left_nonneg)

module _ (p : Payment) (now : ℤ) (fa : IsInt64 p.amount_zat) (ff : IsInt64 p.fee_zat) where
  withdraw_tx-IsConsistent :
      (id : Text) (db db' : Db) (res : Text)
      → pos 1 ≤ℤ p.amount_zat
      → withdraw_tx p id now db ≡ (ok res, db')
      → IsConsistent db
      → IsConsistent db'
  withdraw_tx-IsConsistent id db db' res positive h c =
      let (r, found, no_overflow, covered, e) = withdraw_tx_ok p id now db db' res h in
      let (fb, nb) = found_nonneg p.account_id r db.balances found c.good_balances in
      let (exact, fits, nonneg) =
        withdraw_exact p id now r.balance_zat fa ff fb nb positive no_overflow covered in
      let next = sub_int64 r.balance_zat (add_int64 p.amount_zat p.fee_zat) in
      let paid : next -ℤ r.balance_zat +ℤ (p.amount_zat +ℤ p.fee_zat) ≡ pos 0 =
        rw exact (omega int_laws) in
      subst IsConsistent (sym e) (
        IsConsistent-paid db (set_balance p.account_id next now db) (withdrawal_row p id now) _ c
          (set_balance_moves p.account_id next now r db found c.good_balances fits nonneg)
          (λ a. unfold debit_of in amount_at-cancel a p.account_id _ _ paid))

  withdraw_trimmed-IsConsistent :
      (rand : ℕ → Option (List ℕ)) (db : Db)
      → IsConsistent db
      → Keeps IsConsistent (withdraw_trimmed p rand now) db
  unfolding withdraw_trimmed
  withdraw_trimmed-IsConsistent rand db c =
      Keeps-raise_if IsConsistent
        (is_empty p.account_id || is_empty p.wallet_id || is_empty p.to_address || is_empty p.txid)
        _ _ db c
        λ _.
          Keeps-raise_if IsConsistent (not (ltb_ℤ (pos 0) p.amount_zat) || ltb_ℤ p.fee_zat (pos 0))
            _ _ db c
            λ positive.
              Keeps-read IsConsistent (lift (random_hex (pos 16) rand)) _ db c refl λ id _.
                Keeps-transaction IsConsistent (withdraw_tx p id now) db c λ res db' h.
                  withdraw_tx-IsConsistent id db db' res
                    (positive_of_test p.amount_zat (ground arith)) h c

-- Whatever `CreateWithdrawalAndDebit` is called with, at int64 amounts, and whether it succeeds or
-- fails, books that are right stay right.
pub create_withdrawal_and_debit-IsConsistent :
    (p : Payment) (rand : ℕ → Option (List ℕ)) (now : ℤ) (db : Db)
    → IsInt64 p.amount_zat
    → IsInt64 p.fee_zat
    → IsConsistent db
    → IsConsistent (create_withdrawal_and_debit p rand now db).1
unfolding create_withdrawal_and_debit
create_withdrawal_and_debit-IsConsistent p rand now db fa ff c =
    withdraw_trimmed-IsConsistent (trim_payment p) now fa ff rand db c
