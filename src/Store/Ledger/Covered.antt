-- ===== src/Store/Ledger/Covered.antt =====
-- `CreateWithdrawalAndDebit` pays exactly what the balance covers.
use juno_exchange_kit.Base.{
  ◌≡◌, refl, inl, inr, true, false, some, arith, [], ◌∷◌, ◌++◌, ltb, Bool-cases, ◌⊎◌,
}
use juno_exchange_kit.Base.Int.{ℤ, pos, ltb_ℤ, ◌+ℤ◌, ◌-ℤ◌, ◌≤ℤ◌}
use juno_exchange_kit.Base.Word.{
  IsInt64, add_int64, sub_int64, add_int64_exact, sub_int64_exact, add_int64_nonneg,
  IsNat-of_nonneg,
}
use juno_exchange_kit.Base.Text.{Text, eq_text}
use juno_exchange_kit.Base.Table.{select_first, count_where}
use juno_exchange_kit.Store.Schema.{BalanceRow, WithdrawalRow, Db, is_balance}
use juno_exchange_kit.Store.Exec.{ok, err, account_not_found, amount_overflow, insufficient_balance}
use juno_exchange_kit.Store.Accounts.{select_balance}
use juno_exchange_kit.Store.Deposits.{set_balance}
use juno_exchange_kit.Store.Withdrawals.{Payment, withdrawal_row, insert_withdrawal, withdraw_tx}

ltb_of_le : (b t : ℤ) → b +ℤ pos 1 ≤ℤ t → ltb_ℤ b t ≡ true
unfolding ◌+ℤ◌
ltb_of_le b t h = ground arith

-- The database after a withdrawal that is paid.
abbrev pub paid_db : Payment → Text → ℤ → Db → BalanceRow → Db
paid_db p id now db r =
    record (set_balance p.account_id (r.balance_zat -ℤ (p.amount_zat +ℤ p.fee_zat)) now db) {
      withdrawals = db.withdrawals ++ withdrawal_row p id now ∷ [];
    }

module _ (p : Payment) (id : Text) (now : ℤ) (db : Db) (r : BalanceRow) (fa : IsInt64 p.amount_zat)
    (ff : IsInt64 p.fee_zat) (fb : IsInt64 r.balance_zat) (positive : pos 1 ≤ℤ p.amount_zat)
    (nonneg : pos 0 ≤ℤ p.fee_zat) where
  withdraw_tx_pays :
      (bal : ℤ) (total next : ℤ)
      → select_balance p.account_id account_not_found db ≡ (ok bal, db)
      → add_int64 p.amount_zat p.fee_zat ≡ total
      → sub_int64 bal total ≡ next
      → ltb_ℤ total p.amount_zat ≡ false
      → ltb_ℤ bal total ≡ false
      → ltb 0 (count_where (λ (w : WithdrawalRow). eq_text w.id id) db.withdrawals) ≡ false
      → withdraw_tx p id now db ≡ (
        ok id,
        record (set_balance p.account_id next now db) {
          withdrawals = db.withdrawals ++ withdrawal_row p id now ∷ [];
        },
      )
  unfolding withdraw_tx insert_withdrawal set_balance
  withdraw_tx_pays bal total next found e f a b fresh = rw (found, e, f, a, b, fresh) refl

  withdraw_tx_refuses :
      (bal : ℤ)
      → select_balance p.account_id account_not_found db ≡ (ok bal, db)
      → (ltb_ℤ (add_int64 p.amount_zat p.fee_zat) p.amount_zat ≡ true)
        ⊎ (ltb_ℤ bal (add_int64 p.amount_zat p.fee_zat) ≡ true)
      → (withdraw_tx p id now db ≡ (err amount_overflow, db))
        ⊎ (withdraw_tx p id now db ≡ (err insufficient_balance, db))
  unfolding withdraw_tx
  withdraw_tx_refuses bal found (inl o) = inl (rw (found, o) refl)
  withdraw_tx_refuses bal found (inr s) =
      elim (Bool-cases (ltb_ℤ (add_int64 p.amount_zat p.fee_zat) p.amount_zat)) [
        | inl o ↦ inl (rw (found, o) refl)
        | inr o ↦ inr (rw (found, o, s) refl)
      ]

  total_exact :
      p.amount_zat +ℤ p.fee_zat ≤ℤ r.balance_zat
      → add_int64 p.amount_zat p.fee_zat ≡ p.amount_zat +ℤ p.fee_zat
  total_exact h = add_int64_exact p.amount_zat p.fee_zat (unfold ◌+ℤ◌ in ground arith)

  next_exact :
      p.amount_zat +ℤ p.fee_zat ≤ℤ r.balance_zat
      → sub_int64 r.balance_zat (p.amount_zat +ℤ p.fee_zat)
        ≡ r.balance_zat -ℤ (p.amount_zat +ℤ p.fee_zat)
  next_exact h =
      sub_int64_exact r.balance_zat (p.amount_zat +ℤ p.fee_zat) (unfold ◌-ℤ◌ ◌+ℤ◌ in ground arith)

  -- A total beyond the balance is refused by one of the two tests, wrapped around or not.
  refused :
      r.balance_zat +ℤ pos 1 ≤ℤ p.amount_zat +ℤ p.fee_zat
      → (ltb_ℤ (add_int64 p.amount_zat p.fee_zat) p.amount_zat ≡ true)
        ⊎ (ltb_ℤ r.balance_zat (add_int64 p.amount_zat p.fee_zat) ≡ true)
  refused h = elim (Bool-cases (ltb_ℤ (add_int64 p.amount_zat p.fee_zat) p.amount_zat)) [
    | inl o ↦ inl o
    | inr o ↦
        let (exact, fits) =
          add_int64_nonneg p.amount_zat p.fee_zat fa (IsNat-of_nonneg p.amount_zat (omega arith)) ff
            (IsNat-of_nonneg (add_int64 p.amount_zat p.fee_zat) (ground arith)) in
        inr (rw exact (ltb_of_le r.balance_zat (p.amount_zat +ℤ p.fee_zat) h))
  ]

  -- An account has a balance. In exact integers, if the amount and the fee are within it, the
  -- transaction debits both and records the withdrawal; if they are beyond it, it fails as an overflow
  -- or for want of balance. The new id must be fresh.
  pub withdraw_tx_covered :
      select_first (is_balance p.account_id) db.balances ≡ some r
      → count_where (λ (w : WithdrawalRow). eq_text w.id id) db.withdrawals ≡ 0
      → ((p.amount_zat +ℤ p.fee_zat ≤ℤ r.balance_zat)
          × (withdraw_tx p id now db ≡ (ok id, paid_db p id now db r)))
        ⊎ ((r.balance_zat +ℤ pos 1 ≤ℤ p.amount_zat +ℤ p.fee_zat)
            × ((withdraw_tx p id now db ≡ (err amount_overflow, db))
                ⊎ (withdraw_tx p id now db ≡ (err insufficient_balance, db))))
  withdraw_tx_covered found fresh =
      let read : select_balance p.account_id account_not_found db ≡ (ok r.balance_zat, db) =
        unfold select_balance in rw found refl in
      elim (Bool-cases (ltb_ℤ r.balance_zat (p.amount_zat +ℤ p.fee_zat))) [
        | inl short ↦
            let beyond : r.balance_zat +ℤ pos 1 ≤ℤ p.amount_zat +ℤ p.fee_zat =
              unfold ◌+ℤ◌ in ground arith in
            inr (beyond, withdraw_tx_refuses r.balance_zat read (refused beyond))
        | inr within ↦
            let covered : p.amount_zat +ℤ p.fee_zat ≤ℤ r.balance_zat = ground arith in
            let above : ltb_ℤ (p.amount_zat +ℤ p.fee_zat) p.amount_zat ≡ false =
              unfold ◌+ℤ◌ in ground arith in
            inl (
              covered,
              withdraw_tx_pays r.balance_zat (p.amount_zat +ℤ p.fee_zat)
                  (r.balance_zat -ℤ (p.amount_zat +ℤ p.fee_zat)) read (total_exact covered)
                  (next_exact covered) above within (ground arith),
            )
      ]
