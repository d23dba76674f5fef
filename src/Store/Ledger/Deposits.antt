-- ===== src/Store/Ledger/Deposits.antt =====
-- `ApplyDeposit` keeps the books.
use juno_exchange_kit.Base.{
  ◌≡◌, refl, subst, sym, ap, inl, inr, false, not, ◌&&◌, ◌||◌, Option, none, some, arith,
  Bool-cases, ◌∙◌, List,
}
use juno_exchange_kit.Base.Int.{ℤ, pos, ltb_ℤ, ◌+ℤ◌, ◌≤ℤ◌, int_laws, parts_of_eq}
use juno_exchange_kit.Base.Word.{IsInt64}
use juno_exchange_kit.Base.Text.{Text, is_empty, trim_space}
use juno_exchange_kit.Base.Table.{select_first}
use juno_exchange_kit.Store.Schema.{DepositRow, Db, is_deposit, is_known}
use juno_exchange_kit.Store.Exec.{Result, ok, >>=_ok, pure}
use juno_exchange_kit.Store.Deposits.{
  Deposit, DepositApplyResult, BalanceDelta, kept_account, prev_account, prev_status, prev_amount,
  write_deposit, balance_deltas, apply_deltas, apply_deposit_tx, apply_trimmed, apply_deposit,
  resolve_account, trim_deposit,
}
use juno_exchange_kit.Store.Ledger.{
  balance_of, withdrawn, credited, GoodBalances, GoodDeposits, IsConsistent,
}
use juno_exchange_kit.Store.Ledger.Balances.{BalanceChange}
use juno_exchange_kit.Store.Ledger.Deltas.{gain_of, apply_deltas_moves}
use juno_exchange_kit.Store.Ledger.Gains.{balance_deltas_gain, balance_deltas-good, debit_exact}
use juno_exchange_kit.Store.Keeps.{Keeps, Keeps-raise_if, Keeps-read, Keeps-transaction}
use juno_exchange_kit.Store.Ledger.Lookups.{resolve_account_reads}
use juno_exchange_kit.Store.Ledger.Rows.{
  prev_worth, prev_good, write_deposit-credited, write_deposit-good,
}

kept_account-trimmed :
    (recipient prev found : Text)
    → trim_space prev ≡ prev
    → trim_space found ≡ found
    → trim_space (kept_account recipient prev found) ≡ kept_account recipient prev found
unfolding kept_account
kept_account-trimmed recipient prev found h k =
    elim (Bool-cases (is_empty recipient && not (is_empty prev))) [
      | inl e ↦ rw e h
      | inr e ↦ rw e k
    ]

-- The balances moved by the gains, the deposits by the same: the books still agree.
IsConsistent-step :
    (db mid db' : Db) (gain : Text → ℤ)
    → IsConsistent db
    → mid.balances ≡ db.balances
    → mid.withdrawals ≡ db.withdrawals
    → GoodDeposits mid.deposits
    → ((a : Text) → credited a mid.deposits ≡ credited a db.deposits +ℤ gain a)
    → BalanceChange mid db' gain
    → IsConsistent db'
IsConsistent-step db mid db' gain c eb ew gd ec change =
    let same_deposits = ap (λ (x : Db). x.deposits) change.others in
    let same_withdrawals = ap (λ (x : Db). x.withdrawals) change.others ∙ ew in
    record {
      good_balances = change.good;
      good_deposits = subst GoodDeposits (sym same_deposits) gd;
      ledger = λ a.
          let w = ap (withdrawn a) same_withdrawals in
          let d = ap (credited a) same_deposits in
          let b = ap (balance_of a) eb in
          rw (w, d, ec a, change.moved a, b) (omega (int_laws, parts_of_eq (c.ledger a)));
    }

gain_swap : (g p w c d : ℤ) → g +ℤ p ≡ w → c +ℤ p ≡ d +ℤ w → c ≡ d +ℤ g
gain_swap g p w c d h k = omega (int_laws, parts_of_eq h, parts_of_eq k)

pure_ok : {A : Type 0} (a : A) (db : Db) (b : A) (db' : Db) → pure a db ≡ (ok b, db') → db ≡ db'
pure_ok a db b db' h = ground arith

-- The row found, the account chosen and the deltas of a call.
abbrev pub found_row : Deposit → Db → Option DepositRow
found_row d db = select_first (is_deposit d.wallet_id d.txid d.action_index) db.deposits

abbrev pub chosen_account : Deposit → Text → Db → Text
chosen_account d found db = kept_account d.recipient_address (prev_account (found_row d db)) found

abbrev pub chosen_deltas : Deposit → Text → Db → List BalanceDelta
chosen_deltas d found db =
    let prev = found_row d db in
    balance_deltas (prev_status prev) (prev_account prev) (prev_amount prev) d.status
      (chosen_account d found db) d.amount_zat

module _ (d : Deposit) (now : ℤ) where
  pub write_deposit-others :
      (account : Text) (prev : Option DepositRow) (db : Db)
      → ((write_deposit d account now prev db).balances ≡ db.balances)
        × ((write_deposit d account now prev db).withdrawals ≡ db.withdrawals)
        × ((write_deposit d account now prev db).addresses ≡ db.addresses)
  unfolding write_deposit
  write_deposit-others account none db = (refl, refl, refl)
  write_deposit-others account (some r) db = (refl, refl, refl)

  unfoldable pub written_db : Text → Db → Db
  written_db found db = write_deposit d (chosen_account d found db) now (found_row d db) db

module _ (d : Deposit) (now : ℤ) (found : Text) (db : Db) (trimmed : trim_space found ≡ found)
    (c : IsConsistent db) where
  pub chosen_account-trimmed : trim_space (chosen_account d found db) ≡ chosen_account d found db
  chosen_account-trimmed =
      kept_account-trimmed d.recipient_address (prev_account (found_row d db)) found
        (prev_good d (found_row d db) db refl c.good_deposits).2 trimmed

  -- What a call that commits has done to the balances, and the account that it reports.
  pub apply_deposit_tx_change :
      (db' : Db) (res : DepositApplyResult)
      → IsInt64 d.amount_zat
      → apply_deposit_tx d found now db ≡ (ok res, db')
      → BalanceChange (written_db d now found db) db' (λ a. gain_of a (chosen_deltas d found db))
        × (res.account_id ≡ chosen_account d found db)
  unfolding apply_deposit_tx written_db
  apply_deposit_tx_change db' res fits h =
      let prev = found_row d db in
      let account = chosen_account d found db in
      let (prev_fits, prev_nonneg, prev_trimmed) = prev_good d prev db refl c.good_deposits in
      let (exact, debit_fits) = debit_exact (prev_amount prev) prev_fits prev_nonneg in
      let mid = write_deposit d account now prev db in
      let deltas = chosen_deltas d found db in
      let (sum, end, applied, last) =
        >>=_ok (apply_deltas deltas (pos 0) now)
          (λ s. pure (record { account_id = account; delta_zat = s })) mid h in
      let change =
        apply_deltas_moves deltas (pos 0) now sum mid end applied
          (subst GoodBalances (sym (write_deposit-others d now account prev db).0) c.good_balances)
          (balance_deltas-good (prev_status prev) d.status (prev_account prev) account
            (prev_amount prev) d.amount_zat prev_trimmed chosen_account-trimmed debit_fits fits) in
      (
        subst (λ e. BalanceChange mid e (λ a. gain_of a deltas)) (pure_ok _ end res db' last)
            change,
        ground arith,
      )

  -- The credits move by what the deltas move the balances.
  written_db-credited :
      (a : Text)
      → credited a (written_db d now found db).deposits
        ≡ credited a db.deposits +ℤ gain_of a (chosen_deltas d found db)
  unfolding written_db
  written_db-credited a =
      let prev = found_row d db in
      let account = chosen_account d found db in
      let (prev_fits, prev_nonneg, prev_trimmed) = prev_good d prev db refl c.good_deposits in
      let (exact, debit_fits) = debit_exact (prev_amount prev) prev_fits prev_nonneg in
      gain_swap (gain_of a (chosen_deltas d found db)) (prev_worth a prev) _ _
        (credited a db.deposits)
        (balance_deltas_gain a (prev_account prev) account (prev_amount prev) d.amount_zat
          (prev_status prev) d.status exact)
        (write_deposit-credited d account now chosen_account-trimmed prev db refl c.good_deposits a)

  -- The transaction of `ApplyDeposit` keeps the books when it commits.
  pub apply_deposit_tx-IsConsistent :
      (db' : Db) (res : DepositApplyResult)
      → IsInt64 d.amount_zat
      → pos 1 ≤ℤ d.amount_zat
      → apply_deposit_tx d found now db ≡ (ok res, db')
      → IsConsistent db'
  unfolding written_db
  apply_deposit_tx-IsConsistent db' res fits positive h =
      let prev = found_row d db in
      let account = chosen_account d found db in
      let (same_balances, same_withdrawals, _) = write_deposit-others d now account prev db in
      IsConsistent-step db (written_db d now found db) db'
        (λ a. gain_of a (chosen_deltas d found db)) c same_balances same_withdrawals
        (write_deposit-good d account now fits prev db positive refl c.good_deposits)
        written_db-credited (apply_deposit_tx_change db' res fits h).0

-- The order test of the source against the order of integers.
pub positive_of_test : (a : ℤ) → not (ltb_ℤ (pos 0) a) ≡ false → pos 1 ≤ℤ a
positive_of_test a h = ground arith

module _ (d : Deposit) (now : ℤ) (fits : IsInt64 d.amount_zat) where
  apply_trimmed-IsConsistent :
      (db : Db) → IsConsistent db → Keeps IsConsistent (apply_trimmed d now) db
  unfolding apply_trimmed
  apply_trimmed-IsConsistent db c =
      Keeps-raise_if IsConsistent (is_empty d.wallet_id || is_empty d.txid) _ _ db c λ _.
        Keeps-raise_if IsConsistent (not (ltb_ℤ (pos 0) d.amount_zat)) _ _ db c λ positive.
          Keeps-raise_if IsConsistent (ltb_ℤ d.height (pos 0)) _ _ db c λ _.
            Keeps-raise_if IsConsistent (not (is_known d.status)) _ _ db c λ _.
              Keeps-read IsConsistent (resolve_account d) _ db c (resolve_account_reads d db).0
                λ found e.
                  Keeps-transaction IsConsistent (apply_deposit_tx d found now) db c λ res db' h.
                    apply_deposit_tx-IsConsistent d now found db
                      ((resolve_account_reads d db).1 found (ap (λ (r : Result Text × Db). r.0) e))
                      c db' res fits (positive_of_test d.amount_zat positive) h

-- Whatever `ApplyDeposit` is called with, at an int64 amount, and whether it succeeds or fails, books
-- that are right stay right.
pub apply_deposit-IsConsistent :
    (d : Deposit) (now : ℤ) (db : Db)
    → IsInt64 d.amount_zat
    → IsConsistent db
    → IsConsistent (apply_deposit d now db).1
unfolding apply_deposit
apply_deposit-IsConsistent d now db fits c =
    apply_trimmed-IsConsistent (trim_deposit d) now fits db c
