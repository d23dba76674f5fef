-- ===== src/Store/Ledger/Balances.antt =====
-- What a change of balances does to the sum under each account.
use juno_exchange_kit.Base.{
  ◌≡◌, refl, inl, inr, some, List, [], ◌∷◌, arith, Bool-cases, Option-cases, sym, subst,
}
use juno_exchange_kit.Base.Int.{ℤ, pos, ◌+ℤ◌, ◌-ℤ◌, ◌≤ℤ◌, int_laws, parts_of_eq}
use juno_exchange_kit.Base.Word.{IsInt64, IsNat, add_int64, add_int64_nonneg}
use juno_exchange_kit.Base.Text.{Text, eq_text, eq_text_iff, trim_space}
use juno_exchange_kit.Base.Table.{
  sum_of, All, select_first, update_where, sum_of-update_where, count_where-update_where,
  All-update_where, select_first-All,
}
use juno_exchange_kit.Store.Schema.{BalanceRow, Db, is_balance}
use juno_exchange_kit.Store.Exec.{ok}
use juno_exchange_kit.Store.Accounts.{select_balance}
use juno_exchange_kit.Store.Deposits.{set_balance, with_balance, apply_account_balance_delta}
use juno_exchange_kit.Store.Ledger.{amount_at, balance_of, IsGoodBalance, GoodBalances}

-- `db'` differs from `db` in the balances alone, which are good, and account `a` gained `gain a`.
pub record BalanceChange (db db' : Db) (gain : Text → ℤ) : Type 0 where
  pub others : db' ≡ record db { balances = db'.balances }
  pub good : GoodBalances db'.balances
  pub moved : (a : Text) → balance_of a db'.balances ≡ balance_of a db.balances +ℤ gain a

amount_at-moves :
    (a x : Text) (old next before after : ℤ)
    → after +ℤ amount_at a x old ≡ before +ℤ amount_at a x next
    → after ≡ before +ℤ amount_at a x (next -ℤ old)
unfolding amount_at
amount_at-moves a x old next before after h = elim (Bool-cases (eq_text x a)) [
  | inl e ↦
      let k : after +ℤ old ≡ before +ℤ next = rw e at h in rw e (omega (int_laws, parts_of_eq k))
  | inr e ↦
      let k : after +ℤ pos 0 ≡ before +ℤ pos 0 = rw e at h in rw e (omega (int_laws, parts_of_eq k))
]

pub found_id :
    (id : Text) (r : BalanceRow) (rows : List BalanceRow)
    → select_first (is_balance id) rows ≡ some r
    → GoodBalances rows
    → r.account_id ≡ id
unfolding is_balance
found_id id r rows h g =
    (eq_text_iff r.account_id id).0
      (select_first-All IsGoodBalance (is_balance id) r rows h g.each).1

module _ (id : Text) (next now : ℤ) (r : BalanceRow) (db : Db) where
  pub set_balance_moves :
      select_first (is_balance id) db.balances ≡ some r
      → GoodBalances db.balances
      → IsInt64 next
      → IsNat next
      → BalanceChange db (set_balance id next now db) (λ a. amount_at a id (next -ℤ r.balance_zat))
  unfolding set_balance balance_of
  set_balance_moves h g fits nonneg = record {
    others = refl;
    good = record {
      each =
          All-update_where IsGoodBalance (is_balance id) (with_balance next now) db.balances
            (λ row e k. (fits, nonneg)) g.each;
      once = λ a.
          rw
            (count_where-update_where (is_balance a) (is_balance id) (with_balance next now)
              db.balances (λ row. unfold is_balance in refl))
            (g.once a);
    };
    moved = λ a. amount_at-moves a id r.balance_zat next _ _ (
        subst
          (λ x.
            balance_of a (update_where (is_balance id) (with_balance next now) db.balances)
              +ℤ amount_at a x r.balance_zat
            ≡ balance_of a db.balances +ℤ amount_at a x next)
          (found_id id r db.balances h g)
          (sum_of-update_where (λ (s : BalanceRow). amount_at a s.account_id s.balance_zat)
            (is_balance id) (with_balance next now) r db.balances h (g.once id)));
  }

-- The balance of a row that a select returned.
pub found_nonneg :
    (id : Text) (r : BalanceRow) (rows : List BalanceRow)
    → select_first (is_balance id) rows ≡ some r
    → GoodBalances rows
    → IsGoodBalance r
found_nonneg id r rows h g = (select_first-All IsGoodBalance (is_balance id) r rows h g.each).0

module _ (id : Text) (delta now : ℤ) (db : Db) where
  -- What a delta that is applied has checked and written.
  apply_account_balance_delta_ok :
      (db' : Db)
      → apply_account_balance_delta id delta now db ≡ (ok tt, db')
      → trim_space id ≡ id
      → (r : BalanceRow) × (select_first (is_balance id) db.balances ≡ some r)
        × IsNat (add_int64 r.balance_zat delta)
        × (db' ≡ set_balance id (add_int64 r.balance_zat delta) now db)
  unfolding apply_account_balance_delta select_balance
  apply_account_balance_delta_ok db' h t =
      elim (Option-cases (select_first (is_balance id) db.balances)) [
        | inl e ↦ absurd (ground arith)
        | inr (r, e) ↦ (r, e, ground arith, ground arith)
      ]

  -- A delta that is applied moves the account's balance by exactly the delta.
  pub apply_account_balance_delta_moves :
      (db' : Db)
      → apply_account_balance_delta id delta now db ≡ (ok tt, db')
      → GoodBalances db.balances
      → IsInt64 delta
      → trim_space id ≡ id
      → BalanceChange db db' (λ a. amount_at a id delta)
  apply_account_balance_delta_moves db' h g fits trimmed =
      let (r, found, nonneg, e) = apply_account_balance_delta_ok db' h trimmed in
      let (bal_fits, bal_nonneg) = found_nonneg id r db.balances found g in
      let (exact, total_fits) =
        add_int64_nonneg r.balance_zat delta bal_fits bal_nonneg fits nonneg in
      let next = add_int64 r.balance_zat delta in
      let gained : next -ℤ r.balance_zat ≡ delta = rw exact (omega int_laws) in
      subst (λ d. BalanceChange db d (λ a. amount_at a id delta)) (sym e)
        (subst (λ v. BalanceChange db (set_balance id next now db) (λ a. amount_at a id v)) gained
          (set_balance_moves id next now r db found g (subst IsInt64 (sym exact) total_fits)
            nonneg))

amount_at_nonneg : (a x : Text) (v : ℤ) → IsNat v → pos 0 ≤ℤ amount_at a x v
unfolding amount_at
amount_at_nonneg a x v h = elim (Bool-cases (eq_text x a)) [
  | inl e ↦ rw e (omega arith)
  | inr e ↦ rw e (omega arith)
]

-- Balances of zero or more add up to zero or more.
pub balance_of_nonneg :
    (a : Text) (rows : List BalanceRow) → All IsGoodBalance rows → pos 0 ≤ℤ balance_of a rows
unfolding balance_of sum_of
balance_of_nonneg a [] g = omega arith
balance_of_nonneg a (r ∷ rows) g =
    omega
      (int_laws, balance_of_nonneg a rows g.1, amount_at_nonneg a r.account_id r.balance_zat g.0.1)
