-- ===== src/Store/Ledger/Rows.antt =====
-- What `ApplyDeposit` writes into the deposits, and what it does to the sums of credits.
use juno_exchange_kit.Base.{
  ℕ, ◌≤◌, ◌≡◌, refl, subst, sym, inl, inr, true, Option, none, some, List, [], ◌∷◌, ◌++◌, arith,
  Bool-cases, ==_iff,
}
use juno_exchange_kit.Base.Int.{ℤ, pos, ◌+ℤ◌, ◌≤ℤ◌, int_laws}
use juno_exchange_kit.Base.Word.{IsInt64}
use juno_exchange_kit.Base.Text.{
  Text, is_empty, eq_text_iff, trim_space, trim_space_idem, trim_space-nil,
}
use juno_exchange_kit.Base.Table.{
  sum_of, sum_of-append, All-append, count_where, count_where-append, count_where-none,
  count_where-update_where, All-update_where, select_first, sum_of-update_where, select_first-All,
}
use juno_exchange_kit.Store.Schema.{DepositRow, Db, is_confirmed, is_deposit}
use juno_exchange_kit.Store.Deposits.{
  Deposit, null_if_empty, text_or_empty, prev_status, prev_account, prev_amount, deposit_row,
  updated_row, write_deposit,
}
use juno_exchange_kit.Store.Ledger.{credit_of, credited, IsGoodAccount, IsGoodDeposit, GoodDeposits}
use juno_exchange_kit.Store.Ledger.Gains.{worth}

empty-eq : (s : Text) → is_empty s ≡ true → s ≡ []
empty-eq [] h = refl
empty-eq (c ∷ s) h = cc

pub null_if_empty-text : (x : Text) → text_or_empty (null_if_empty x) ≡ trim_space x
unfolding null_if_empty
null_if_empty-text x = elim (Bool-cases (is_empty (trim_space x))) [
  | inl e ↦ rw e (sym (empty-eq (trim_space x) e))
  | inr e ↦ rw e
]

null_if_empty-good : (x : Text) → IsGoodAccount (null_if_empty x)
unfolding null_if_empty
null_if_empty-good x = elim (Bool-cases (is_empty (trim_space x))) [
  | inl e ↦ rw e tt
  | inr e ↦ rw e (trim_space_idem x, e)
]

good_account-text :
    (o : Option Text) → IsGoodAccount o → trim_space (text_or_empty o) ≡ text_or_empty o
good_account-text none h = trim_space-nil
good_account-text (some x) h = h.0

module _ (d : Deposit) (x : Text) (now : ℤ) (a : Text) (trimmed : trim_space x ≡ x) where
  deposit_row-worth : credit_of a (deposit_row d x now) ≡ worth a d.status x d.amount_zat
  unfolding credit_of deposit_row
  deposit_row-worth = rw (null_if_empty-text x) (rw trimmed)

  updated_row-worth :
      (r : DepositRow) → credit_of a (updated_row d x now r) ≡ worth a d.status x d.amount_zat
  unfolding credit_of updated_row
  updated_row-worth r = rw (null_if_empty-text x) (rw trimmed)

-- What the row found before was worth.
abbrev pub prev_worth : Text → Option DepositRow → ℤ
prev_worth a prev = worth a (prev_status prev) (prev_account prev) (prev_amount prev)

credit_of-prev :
    (a : Text) (r : DepositRow) → IsGoodDeposit r → credit_of a r ≡ prev_worth a (some r)
unfolding credit_of prev_account
credit_of-prev a r g = rw (good_account-text r.account_id g.2)

module _ (d : Deposit) (x : Text) (now : ℤ) (trimmed : trim_space x ≡ x) where
  -- Writing the row adds what it is worth, and takes back what it was worth.
  pub write_deposit-credited :
      (prev : Option DepositRow) (db : Db)
      → select_first (is_deposit d.wallet_id d.txid d.action_index) db.deposits ≡ prev
      → GoodDeposits db.deposits
      → (a : Text)
      → credited a (write_deposit d x now prev db).deposits +ℤ prev_worth a prev
        ≡ credited a db.deposits +ℤ worth a d.status x d.amount_zat
  unfolding write_deposit credited
  write_deposit-credited none db h g a =
      rw (sum_of-append (credit_of a) db.deposits (deposit_row d x now ∷ []))
        (unfold sum_of is_confirmed in rw (deposit_row-worth d x now a trimmed) (omega int_laws))
  write_deposit-credited (some r) db h g a =
      let is_key = is_deposit d.wallet_id d.txid d.action_index in
      let good = select_first-All IsGoodDeposit is_key r db.deposits h g.each in
      let moved =
        sum_of-update_where (credit_of a) is_key (updated_row d x now) r db.deposits h
          (g.once d.wallet_id d.txid d.action_index) in
      rw (← credit_of-prev a r good.0, ← updated_row-worth d x now a trimmed r) moved

is_deposit-keys :
    (w t : Text) (i : ℕ) (r : DepositRow)
    → is_deposit w t i r ≡ true
    → (r.wallet_id ≡ w) × (r.txid ≡ t) × (r.action_index ≡ i)
unfolding is_deposit
is_deposit-keys w t i r h = (
  (eq_text_iff r.wallet_id w).0 (ground arith),
  (eq_text_iff r.txid t).0 (ground arith),
  (==_iff r.action_index i).0 (ground arith),
)

-- A row whose key no row has can be added.
once-append :
    (row : DepositRow) (rows : List DepositRow)
    → select_first (is_deposit row.wallet_id row.txid row.action_index) rows ≡ none
    → (w t : Text) (i : ℕ) → count_where (is_deposit w t i) rows ≤ 1
    → count_where (is_deposit w t i) (rows ++ row ∷ []) ≤ 1
once-append row rows h w t i k = elim (Bool-cases (is_deposit w t i row)) [
  | inl e ↦
      let (ew, et, ei) = is_deposit-keys w t i row e in
      let fresh : count_where (is_deposit w t i) rows ≡ 0 =
        subst (λ v. count_where (is_deposit v t i) rows ≡ 0) ew
          (subst (λ v. count_where (is_deposit row.wallet_id v i) rows ≡ 0) et
            (subst (λ v. count_where (is_deposit row.wallet_id row.txid v) rows ≡ 0) ei
              (count_where-none _ rows h))) in
      rw (count_where-append (is_deposit w t i) rows (row ∷ []))
        (unfold count_where in rw e (omega (arith, fresh)))
  | inr e ↦
      rw (count_where-append (is_deposit w t i) rows (row ∷ []))
        (unfold count_where in rw e (omega arith))
]

module _ (d : Deposit) (x : Text) (now : ℤ) (fits : IsInt64 d.amount_zat) where
  -- The rows stay good, and no key is written twice.
  pub write_deposit-good :
      (prev : Option DepositRow) (db : Db)
      → pos 1 ≤ℤ d.amount_zat
      → select_first (is_deposit d.wallet_id d.txid d.action_index) db.deposits ≡ prev
      → GoodDeposits db.deposits
      → GoodDeposits (write_deposit d x now prev db).deposits
  unfolding write_deposit
  write_deposit-good none db positive h g = record {
    each =
        All-append IsGoodDeposit db.deposits (deposit_row d x now ∷ []) g.each
          (unfold deposit_row in ((fits, positive, null_if_empty-good x), tt));
    once = λ w t i.
        once-append (deposit_row d x now) db.deposits (unfold deposit_row in h) w t i
          (g.once w t i);
  }
  write_deposit-good (some r) db positive h g =
      let is_key = is_deposit d.wallet_id d.txid d.action_index in
      record {
        each =
            All-update_where IsGoodDeposit is_key (updated_row d x now) db.deposits
              (λ row e k. unfold updated_row in (fits, positive, null_if_empty-good x)) g.each;
        once = λ w t i.
            rw
              (count_where-update_where (is_deposit w t i) is_key (updated_row d x now) db.deposits
                (λ row. unfold is_deposit updated_row in refl))
              (g.once w t i);
      }

pub prev_good :
    (d : Deposit) (prev : Option DepositRow) (db : Db)
    → select_first (is_deposit d.wallet_id d.txid d.action_index) db.deposits ≡ prev
    → GoodDeposits db.deposits
    → IsInt64 (prev_amount prev)
      × (pos 0 ≤ℤ prev_amount prev)
      × (trim_space (prev_account prev) ≡ prev_account prev)
unfolding prev_account
prev_good d none db h g = (omega arith, omega arith, trim_space-nil)
prev_good d (some r) db h g =
    let good =
      select_first-All IsGoodDeposit (is_deposit d.wallet_id d.txid d.action_index) r db.deposits h
        g.each in
    (good.0.0, omega (arith, good.0.1), trim_space_idem (text_or_empty r.account_id))
