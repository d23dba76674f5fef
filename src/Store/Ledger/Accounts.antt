-- ===== src/Store/Ledger/Accounts.antt =====
-- `CreateAccount` keeps the books, and the operations on wallets, addresses, cursors and metadata do
-- not touch them.
use juno_exchange_kit.Base.{
  ℕ, ◌≤◌, ◌≡◌, refl, subst, sym, inl, inr, Option, arith, Bool-cases, List, [], ◌∷◌, ◌++◌,
}
use juno_exchange_kit.Base.Int.{ℤ, pos, int_laws}
use juno_exchange_kit.Base.Text.{Text, eq_text, eq_text_iff}
use juno_exchange_kit.Base.Table.{
  sum_of, sum_of-append, All-append, count_where, count_where-append,
}
use juno_exchange_kit.Store.Schema.{BalanceRow, Db, is_balance}
use juno_exchange_kit.Store.Exec.{ok, lift, transaction}
use juno_exchange_kit.Store.Accounts.{
  random_hex, insert_account, insert_balance, create_account_tx, create_account,
}
use juno_exchange_kit.Store.Keeps.{Keeps-read, Keeps-transaction}
use juno_exchange_kit.Store.Ledger.{amount_at, balance_of, IsGoodBalance, IsConsistent}

abbrev new_balance : Text → ℤ → BalanceRow
new_balance id now = record { account_id = id; balance_zat = pos 0; updated_at = now }

create_account_tx_ok :
    (id : Text) (now : ℤ) (db db' : Db) (res : Text)
    → create_account_tx id now db ≡ (ok res, db')
    → (count_where (is_balance id) db.balances ≡ 0)
      × (db' ≡ record db {
        accounts = db.accounts ++ record { account_id = id; created_at = now } ∷ [];
        balances = db.balances ++ new_balance id now ∷ [];
      })
unfolding create_account_tx insert_account insert_balance
create_account_tx_ok id now db db' res h = (ground arith, ground arith)

balance_of-new :
    (a id : Text) (now : ℤ) (rows : List BalanceRow)
    → balance_of a (rows ++ new_balance id now ∷ []) ≡ balance_of a rows
unfolding balance_of amount_at
balance_of-new a id now rows = rw (sum_of-append _ rows (new_balance id now ∷ [])) (
    unfold sum_of in
    elim (Bool-cases (eq_text id a)) [
      | inl e ↦ rw e (omega int_laws)
      | inr e ↦ rw e (omega int_laws)
    ])

once-new :
    (a id : Text) (now : ℤ) (rows : List BalanceRow)
    → count_where (is_balance id) rows ≡ 0
    → count_where (is_balance a) rows ≤ 1
    → count_where (is_balance a) (rows ++ new_balance id now ∷ []) ≤ 1
once-new a id now rows fresh h = elim (Bool-cases (eq_text id a)) [
  | inl e ↦
      let same : id ≡ a = (eq_text_iff id a).0 e in
      let none_yet : count_where (is_balance a) rows ≡ 0 =
        subst (λ v. count_where (is_balance v) rows ≡ 0) same fresh in
      rw (count_where-append (is_balance a) rows (new_balance id now ∷ []))
        (unfold count_where is_balance in rw e (omega (arith, none_yet)))
  | inr e ↦
      rw (count_where-append (is_balance a) rows (new_balance id now ∷ []))
        (unfold count_where is_balance in rw e (omega arith))
]

create_account_tx-IsConsistent :
    (id : Text) (now : ℤ) (db db' : Db) (res : Text)
    → create_account_tx id now db ≡ (ok res, db')
    → IsConsistent db
    → IsConsistent db'
create_account_tx-IsConsistent id now db db' res h c =
    let (fresh, e) = create_account_tx_ok id now db db' res h in
    subst IsConsistent (sym e) (record {
      good_balances = record {
        each =
            All-append IsGoodBalance db.balances (new_balance id now ∷ []) c.good_balances.each
              (omega arith);
        once = λ a. once-new a id now db.balances fresh (c.good_balances.once a);
      };
      good_deposits = c.good_deposits;
      ledger = λ a. rw (balance_of-new a id now db.balances) (c.ledger a);
    })

-- Whether `CreateAccount` succeeds or fails, the books stay right.
pub create_account-IsConsistent :
    (rand : ℕ → Option (List ℕ)) (now : ℤ) (db : Db)
    → IsConsistent db
    → IsConsistent (create_account rand now db).1
unfolding create_account
create_account-IsConsistent rand now db c =
    Keeps-read IsConsistent (lift (random_hex (pos 16) rand))
      (λ id. transaction (create_account_tx id now)) db c refl
      λ id _.
        Keeps-transaction IsConsistent (create_account_tx id now) db c
          λ res db' h. create_account_tx-IsConsistent id now db db' res h c
