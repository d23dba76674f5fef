-- ===== src/Store/Ledger/Untouched.antt =====
-- The operations on wallets, addresses, cursors and metadata do not touch the books.
use juno_exchange_kit.Base.{ℕ, ◌≡◌, refl, inl, inr, Option, arith, Bool-cases, Option-cases}
use juno_exchange_kit.Base.Int.{ℤ, pos_part}
use juno_exchange_kit.Base.Text.{Text, is_empty, trim_space}
use juno_exchange_kit.Base.Table.{select_first}
use juno_exchange_kit.Store.Schema.{AddressRow, Db, is_wallet, is_account}
use juno_exchange_kit.Store.Exec.{wallet_not_initialized, account_not_found}
use juno_exchange_kit.Store.Wallets.{
  upsert_wallet, ensure_scan_cursor, get_scan_cursor, set_scan_cursor, set_meta, bad_index, derived,
  set_internal_index, next_internal_tx, next_internal_address,
}
use juno_exchange_kit.Store.Addresses.{
  external, is_address, insert_address, set_external_index, assign_tx,
  get_or_assign_deposit_address,
}
use juno_exchange_kit.Store.Keeps.{
  Keeps-raise_if, Keeps-read, Keeps-or_raise, Keeps-transaction_body, Keeps-bind,
}

-- The three tables that the books are made of are as they were.
pub record SameBooks (db db' : Db) : Type 0 where
  pub balances : db'.balances ≡ db.balances
  pub deposits : db'.deposits ≡ db.deposits
  pub withdrawals : db'.withdrawals ≡ db.withdrawals

pub upsert_wallet-SameBooks :
    (w u s : Text) (now : ℤ) (db : Db) → SameBooks db (upsert_wallet w u s now db).1
unfolding upsert_wallet
upsert_wallet-SameBooks w u s now db = ground arith

pub ensure_scan_cursor-SameBooks : (w : Text) (db : Db) → SameBooks db (ensure_scan_cursor w db).1
unfolding ensure_scan_cursor
ensure_scan_cursor-SameBooks w db = ground arith

pub get_scan_cursor-SameBooks : (w : Text) (db : Db) → SameBooks db (get_scan_cursor w db).1
unfolding get_scan_cursor ensure_scan_cursor
get_scan_cursor-SameBooks w db = ground arith

pub set_scan_cursor-SameBooks :
    (w : Text) (c : ℤ) (db : Db) → SameBooks db (set_scan_cursor w c db).1
unfolding set_scan_cursor
set_scan_cursor-SameBooks w c db = ground arith

pub set_meta-SameBooks : (k v : Text) (db : Db) → SameBooks db (set_meta k v db).1
unfolding set_meta
set_meta-SameBooks k v db = ground arith

derived_reads : (derive : ℕ → Option Text) (i : ℤ) (db : Db) → (derived derive i db).1 ≡ db
unfolding derived
derived_reads derive i db = elim (Option-cases (derive (pos_part i))) [
  | inl e ↦ rw e
  | inr (raw, e) ↦
      rw e (elim (Bool-cases (is_empty (trim_space raw))) [ inl f ↦ rw f | inr f ↦ rw f ])
]

set_internal_index-SameBooks :
    (w : Text) (i : ℤ) (db : Db) → SameBooks db (set_internal_index w i db)
unfolding set_internal_index
set_internal_index-SameBooks w i db = record {
  balances = refl;
  deposits = refl;
  withdrawals = refl;
}

next_internal_tx-SameBooks :
    (w : Text) (derive : ℕ → Option Text) (db : Db) → SameBooks db (next_internal_tx w derive db).1
unfolding next_internal_tx
next_internal_tx-SameBooks w derive db =
    let P = SameBooks db in
    let p : P db = record { balances = refl; deposits = refl; withdrawals = refl } in
    Keeps-or_raise P (select_first (is_wallet w) db.wallets) wallet_not_initialized _ db p λ r _.
      Keeps-raise_if P (bad_index r.next_internal_index) _ _ db p λ _.
        Keeps-read P (derived derive r.next_internal_index) _ db p
          (derived_reads derive r.next_internal_index db)
          λ addr _. set_internal_index-SameBooks w _ db

pub next_internal_address-SameBooks :
    (w : Text) (derive : ℕ → Option Text) (db : Db)
    → SameBooks db (next_internal_address w derive db).1
unfolding next_internal_address
next_internal_address-SameBooks w derive db =
    let P = SameBooks db in
    let p : P db = record { balances = refl; deposits = refl; withdrawals = refl } in
    Keeps-raise_if P (is_empty (trim_space w)) _ _ db p λ _.
      Keeps-transaction_body P (next_internal_tx (trim_space w) derive) db p
        (next_internal_tx-SameBooks (trim_space w) derive db)

insert_address-SameBooks : (r : AddressRow) (db : Db) → SameBooks db (insert_address r db).1
unfolding insert_address
insert_address-SameBooks r db = ground arith

set_external_index-SameBooks :
    (w : Text) (i : ℤ) (db mid : Db) → SameBooks db mid → SameBooks db (set_external_index w i mid)
unfolding set_external_index
set_external_index-SameBooks w i db mid p = record {
  balances = p.balances;
  deposits = p.deposits;
  withdrawals = p.withdrawals;
}

assign_tx-SameBooks :
    (a w : Text) (derive : ℕ → Option Text) (now : ℤ) (db : Db)
    → SameBooks db (assign_tx a w derive now db).1
unfolding assign_tx
assign_tx-SameBooks a w derive now db =
    let P = SameBooks db in
    let p : P db = record { balances = refl; deposits = refl; withdrawals = refl } in
    Keeps-or_raise P (select_first (is_account a) db.accounts) account_not_found _ db p λ _ _.
      Keeps-or_raise P (select_first (is_wallet w) db.wallets) wallet_not_initialized _ db p λ r _.
        Keeps-raise_if P (bad_index r.next_external_index) _ _ db p λ _.
          Keeps-read P (derived derive r.next_external_index) _ db p
            (derived_reads derive r.next_external_index db)
            λ addr _.
              Keeps-bind P (insert_address _) _ db (insert_address-SameBooks _ db)
                λ _ mid q. set_external_index-SameBooks w _ db mid q

pub get_or_assign_deposit_address-SameBooks :
    (a w : Text) (derive : ℕ → Option Text) (now : ℤ) (db : Db)
    → SameBooks db (get_or_assign_deposit_address a w derive now db).1
unfolding get_or_assign_deposit_address
get_or_assign_deposit_address-SameBooks a w derive now db =
    let P = SameBooks db in
    let p : P db = record { balances = refl; deposits = refl; withdrawals = refl } in
    let id = trim_space a in
    let wallet = trim_space w in
    Keeps-raise_if P (is_empty id) _ _ db p λ _. Keeps-raise_if P (is_empty wallet) _ _ db p λ _.
      elim (Option-cases (select_first (is_address id wallet external) db.addresses)) [
        | inl e ↦ rw e (
            Keeps-transaction_body P (assign_tx id wallet derive now) db p
              (assign_tx-SameBooks id wallet derive now db))
        | inr (r, e) ↦ rw e p
      ]
