-- ===== src/Store/Ledger/Run.antt =====
-- Any sequence of store operations: each runs to its end, successful or not, before the next begins.
use juno_exchange_kit.Base.{ℕ, ◌≡◌, sym, subst, ap, Option, List, [], ◌∷◌, arith}
use juno_exchange_kit.Base.Int.{ℤ, pos, ◌+ℤ◌, ◌≤ℤ◌, int_laws}
use juno_exchange_kit.Base.Word.{IsInt64}
use juno_exchange_kit.Base.Text.{Text}
use juno_exchange_kit.Base.Table.{All, sum_of, count_where}
use juno_exchange_kit.Store.Schema.{Db, empty_db}
use juno_exchange_kit.Store.Accounts.{create_account}
use juno_exchange_kit.Store.Wallets.{
  upsert_wallet, ensure_scan_cursor, get_scan_cursor, set_scan_cursor, set_meta,
  next_internal_address,
}
use juno_exchange_kit.Store.Addresses.{get_or_assign_deposit_address}
use juno_exchange_kit.Store.Deposits.{Deposit, apply_deposit}
use juno_exchange_kit.Store.Withdrawals.{Payment, create_withdrawal_and_debit}
use juno_exchange_kit.Store.Ledger.{
  balance_of, withdrawn, credited, GoodBalances, GoodDeposits, IsConsistent,
}
use juno_exchange_kit.Store.Ledger.Balances.{balance_of_nonneg}
use juno_exchange_kit.Store.Ledger.Deposits.{apply_deposit-IsConsistent}
use juno_exchange_kit.Store.Ledger.Withdrawals.{create_withdrawal_and_debit-IsConsistent}
use juno_exchange_kit.Store.Ledger.Accounts.{create_account-IsConsistent}
use juno_exchange_kit.Store.Ledger.Untouched.{
  SameBooks, upsert_wallet-SameBooks, ensure_scan_cursor-SameBooks, get_scan_cursor-SameBooks,
  set_scan_cursor-SameBooks, set_meta-SameBooks, next_internal_address-SameBooks,
  get_or_assign_deposit_address-SameBooks,
}

abbrev pub Random : Type 0
Random = ℕ → Option (List ℕ)

abbrev pub Derive : Type 0
Derive = ℕ → Option Text

-- A call of an operation that writes, with what the outside gives it: random bytes, a derivation, the
-- time.
pub data Op : Type 0 where
  create : Random → ℤ → Op
  upsert : Text → Text → Text → ℤ → Op
  ensure_cursor get_cursor : Text → Op
  set_cursor : Text → ℤ → Op
  put_meta : Text → Text → Op
  assign : Text → Text → Derive → ℤ → Op
  next_internal : Text → Derive → Op
  deposit : Deposit → ℤ → Op
  withdraw : Payment → Random → ℤ → Op

-- The database after the call.
unfoldable pub apply : Op → Db → Db
apply (create rand now) db = (create_account rand now db).1
apply (upsert w u s now) db = (upsert_wallet w u s now db).1
apply (ensure_cursor w) db = (ensure_scan_cursor w db).1
apply (get_cursor w) db = (get_scan_cursor w db).1
apply (set_cursor w c) db = (set_scan_cursor w c db).1
apply (put_meta k v) db = (set_meta k v db).1
apply (assign a w derive now) db = (get_or_assign_deposit_address a w derive now db).1
apply (next_internal w derive) db = (next_internal_address w derive db).1
apply (deposit d now) db = (apply_deposit d now db).1
apply (withdraw p rand now) db = (create_withdrawal_and_debit p rand now db).1

unfoldable pub run : List Op → Db → Db
run [] db = db
run (op ∷ ops) db = run ops (apply op db)

-- The amounts that a Go caller can pass are int64 values.
abbrev pub IsTyped : Op → Type 0
IsTyped (create rand now) = Unit
IsTyped (upsert w u s now) = Unit
IsTyped (ensure_cursor w) = Unit
IsTyped (get_cursor w) = Unit
IsTyped (set_cursor w c) = Unit
IsTyped (put_meta k v) = Unit
IsTyped (assign a w derive now) = Unit
IsTyped (next_internal w derive) = Unit
IsTyped (deposit d now) = IsInt64 d.amount_zat
IsTyped (withdraw p rand now) = IsInt64 p.amount_zat × IsInt64 p.fee_zat

pub SameBooks-IsConsistent : (db db' : Db) → SameBooks db db' → IsConsistent db → IsConsistent db'
SameBooks-IsConsistent db db' s c = record {
  good_balances = subst GoodBalances (sym s.balances) c.good_balances;
  good_deposits = subst GoodDeposits (sym s.deposits) c.good_deposits;
  ledger = λ a.
      let b = ap (balance_of a) s.balances in
      let d = ap (credited a) s.deposits in
      let w = ap (withdrawn a) s.withdrawals in rw (b, d, w) (c.ledger a);
}

apply-IsConsistent : (op : Op) (db : Db) → IsTyped op → IsConsistent db → IsConsistent (apply op db)
unfolding apply
apply-IsConsistent (create rand now) db t c = create_account-IsConsistent rand now db c
apply-IsConsistent (upsert w u s now) db t c =
    SameBooks-IsConsistent db _ (upsert_wallet-SameBooks w u s now db) c
apply-IsConsistent (ensure_cursor w) db t c =
    SameBooks-IsConsistent db _ (ensure_scan_cursor-SameBooks w db) c
apply-IsConsistent (get_cursor w) db t c =
    SameBooks-IsConsistent db _ (get_scan_cursor-SameBooks w db) c
apply-IsConsistent (set_cursor w k) db t c =
    SameBooks-IsConsistent db _ (set_scan_cursor-SameBooks w k db) c
apply-IsConsistent (put_meta k v) db t c = SameBooks-IsConsistent db _ (set_meta-SameBooks k v db) c
apply-IsConsistent (assign a w derive now) db t c =
    SameBooks-IsConsistent db _ (get_or_assign_deposit_address-SameBooks a w derive now db) c
apply-IsConsistent (next_internal w derive) db t c =
    SameBooks-IsConsistent db _ (next_internal_address-SameBooks w derive db) c
apply-IsConsistent (deposit d now) db t c = apply_deposit-IsConsistent d now db t c
apply-IsConsistent (withdraw p rand now) db t c =
    create_withdrawal_and_debit-IsConsistent p rand now db t.0 t.1 c

pub empty_db-IsConsistent : IsConsistent empty_db
unfolding balance_of withdrawn credited sum_of count_where
empty_db-IsConsistent = record {
  good_balances = record { each = tt; once = λ a. omega arith };
  good_deposits = record { each = tt; once = λ w t i. omega arith };
  ledger = λ a. omega int_laws;
}

run-keeps :
    (ops : List Op) (db : Db) → All IsTyped ops → IsConsistent db → IsConsistent (run ops db)
unfolding run
run-keeps [] db t c = c
run-keeps (op ∷ ops) db t c = run-keeps ops (apply op db) t.1 (apply-IsConsistent op db t.0 c)

-- From a new store, after any sequence of calls with int64 amounts, whether they succeed or fail, what
-- an account holds and has withdrawn, fees included, is the sum of its confirmed deposits, and its
-- balance is not negative.
pub run_ledger :
    (ops : List Op) (a : Text)
    → All IsTyped ops
    → let db = run ops empty_db in
      (balance_of a db.balances +ℤ withdrawn a db.withdrawals ≡ credited a db.deposits)
      × (pos 0 ≤ℤ balance_of a db.balances)
run_ledger ops a t =
    let c = run-keeps ops empty_db t empty_db-IsConsistent in
    (c.ledger a, balance_of_nonneg a _ c.good_balances.each)
