-- ===== src/Cli/Sync/Kept.antt =====
-- A run of `syncWallet` keeps the store's books.
use juno_exchange_kit.Base.{
  ℕ, none, some, List, [], ◌∷◌, zero, suc, arith, Option-cases, List-cases, inl, inr, Option,
}
use juno_exchange_kit.Base.Int.{ℤ}
use juno_exchange_kit.Base.Word.{IsInt64}
use juno_exchange_kit.Base.Text.{Text}
use juno_exchange_kit.Store.Schema.{DepositStatus, Db}
use juno_exchange_kit.Store.Exec.{Result, ok, err}
use juno_exchange_kit.Store.Wallets.{get_scan_cursor, set_scan_cursor}
use juno_exchange_kit.Store.Deposits.{DepositApplyResult, apply_deposit}
use juno_exchange_kit.Store.Ledger.{IsConsistent}
use juno_exchange_kit.Store.Ledger.Deposits.{apply_deposit-IsConsistent}
use juno_exchange_kit.Store.Ledger.Untouched.{get_scan_cursor-SameBooks, set_scan_cursor-SameBooks}
use juno_exchange_kit.Store.Ledger.Run.{SameBooks-IsConsistent}
use juno_exchange_kit.Cli.Sync.{
  DepositPayload, WalletEvent, deposit_event, deposit_confirmed, deposit_unconfirmed,
  deposit_orphaned, other_event, Scanner, Synced, synced, stopped, SyncResult, amount_i64,
  deposit_for, counted, apply_event, and_then, apply_events, sync_pages, saved, from_cursor,
  no_events, sync_wallet,
}

amount_i64-IsInt64 : (v : ℕ) → IsInt64 (amount_i64 v)
unfolding amount_i64
amount_i64-IsInt64 v = ground arith

counted-db :
    (P : Db → Type 0) (r : Result DepositApplyResult × Db) (f : ℤ → SyncResult)
    → P r.1
    → P (counted r f).1
counted-db P (ok res, db) f p = p
counted-db P (err e, db) f p = p

and_then-keeps :
    {A B : Type 0} (P : Db → Type 0) (r : Synced A × Db) (f : A → Db → Synced B × Db)
    → P r.1
    → ((a : A) (db : Db) → P db → P (f a db).1)
    → P (and_then r f).1
and_then-keeps P (synced a, db) f p h = h a db p
and_then-keeps P (stopped e, db) f p h = p

saved-db :
    (P : Db → Type 0) (r : Result (Unit {0}) × Db) (out : SyncResult) → P r.1 → P (saved r out).1
saved-db P (ok t, db) out p = p
saved-db P (err e, db) out p = p

module _ (wallet : Text) (now : ℤ) where
  applied-IsConsistent :
      (p : DepositPayload) (status : DepositStatus) (h : Option ℤ) (db : Db)
      → IsConsistent db
      → IsConsistent (apply_deposit (deposit_for wallet p status h) now db).1
  unfolding deposit_for
  applied-IsConsistent p status h db c =
      apply_deposit-IsConsistent (deposit_for wallet p status h) now db
        (amount_i64-IsInt64 p.amount_zatoshis) c

  apply_event-IsConsistent :
      (ev : WalletEvent) (out : SyncResult) (db : Db)
      → IsConsistent db
      → IsConsistent (apply_event wallet now ev out db).1
  unfolding apply_event
  apply_event-IsConsistent (deposit_event none) out db c = c
  apply_event-IsConsistent (deposit_event (some p)) out db c =
      counted-db IsConsistent _ _ (applied-IsConsistent p _ none db c)
  apply_event-IsConsistent (deposit_confirmed none) out db c = c
  apply_event-IsConsistent (deposit_confirmed (some (p, h))) out db c =
      counted-db IsConsistent _ _ (applied-IsConsistent p _ (some h) db c)
  apply_event-IsConsistent (deposit_unconfirmed none) out db c = c
  apply_event-IsConsistent (deposit_unconfirmed (some p)) out db c =
      counted-db IsConsistent _ _ (applied-IsConsistent p _ none db c)
  apply_event-IsConsistent (deposit_orphaned none) out db c = c
  apply_event-IsConsistent (deposit_orphaned (some p)) out db c =
      counted-db IsConsistent _ _ (applied-IsConsistent p _ none db c)
  apply_event-IsConsistent other_event out db c = c

  apply_events-IsConsistent :
      (events : List WalletEvent) (out : SyncResult) (db : Db)
      → IsConsistent db
      → IsConsistent (apply_events wallet now events out db).1
  unfolding apply_events
  apply_events-IsConsistent [] out db c = c
  apply_events-IsConsistent (ev ∷ events) out db c =
      and_then-keeps IsConsistent (apply_event wallet now ev out db)
        (apply_events wallet now events) (apply_event-IsConsistent ev out db c)
        (apply_events-IsConsistent events)

  sync_pages-IsConsistent :
      (scanner : Scanner) (fuel : ℕ) (cursor : ℤ) (out : SyncResult) (db : Db)
      → IsConsistent db
      → IsConsistent (sync_pages scanner wallet now fuel cursor out db).1
  unfolding sync_pages
  sync_pages-IsConsistent scanner zero cursor out db c = c
  sync_pages-IsConsistent scanner (suc fuel) cursor out db c =
      elim (Option-cases (scanner wallet cursor)) [
        | inl e ↦ rw (sync_pages, e) c
        | inr (page, e) ↦ elim (List-cases page.events) [
          | inl f ↦ rw (sync_pages, e, f) c
          | inr (ev, events, f) ↦
              rw (sync_pages, e, f)
                (and_then-keeps IsConsistent (apply_events wallet now (ev ∷ events) out db)
                  (sync_pages scanner wallet now fuel page.next_cursor)
                  (apply_events-IsConsistent (ev ∷ events) out db c)
                  (sync_pages-IsConsistent scanner fuel page.next_cursor))
        ]
      ]

  from_cursor-IsConsistent :
      (scanner : Scanner) (fuel : ℕ) (r : Result ℤ × Db)
      → IsConsistent r.1
      → IsConsistent (from_cursor scanner wallet now fuel r).1
  from_cursor-IsConsistent scanner fuel (ok cursor, db) c =
      and_then-keeps IsConsistent (sync_pages scanner wallet now fuel cursor no_events db) _
        (sync_pages-IsConsistent scanner fuel cursor no_events db c)
        (λ out db' c'.
          saved-db IsConsistent (set_scan_cursor wallet out.cursor db') out
            (SameBooks-IsConsistent db' _ (set_scan_cursor-SameBooks wallet out.cursor db') c'))
  from_cursor-IsConsistent scanner fuel (err e, db) c = c

-- Whatever the scanner answers, and wherever a run of `syncWallet` stops, the books stay right.
pub sync_wallet-IsConsistent :
    (scanner : Scanner) (wallet : Text) (now : ℤ) (fuel : ℕ) (db : Db)
    → IsConsistent db
    → IsConsistent (sync_wallet scanner wallet now fuel db).1
unfolding sync_wallet
sync_wallet-IsConsistent scanner wallet now fuel db c =
    from_cursor-IsConsistent wallet now scanner fuel (get_scan_cursor wallet db)
      (SameBooks-IsConsistent db _ (get_scan_cursor-SameBooks wallet db) c)
