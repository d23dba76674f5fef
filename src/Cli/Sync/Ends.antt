-- ===== src/Cli/Sync/Ends.antt =====
-- The loop of `syncWallet` ends when the scanner runs out of events.
use juno_exchange_kit.Base.{
  ℕ, ◌<◌, ◌≡◌, ◌≢◌, none, some, List, [], ◌∷◌, zero, suc, arith, Option-cases, List-cases, inl, inr,
}
use juno_exchange_kit.Base.Int.{ℤ}
use juno_exchange_kit.Base.Text.{Text}
use juno_exchange_kit.Store.Schema.{Db}
use juno_exchange_kit.Store.Exec.{Result, ok, err}
use juno_exchange_kit.Store.Wallets.{get_scan_cursor, set_scan_cursor}
use juno_exchange_kit.Store.Deposits.{DepositApplyResult}
use juno_exchange_kit.Cli.Sync.{
  WalletEvent, deposit_event, deposit_confirmed, deposit_unconfirmed, deposit_orphaned, other_event,
  EventPage, Scanner, Synced, synced, stopped, out_of_fuel, SyncResult, counted, apply_event,
  and_then, apply_events, sync_pages, saved, from_cursor, no_events, sync_wallet,
}

-- A bound on the pages with events behind a cursor, which every such page lowers.
abbrev pub Drains : Scanner → Text → (ℤ → ℕ) → Type 0
Drains scanner wallet left =
    (cursor : ℤ) (page : EventPage) (ev : WalletEvent) (events : List WalletEvent)
    → scanner wallet cursor ≡ some page
    → page.events ≡ ev ∷ events
    → left page.next_cursor < left cursor

-- A run that did not stop for want of fuel.
abbrev pub Finished : {A : Type 0} → Synced A × Db → Type 0
Finished r = r.0 ≢ stopped out_of_fuel

counted-Finished :
    (r : Result DepositApplyResult × Db) (f : ℤ → SyncResult) → Finished (counted r f)
counted-Finished (ok res, db) f = λ h. ground arith
counted-Finished (err e, db) f = λ h. ground arith

and_then-Finished :
    {A B : Type 0} (r : Synced A × Db) (f : A → Db → Synced B × Db)
    → Finished r
    → ((a : A) (db : Db) → Finished (f a db))
    → Finished (and_then r f)
and_then-Finished (synced a, db) f p h = h a db
and_then-Finished (stopped e, db) f p h = λ k. p (ground arith)

saved-Finished : (r : Result (Unit {0}) × Db) (out : SyncResult) → Finished (saved r out)
saved-Finished (ok t, db) out = λ h. ground arith
saved-Finished (err e, db) out = λ h. ground arith

module _ (wallet : Text) (now : ℤ) where
  apply_event-Finished :
      (ev : WalletEvent) (out : SyncResult) (db : Db) → Finished (apply_event wallet now ev out db)
  unfolding apply_event
  apply_event-Finished (deposit_event none) out db = λ h. ground arith
  apply_event-Finished (deposit_event (some p)) out db = counted-Finished _ _
  apply_event-Finished (deposit_confirmed none) out db = λ h. ground arith
  apply_event-Finished (deposit_confirmed (some (p, h))) out db = counted-Finished _ _
  apply_event-Finished (deposit_unconfirmed none) out db = λ h. ground arith
  apply_event-Finished (deposit_unconfirmed (some p)) out db = counted-Finished _ _
  apply_event-Finished (deposit_orphaned none) out db = λ h. ground arith
  apply_event-Finished (deposit_orphaned (some p)) out db = counted-Finished _ _
  apply_event-Finished other_event out db = λ h. ground arith

  apply_events-Finished :
      (events : List WalletEvent) (out : SyncResult) (db : Db)
      → Finished (apply_events wallet now events out db)
  unfolding apply_events
  apply_events-Finished [] out db = λ h. ground arith
  apply_events-Finished (ev ∷ events) out db =
      and_then-Finished (apply_event wallet now ev out db) (apply_events wallet now events)
        (apply_event-Finished ev out db) (apply_events-Finished events)

  sync_pages-Finished :
      (scanner : Scanner) (left : ℤ → ℕ) (fuel : ℕ) (cursor : ℤ) (out : SyncResult) (db : Db)
      → Drains scanner wallet left
      → left cursor < fuel
      → Finished (sync_pages scanner wallet now fuel cursor out db)
  unfolding sync_pages
  sync_pages-Finished scanner left zero cursor out db d enough = absurd (omega arith)
  sync_pages-Finished scanner left (suc fuel) cursor out db d enough =
      elim (Option-cases (scanner wallet cursor)) [
        | inl e ↦ rw (sync_pages, e) (λ h. ground arith)
        | inr (page, e) ↦ elim (List-cases page.events) [
          | inl f ↦ rw (sync_pages, e, f) (λ h. ground arith)
          | inr (ev, events, f) ↦
              let less = d cursor page ev events e f in
              rw (sync_pages, e, f)
                (and_then-Finished (apply_events wallet now (ev ∷ events) out db)
                  (sync_pages scanner wallet now fuel page.next_cursor)
                  (apply_events-Finished (ev ∷ events) out db)
                  (λ o b.
                    sync_pages-Finished scanner left fuel page.next_cursor o b d (omega arith)))
        ]
      ]

  from_cursor-Finished :
      (scanner : Scanner) (left : ℤ → ℕ) (fuel : ℕ) (r : Result ℤ × Db)
      → Drains scanner wallet left
      → ((cursor : ℤ) → left cursor < fuel)
      → Finished (from_cursor scanner wallet now fuel r)
  from_cursor-Finished scanner left fuel (ok cursor, db) d enough =
      and_then-Finished (sync_pages scanner wallet now fuel cursor no_events db) _
        (sync_pages-Finished scanner left fuel cursor no_events db d (enough cursor))
        (λ out db'. saved-Finished (set_scan_cursor wallet out.cursor db') out)
  from_cursor-Finished scanner left fuel (err e, db) d enough = λ h. ground arith

-- Where every page with events brings the cursor nearer to the end of the scanner's log, by a measure
-- that the fuel exceeds, `syncWallet` does not stop for want of fuel: it returns a result, or an error of
-- the store, of the scanner or of a payload.
pub sync_wallet-Finished :
    (scanner : Scanner) (wallet : Text) (now : ℤ) (left : ℤ → ℕ) (fuel : ℕ) (db : Db)
    → Drains scanner wallet left
    → ((cursor : ℤ) → left cursor < fuel)
    → Finished (sync_wallet scanner wallet now fuel db)
unfolding sync_wallet
sync_wallet-Finished scanner wallet now left fuel db d enough =
    from_cursor-Finished wallet now scanner left fuel (get_scan_cursor wallet db) d enough
