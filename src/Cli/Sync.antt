-- ===== src/Cli/Sync.antt =====
-- `syncWallet` of internal/cli/sync.go: the events of the scanner are fed to the store. The children
-- of this module are about what it keeps and that it ends.
pub mod Kept
pub mod Ends
use juno_exchange_kit.Base.{
  ℕ, ◌≡◌, true, false, Option, none, some, List, [], ◌∷◌, if◌then◌else◌, zero, suc, leb,
}
use juno_exchange_kit.Base.Int.{ℤ, pos, ltb_ℤ}
use juno_exchange_kit.Base.Word.{add_int64, sub_int64, max_int64}
use juno_exchange_kit.Base.Text.{Text}
use juno_exchange_kit.Store.Schema.{DepositStatus, detected, confirmed, unconfirmed, orphaned, Db}
use juno_exchange_kit.Store.Exec.{Error, Result, ok, err}
use juno_exchange_kit.Store.Wallets.{get_scan_cursor, set_scan_cursor}
use juno_exchange_kit.Store.Deposits.{Deposit, DepositApplyResult, apply_deposit}

-- The fields that the four payloads share.
pub record DepositPayload : Type 0 where
  pub txid : Text
  pub action_index : ℕ
  pub diversifier_index : ℕ
  pub recipient_address : Text
  pub amount_zatoshis : ℕ
  pub height : ℤ

-- An event by its kind; none is a payload that cannot be decoded, and a confirmation has the
-- confirmed height as well.
pub data WalletEvent : Type 0 where
  deposit_event deposit_unconfirmed deposit_orphaned : Option DepositPayload → WalletEvent
  deposit_confirmed : Option (DepositPayload × ℤ) → WalletEvent
  other_event : WalletEvent

pub record EventPage : Type 0 where
  pub events : List WalletEvent
  pub next_cursor : ℤ

-- The scanner: the page of a wallet behind a cursor, none where the request fails.
abbrev pub Scanner : Type 0
Scanner = Text → ℤ → Option EventPage

pub data SyncError : Type 0 where
  store_failed : Error → SyncError
  scan_failed invalid_payload out_of_fuel : SyncError

pub data Synced (A : Type 0) : Type 0 where
  synced : A → Synced A
  stopped : SyncError → Synced A

-- `syncResult`
pub record SyncResult : Type 0 where
  pub cursor : ℤ
  pub events : ℤ
  pub credits : ℤ
  pub debits : ℤ

-- `amountI64`
unfoldable pub amount_i64 : ℕ → ℤ
amount_i64 v = if leb v max_int64 then pos v else pos max_int64

unfoldable pub deposit_for : Text → DepositPayload → DepositStatus → Option ℤ → Deposit
deposit_for wallet p status confirmed_height = record {
  wallet_id = wallet;
  txid = p.txid;
  action_index = p.action_index;
  diversifier_index = p.diversifier_index;
  recipient_address = p.recipient_address;
  amount_zat = amount_i64 p.amount_zatoshis;
  height = p.height;
  status = status;
  confirmed_height = confirmed_height;
}

-- What the loop makes of the outcome of `ApplyDeposit`.
abbrev pub counted : Result DepositApplyResult × Db → (ℤ → SyncResult) → Synced SyncResult × Db
counted (ok res, db) f = (synced (f res.delta_zat), db)
counted (err e, db) f = (stopped (store_failed e), db)

abbrev pub count_event : SyncResult → SyncResult
count_event out = record out { events = add_int64 out.events (pos 1) }

unfoldable pub credit : SyncResult → ℤ → SyncResult
credit out delta =
    if ltb_ℤ (pos 0) delta then record out { credits = add_int64 out.credits delta } else out

unfoldable pub debit : SyncResult → ℤ → SyncResult
debit out delta =
    if ltb_ℤ delta (pos 0)
    then record out { debits = add_int64 out.debits (sub_int64 (pos 0) delta) }
    else out

-- One turn of the loop over a page's events.
unfoldable pub apply_event : Text → ℤ → WalletEvent → SyncResult → Db → Synced SyncResult × Db
apply_event wallet now (deposit_event none) out db = (stopped invalid_payload, db)
apply_event wallet now (deposit_event (some p)) out db =
    counted (apply_deposit (deposit_for wallet p detected none) now db) (λ delta. count_event out)
apply_event wallet now (deposit_confirmed none) out db = (stopped invalid_payload, db)
apply_event wallet now (deposit_confirmed (some (p, h))) out db =
    counted (apply_deposit (deposit_for wallet p confirmed (some h)) now db)
      (credit (count_event out))
apply_event wallet now (deposit_unconfirmed none) out db = (stopped invalid_payload, db)
apply_event wallet now (deposit_unconfirmed (some p)) out db =
    counted (apply_deposit (deposit_for wallet p unconfirmed none) now db) (debit (count_event out))
apply_event wallet now (deposit_orphaned none) out db = (stopped invalid_payload, db)
apply_event wallet now (deposit_orphaned (some p)) out db =
    counted (apply_deposit (deposit_for wallet p orphaned none) now db) (debit (count_event out))
apply_event wallet now other_event out db = (synced (count_event out), db)

-- What follows a step that went well.
abbrev pub and_then : {A B : Type 0} → Synced A × Db → (A → Db → Synced B × Db) → Synced B × Db
and_then (synced a, db) f = f a db
and_then (stopped e, db) f = (stopped e, db)

unfoldable pub apply_events : Text → ℤ → List WalletEvent → SyncResult → Db → Synced SyncResult × Db
apply_events wallet now [] out db = (synced out, db)
apply_events wallet now (ev ∷ events) out db =
    and_then (apply_event wallet now ev out db) (apply_events wallet now events)

-- The loop over the pages, for at most `fuel` of them.
unfoldable pub sync_pages : Scanner → Text → ℤ → ℕ → ℤ → SyncResult → Db → Synced SyncResult × Db
sync_pages scanner wallet now zero cursor out db = (stopped out_of_fuel, db)
sync_pages scanner wallet now (suc fuel) cursor out db = elim (scanner wallet cursor) [
  | none ↦ (stopped scan_failed, db)
  | some page ↦ elim page.events [
    | [] ↦ (synced (record out { cursor = page.next_cursor }), db)
    | ev ∷ events ↦
        and_then (apply_events wallet now (ev ∷ events) out db)
          (sync_pages scanner wallet now fuel page.next_cursor)
  ]
]

-- The call of `SetScanCursor` at the end.
abbrev pub saved : Result (Unit {0}) × Db → SyncResult → Synced SyncResult × Db
saved (ok t, db) out = (synced out, db)
saved (err e, db) out = (stopped (store_failed e), db)

abbrev pub no_events : SyncResult
no_events = record { cursor = pos 0; events = pos 0; credits = pos 0; debits = pos 0 }

abbrev pub from_cursor : Scanner → Text → ℤ → ℕ → Result ℤ × Db → Synced SyncResult × Db
from_cursor scanner wallet now fuel (err e, db) = (stopped (store_failed e), db)
from_cursor scanner wallet now fuel (ok cursor, db) =
    and_then (sync_pages scanner wallet now fuel cursor no_events db)
      (λ out db'. saved (set_scan_cursor wallet out.cursor db') out)

-- `syncWallet`
unfoldable pub sync_wallet : Scanner → Text → ℤ → ℕ → Db → Synced SyncResult × Db
sync_wallet scanner wallet now fuel db =
    from_cursor scanner wallet now fuel (get_scan_cursor wallet db)
