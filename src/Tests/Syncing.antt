-- ===== src/Tests/Syncing.antt =====
-- A scanner with one page of events.
use juno_exchange_kit.Base.{◌<◌, ℕ, some, [], ◌∷◌, List, if◌then◌else◌, arith}
use juno_exchange_kit.Base.Int.{ℤ, pos, ltb_ℤ}
use juno_exchange_kit.Base.Text.{codes}
use juno_exchange_kit.Store.Ledger.{IsConsistent}
use juno_exchange_kit.Cli.Sync.{
  DepositPayload, WalletEvent, deposit_event, deposit_confirmed, other_event, EventPage, Scanner,
  sync_wallet,
}
use juno_exchange_kit.Cli.Sync.Kept.{sync_wallet-IsConsistent}
use juno_exchange_kit.Cli.Sync.Ends.{Drains, Finished, sync_wallet-Finished}
use juno_exchange_kit.Tests.Ledger.{hot, txid_one, demo_db, demo_db-IsConsistent}

abbrev demo_payload : DepositPayload
demo_payload = record {
  txid = txid_one;
  action_index = 0;
  diversifier_index = 0;
  recipient_address = codes "u1alice";
  amount_zatoshis = 70000;
  height = pos 100;
}

abbrev demo_events : List WalletEvent
demo_events =
    deposit_event (some demo_payload)
    ∷ other_event
    ∷ deposit_confirmed (some (demo_payload, pos 110))
    ∷ []

abbrev page_with : List WalletEvent → EventPage
page_with events = record { events = events; next_cursor = pos 1 }

abbrev pub demo_scanner : Scanner
demo_scanner wallet cursor = some (page_with (if ltb_ℤ cursor (pos 1) then demo_events else []))

abbrev demo_left : ℤ → ℕ
demo_left cursor = if ltb_ℤ cursor (pos 1) then 1 else 0

demo_scanner-Drains : Drains demo_scanner hot demo_left
demo_scanner-Drains cursor page ev events h k = ground arith

demo_left-below : (cursor : ℤ) → demo_left cursor < 2
demo_left-below cursor = ground arith

sync_wallet-IsConsistent_example : IsConsistent (sync_wallet demo_scanner hot (pos 9) 2 demo_db).1
sync_wallet-IsConsistent_example =
    sync_wallet-IsConsistent demo_scanner hot (pos 9) 2 demo_db demo_db-IsConsistent

sync_wallet-Finished_example : Finished (sync_wallet demo_scanner hot (pos 9) 2 demo_db)
sync_wallet-Finished_example =
    sync_wallet-Finished demo_scanner hot (pos 9) demo_left 2 demo_db demo_scanner-Drains
      demo_left-below
