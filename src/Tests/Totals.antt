-- ===== src/Tests/Totals.antt =====
-- Sums, amounts and the wait for a deposit.
use juno_exchange_kit.Cli.Sync.{
  amount_i64, apply_event, apply_events, credit, debit, deposit_for, sync_pages, sync_wallet,
}
use juno_exchange_kit.Store.Wallets.{
  get_scan_cursor, put_cursor, set_scan_cursor, ensure_scan_cursor,
}
use juno_exchange_kit.Store.Deposits.{
  apply_account_balance_delta, apply_deltas, apply_deposit, apply_deposit_tx, apply_trimmed,
  balance_deltas, delta_of, deposit_row, kept_account, null_if_empty, prev_account, resolve_account,
  set_balance, updated_row, write_deposit,
}
use juno_exchange_kit.Store.Addresses.{
  account_for_recipient_address, eq_ℤ, is_recipient, mapped_account,
}
use juno_exchange_kit.Store.Exec.{transaction}
use juno_exchange_kit.Base.Word.{add_int64, sub_int64, wrap_int64}
use juno_exchange_kit.Store.Accounts.{account_balance, select_balance}
use juno_exchange_kit.Base.Table.{select_first, update_where}
use juno_exchange_kit.Store.Schema.{is_balance, is_confirmed, is_cursor, is_deposit, is_known}
use juno_exchange_kit.Base.{◌≡◌, ◌⊎◌, suc, refl, true, some, [], ℕ, ◌∷◌, arith}
use juno_exchange_kit.Base.Int.{ℤ, pos, negsuc, ◌+ℤ◌, ◌≤ℤ◌, ◌-ℤ◌}
use juno_exchange_kit.Base.Text.{
  codes, eq_text, is_space, lower_char, to_lower, trim_left, trim_right, trim_space,
}
use juno_exchange_kit.Cli.Command.{World, returned, exited, amount_overflow, insufficient_for_fee}
use juno_exchange_kit.Cli.Withdraw.{check_total}
use juno_exchange_kit.Cli.Withdraw.Offer.{IsBest, check_total_covers}
use juno_exchange_kit.Cli.Balances.{wallet_balance_summary, wallet_balance}
use juno_exchange_kit.Cli.Balances.Exact.{exact_balance, balances_exact}
use juno_exchange_kit.Cli.Juno.{format_juno}
use juno_exchange_kit.Cli.Juno.Value.{juno_value, format_juno_exact}
use juno_exchange_kit.Cli.Account.{
  Waiting, Waited, wait_loop, print_deposit_updates, sync_hot, tip_of,
}
use juno_exchange_kit.Cli.Account.Wait.{Reached, wait_loop-Reached}
use juno_exchange_kit.Tests.Ledger.{alice, demo_db, demo_db-IsConsistent}
use juno_exchange_kit.Tests.Planning.{demo_rpc, demo_scan, demo_listed}
use juno_exchange_kit.Tests.Syncing.{demo_scanner}
use juno_exchange_kit.Tests.Commands.{returned_at}

check_total_covers_example :
    ((pos 40000 +ℤ pos 15000 ≤ℤ pos 50000) × (check_total (pos 50000) 40000 15000 ≡ returned tt))
    ⊎ ((pos 50000 +ℤ pos 1 ≤ℤ pos 40000 +ℤ pos 15000)
        × ((check_total (pos 50000) 40000 15000 ≡ exited amount_overflow)
            ⊎ ((m : ℤ) × IsBest (pos 50000) (pos 15000) m
                × (check_total (pos 50000) 40000 15000
                    ≡ exited (insufficient_for_fee (pos 50000) (pos 40000) (pos 15000) m)))))
check_total_covers_example =
    check_total_covers (pos 50000) 40000 15000 (omega arith) (omega arith) (omega arith)

balances_exact_example :
    (wallet_balance_summary demo_scan (codes "hot") (pos 120) (pos 1)
      ≡ exact_balance (pos 120) (pos 1) demo_listed)
    × (wallet_balance demo_scan (codes "hot") (pos 120) (pos 1)
        ≡ exact_balance (pos 120) (pos 1) demo_listed)
balances_exact_example =
    balances_exact demo_scan (codes "hot") (pos 120) (pos 1) demo_listed (omega arith) refl

format_juno_exact_example :
    (juno_value (format_juno (pos 150000000)) ≡ 150000000)
    × ((m : ℕ) → suc m ≡ 150000000 → format_juno (negsuc m) ≡ b'-' ∷ format_juno (pos 150000000))
format_juno_exact_example = format_juno_exact 150000000 (omega arith)

abbrev demo_waiting : Waiting
demo_waiting = record {
  json = true;
  account_id = alice;
  target = pos 70000;
  since = pos 0;
  now = pos 9;
  rpc = some demo_rpc;
  scanners = λ rounds. demo_scanner;
  fuel = 2;
}

abbrev demo_waited : Waited
demo_waited = (pos 70000, [])

abbrev unpaid_world : World
unpaid_world = record { db = demo_db; submitted = []; files = [] }

demo_waiting-returns : (wait_loop demo_waiting 2 [] [] unpaid_world).0 ≡ returned demo_waited
unfolding wait_loop sync_hot ensure_scan_cursor tip_of print_deposit_updates sync_wallet sync_pages
    apply_events apply_event deposit_for credit debit amount_i64 get_scan_cursor set_scan_cursor
    put_cursor account_balance select_balance select_first is_balance is_cursor apply_deposit
    apply_trimmed apply_deposit_tx resolve_account kept_account balance_deltas delta_of apply_deltas
    apply_account_balance_delta write_deposit deposit_row null_if_empty prev_account set_balance
    account_for_recipient_address mapped_account is_recipient eq_text trim_space trim_left
    trim_right is_space to_lower lower_char is_confirmed is_known is_deposit transaction add_int64
    wrap_int64 eq_ℤ ◌+ℤ◌ update_where updated_row sub_int64 ◌-ℤ◌
demo_waiting-returns = refl

wait_loop-Reached_example :
    Reached demo_waiting demo_waited (wait_loop demo_waiting 2 [] [] unpaid_world).1
wait_loop-Reached_example =
    wait_loop-Reached demo_waiting 2 [] [] unpaid_world
      (wait_loop demo_waiting 2 [] [] unpaid_world).1 demo_waited demo_db-IsConsistent
      (returned_at (wait_loop demo_waiting 2 [] [] unpaid_world) demo_waiting-returns)
