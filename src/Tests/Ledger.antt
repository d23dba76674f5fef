-- ===== src/Tests/Ledger.antt =====
-- A store with one account, its deposits and withdrawals.
use juno_exchange_kit.Base.{ℕ, ◌≡◌, ◌⊎◌, refl, Option, none, some, List, [], ◌∷◌, arith, replicate}
use juno_exchange_kit.Base.Int.{pos, ◌+ℤ◌, ◌-ℤ◌, ◌≤ℤ◌, int_laws}
use juno_exchange_kit.Base.Word.{add_int64, sub_int64, wrap_int64}
use juno_exchange_kit.Base.Text.{
  Text, codes, eq_text, trim_space, trim_left, trim_right, is_space, to_lower, lower_char,
}
use juno_exchange_kit.Base.Table.{select_first, select_where, update_where, count_where, sum_of}
use juno_exchange_kit.Store.Schema.{
  Db, empty_db, confirmed, detected, orphaned, BalanceRow, WithdrawalRow, is_balance, is_deposit,
  is_confirmed, is_known,
}
use juno_exchange_kit.Store.Exec.{
  ok, transaction, err, amount_overflow, insufficient_balance, negative_balance,
}
use juno_exchange_kit.Store.Addresses.{
  external, is_recipient, eq_ℤ, account_for_recipient_address, mapped_account,
}
use juno_exchange_kit.Store.Accounts.{create_account, select_balance, random_hex}
use juno_exchange_kit.Store.Deposits.{
  Deposit, DepositApplyResult, apply_deposit, apply_trimmed, apply_deposit_tx, resolve_account,
  kept_account, balance_deltas, delta_of, apply_deltas, apply_account_balance_delta, write_deposit,
  deposit_row, updated_row, null_if_empty, prev_account, set_balance,
}
use juno_exchange_kit.Store.DepositQueries.{
  DepositsSummary, pending_deposits_summary, trimmed_account, lacks_account, is_pending_row,
  is_pending_status, has_account,
}
use juno_exchange_kit.Store.Ledger.Pending.{Summarizes, pending_deposits_summary-Summarizes}
use juno_exchange_kit.Store.Ledger.Covered.{paid_db, withdraw_tx_covered}
use juno_exchange_kit.Store.Withdrawals.{
  withdraw_tx, withdraw_trimmed, Payment, create_withdrawal_and_debit,
}
use juno_exchange_kit.Store.Ledger.{balance_of, withdrawn, credited, amount_at, IsConsistent}
use juno_exchange_kit.Store.Ledger.Deposits.{apply_deposit-IsConsistent}
use juno_exchange_kit.Store.Ledger.Withdrawals.{create_withdrawal_and_debit-IsConsistent}
use juno_exchange_kit.Store.Ledger.Accounts.{create_account-IsConsistent}
use juno_exchange_kit.Store.Ledger.Replay.{NothingMore, apply_deposit_again}
use juno_exchange_kit.Store.Ledger.Run.{Op, create, deposit, withdraw, run, run_ledger}

abbrev pub alice : Text
alice = codes "alice"

abbrev pub hot : Text
hot = codes "hot"

abbrev pub txid_one : Text
txid_one = codes "ab01"

abbrev address_one : Text
address_one = codes "u1alice"

abbrev some_bytes : ℕ → Option (List ℕ)
some_bytes n = some (replicate n 7)

abbrev pub demo_db : Db
demo_db = record empty_db {
  accounts = record { account_id = alice; created_at = pos 1 } ∷ [];
  addresses =
      record {
        account_id = alice;
        wallet_id = hot;
        scope = external;
        address_index = pos 0;
        address = address_one;
        created_at = pos 1;
      }
      ∷ [];
  balances = record { account_id = alice; balance_zat = pos 0; updated_at = pos 1 } ∷ [];
}

abbrev demo_deposit : Deposit
demo_deposit = record {
  wallet_id = hot;
  txid = txid_one;
  action_index = 0;
  diversifier_index = 0;
  recipient_address = codes " U1Alice ";
  amount_zat = pos 70000;
  height = pos 100;
  status = confirmed;
  confirmed_height = some (pos 110);
}

abbrev demo_payment : Payment
demo_payment = record {
  account_id = alice;
  wallet_id = hot;
  to_address = codes "u1bob";
  amount_zat = pos 40000;
  fee_zat = pos 10000;
  txid = codes "cd02";
}

amount_at_zero : (a x : Text) → amount_at a x (pos 0) ≡ pos 0
unfolding amount_at
amount_at_zero a x = ground arith

pub demo_db-IsConsistent : IsConsistent demo_db
unfolding balance_of withdrawn credited sum_of count_where is_balance eq_text
demo_db-IsConsistent = record {
  good_balances = record { each = ground arith; once = λ a. ground arith };
  good_deposits = record { each = tt; once = λ w t i. omega arith };
  ledger = λ a. rw (amount_at_zero a alice) (omega int_laws);
}

abbrev demo_result : DepositApplyResult
demo_result = record { account_id = alice; delta_zat = pos 70000 }

abbrev demo_after : Db
demo_after = (apply_deposit demo_deposit (pos 5) demo_db).1

demo_deposit_ok : apply_deposit demo_deposit (pos 5) demo_db ≡ (ok demo_result, demo_after)
unfolding apply_deposit apply_trimmed apply_deposit_tx resolve_account kept_account balance_deltas
    delta_of apply_deltas apply_account_balance_delta write_deposit deposit_row null_if_empty
    prev_account set_balance account_for_recipient_address mapped_account is_recipient eq_text
    trim_space trim_left trim_right is_space to_lower lower_char select_first is_confirmed is_known
    is_deposit is_balance transaction add_int64 wrap_int64 eq_ℤ select_balance ◌+ℤ◌
demo_deposit_ok = refl

apply_deposit_again_example :
    NothingMore demo_after demo_result (apply_deposit demo_deposit (pos 6) demo_after)
apply_deposit_again_example =
    apply_deposit_again demo_deposit (pos 5) (pos 6) demo_db demo_after demo_result (omega arith)
      demo_db-IsConsistent demo_deposit_ok

apply_deposit-IsConsistent_example : IsConsistent demo_after
apply_deposit-IsConsistent_example =
    apply_deposit-IsConsistent demo_deposit (pos 5) demo_db (omega arith) demo_db-IsConsistent

create_withdrawal_and_debit-IsConsistent_example :
    IsConsistent (create_withdrawal_and_debit demo_payment some_bytes (pos 7) demo_after).1
create_withdrawal_and_debit-IsConsistent_example =
    create_withdrawal_and_debit-IsConsistent demo_payment some_bytes (pos 7) demo_after
      (omega arith) (omega arith)
      (apply_deposit-IsConsistent demo_deposit (pos 5) demo_db (omega arith) demo_db-IsConsistent)

create_account-IsConsistent_example : IsConsistent (create_account some_bytes (pos 2) demo_db).1
create_account-IsConsistent_example =
    create_account-IsConsistent some_bytes (pos 2) demo_db demo_db-IsConsistent

abbrev demo_ops : List Op
demo_ops =
    create some_bytes (pos 1)
    ∷ deposit demo_deposit (pos 5)
    ∷ withdraw demo_payment some_bytes (pos 7)
    ∷ []

run_ledger_example :
    (balance_of alice (run demo_ops empty_db).balances
        +ℤ withdrawn alice (run demo_ops empty_db).withdrawals
      ≡ credited alice (run demo_ops empty_db).deposits)
    × (pos 0 ≤ℤ balance_of alice (run demo_ops empty_db).balances)
run_ledger_example = run_ledger demo_ops alice (tt, (omega arith, (omega arith, tt)))

abbrev alice_row : BalanceRow
alice_row = record { account_id = alice; balance_zat = pos 0; updated_at = pos 1 }

demo_found : select_first (is_balance demo_payment.account_id) demo_db.balances ≡ some alice_row
unfolding select_first is_balance eq_text
demo_found = refl

demo_fresh : count_where (λ (w : WithdrawalRow). eq_text w.id (codes "07")) demo_db.withdrawals ≡ 0
unfolding count_where
demo_fresh = refl

withdraw_tx_covered_example :
    ((demo_payment.amount_zat +ℤ demo_payment.fee_zat ≤ℤ alice_row.balance_zat)
      × (withdraw_tx demo_payment (codes "07") (pos 7) demo_db
          ≡ (ok (codes "07"), paid_db demo_payment (codes "07") (pos 7) demo_db alice_row)))
    ⊎ ((alice_row.balance_zat +ℤ pos 1 ≤ℤ demo_payment.amount_zat +ℤ demo_payment.fee_zat)
        × ((withdraw_tx demo_payment (codes "07") (pos 7) demo_db ≡ (err amount_overflow, demo_db))
            ⊎ (withdraw_tx demo_payment (codes "07") (pos 7) demo_db
                ≡ (err insufficient_balance, demo_db))))
withdraw_tx_covered_example =
    withdraw_tx_covered demo_payment (codes "07") (pos 7) demo_db alice_row (omega arith)
      (omega arith) (omega arith) (omega arith) (omega arith) demo_found demo_fresh

-- The account has spent what a deposit credited, and the deposit is orphaned.
abbrev spent_db : Db
spent_db = record demo_after {
  balances = record { account_id = alice; balance_zat = pos 20000; updated_at = pos 1 } ∷ [];
}

abbrev orphan_event : Deposit
orphan_event = record demo_deposit { status = orphaned; confirmed_height = none }

orphan_event-fails : (apply_deposit orphan_event (pos 8) spent_db).0 ≡ err negative_balance
unfolding apply_deposit apply_trimmed apply_deposit_tx resolve_account kept_account balance_deltas
    delta_of apply_deltas apply_account_balance_delta write_deposit deposit_row null_if_empty
    prev_account set_balance account_for_recipient_address mapped_account is_recipient eq_text
    trim_space trim_left trim_right is_space to_lower lower_char select_first is_confirmed is_known
    is_deposit is_balance transaction add_int64 wrap_int64 eq_ℤ select_balance ◌+ℤ◌ update_where
    updated_row sub_int64 ◌-ℤ◌
orphan_event-fails = refl

demo_payment-fails :
    (create_withdrawal_and_debit demo_payment some_bytes (pos 7) demo_db).0
    ≡ err insufficient_balance
unfolding create_withdrawal_and_debit withdraw_trimmed withdraw_tx select_balance random_hex
    trim_space trim_left trim_right is_space to_lower lower_char select_first is_balance eq_text
    transaction add_int64 wrap_int64 ◌+ℤ◌
demo_payment-fails = refl

abbrev pending_event : Deposit
pending_event = record demo_deposit { status = detected; confirmed_height = none }

abbrev pending_db : Db
pending_db = (apply_deposit pending_event (pos 5) demo_db).1

abbrev pending_summary : DepositsSummary
pending_summary = record { count = 1; amount_zat = pos 70000 }

pending_summary-ok : pending_deposits_summary none pending_db ≡ (ok pending_summary, pending_db)
unfolding apply_deposit apply_trimmed apply_deposit_tx resolve_account kept_account balance_deltas
    delta_of apply_deltas apply_account_balance_delta write_deposit deposit_row null_if_empty
    prev_account set_balance account_for_recipient_address mapped_account is_recipient eq_text
    trim_space trim_left trim_right is_space to_lower lower_char select_first is_confirmed is_known
    is_deposit is_balance transaction add_int64 wrap_int64 eq_ℤ select_balance ◌+ℤ◌
    pending_deposits_summary trimmed_account lacks_account is_pending_row is_pending_status
    has_account select_where sum_of
pending_summary-ok = refl

pending_deposits_summary-Summarizes_example :
    Summarizes none pending_db pending_summary × (pending_db ≡ pending_db)
pending_deposits_summary-Summarizes_example =
    pending_deposits_summary-Summarizes none pending_db pending_db pending_summary
      pending_summary-ok
