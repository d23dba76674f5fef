-- ===== src/Store/Withdrawals.antt =====
-- Withdrawals: internal/store/withdrawals.go.
use juno_exchange_kit.Base.{
  ℕ, Bool, not, ◌||◌, Option, none, some, List, [], ◌∷◌, ◌++◌, ltb, map, if◌then◌else◌,
}
use juno_exchange_kit.Base.Int.{ℤ, pos, pos_part, ltb_ℤ}
use juno_exchange_kit.Base.Word.{add_int64, sub_int64}
use juno_exchange_kit.Base.Text.{Text, is_empty, eq_text, trim_space, to_lower}
use juno_exchange_kit.Base.Table.{select_where, count_where, sort_by, page_of}
use juno_exchange_kit.Store.Schema.{WithdrawalRow, broadcasted}
use juno_exchange_kit.Store.Exec.{
  Exec, pure, gets, lift, transaction, raise_if, modify, ◌>>=◌, ◌>>◌, account_not_found,
  invalid_withdrawal_params, invalid_amount_fee, amount_overflow, insufficient_balance, unique,
}
use juno_exchange_kit.Store.Accounts.{random_hex, select_balance}
use juno_exchange_kit.Store.Deposits.{set_balance}

-- The arguments of `CreateWithdrawalAndDebit`.
pub record Payment : Type 0 where
  pub account_id : Text
  pub wallet_id : Text
  pub to_address : Text
  pub amount_zat : ℤ
  pub fee_zat : ℤ
  pub txid : Text

-- INSERT INTO withdrawals, whose key is id.
unfoldable pub insert_withdrawal : WithdrawalRow → Exec (Unit {0})
insert_withdrawal w = do
  rows ← gets (λ db. db.withdrawals)
  raise_if (ltb 0 (count_where (λ (r : WithdrawalRow). eq_text r.id w.id) rows)) unique
  modify (λ db. record db { withdrawals = db.withdrawals ++ w ∷ [] })

abbrev pub withdrawal_row : Payment → Text → ℤ → WithdrawalRow
withdrawal_row p id now = record {
  id = id;
  account_id = p.account_id;
  wallet_id = p.wallet_id;
  to_address = p.to_address;
  amount_zat = p.amount_zat;
  fee_zat = some p.fee_zat;
  txid = some p.txid;
  status = broadcasted;
  created_at = now;
  updated_at = now;
}

-- The transaction of `CreateWithdrawalAndDebit`, on trimmed arguments.
unfoldable pub withdraw_tx : Payment → Text → ℤ → Exec Text
withdraw_tx p id now = do
  bal ← select_balance p.account_id account_not_found
  let total = add_int64 p.amount_zat p.fee_zat
  raise_if (ltb_ℤ total p.amount_zat) amount_overflow
  raise_if (ltb_ℤ bal total) insufficient_balance
  modify (set_balance p.account_id (sub_int64 bal total) now)
  insert_withdrawal (withdrawal_row p id now)
  pure id

abbrev pub trim_payment : Payment → Payment
trim_payment p = record p {
  account_id = trim_space p.account_id;
  wallet_id = trim_space p.wallet_id;
  to_address = trim_space p.to_address;
  txid = to_lower (trim_space p.txid);
}

-- `CreateWithdrawalAndDebit` on trimmed arguments.
unfoldable pub withdraw_trimmed : Payment → (ℕ → Option (List ℕ)) → ℤ → Exec Text
withdraw_trimmed p rand now = do
  raise_if
      (is_empty p.account_id || is_empty p.wallet_id || is_empty p.to_address || is_empty p.txid)
      invalid_withdrawal_params
  raise_if (not (ltb_ℤ (pos 0) p.amount_zat) || ltb_ℤ p.fee_zat (pos 0)) invalid_amount_fee
  id ← lift (random_hex (pos 16) rand)
  transaction (withdraw_tx p id now)

-- `CreateWithdrawalAndDebit`
unfoldable pub create_withdrawal_and_debit : Payment → (ℕ → Option (List ℕ)) → ℤ → Exec Text
create_withdrawal_and_debit p rand now = withdraw_trimmed (trim_payment p) rand now

abbrev pub created_after : WithdrawalRow → WithdrawalRow → Bool
created_after r s = ltb_ℤ s.created_at r.created_at

-- An empty account lists every withdrawal.
unfoldable pub is_withdrawal_of : Text → WithdrawalRow → Bool
is_withdrawal_of a r = is_empty a || eq_text r.account_id a

lower_txid : Option Text → Option Text
lower_txid none = none
lower_txid (some t) = some (to_lower (trim_space t))

unfoldable pub read_withdrawal : WithdrawalRow → WithdrawalRow
unfolding lower_txid
read_withdrawal r = record r { txid = lower_txid r.txid }

unfoldable pub withdrawal_limit : ℤ → ℕ
withdrawal_limit limit =
    if ltb_ℤ limit (pos 1) || ltb_ℤ (pos 1000) limit then 100 else pos_part limit

unfoldable pub list_withdrawals : Text → ℤ → Exec (List WithdrawalRow)
list_withdrawals account_id limit = do
  found ← gets (λ db. select_where (is_withdrawal_of (trim_space account_id)) db.withdrawals)
  pure (map read_withdrawal (page_of (withdrawal_limit limit) 0 (sort_by created_after found)))
