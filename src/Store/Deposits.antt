-- ===== src/Store/Deposits.antt =====
-- Deposits: `ApplyDeposit`, `applyAccountBalanceDeltaTx` and the queries of internal/store/deposits.go.
use juno_exchange_kit.Base.{
  ℕ, not, ◌&&◌, ◌||◌, Option, none, some, List, [], ◌∷◌, ◌++◌, if◌then◌else◌,
}
use juno_exchange_kit.Base.Int.{ℤ, pos, ltb_ℤ}
use juno_exchange_kit.Base.Word.{add_int64, sub_int64}
use juno_exchange_kit.Base.Text.{Text, is_empty, eq_text, trim_space, to_lower}
use juno_exchange_kit.Base.Table.{select_first, update_where}
use juno_exchange_kit.Store.Schema.{
  DepositStatus, other_status, DepositRow, BalanceRow, Db, is_balance, is_deposit, is_confirmed,
  is_known,
}
use juno_exchange_kit.Store.Exec.{
  Exec, pure, gets, transaction, raise_if, modify, ◌>>=◌, ◌>>◌, account_id_required,
  deposit_params_required, amount_not_positive, negative_height, invalid_deposit_status,
  negative_balance, no_rows,
}
use juno_exchange_kit.Store.Accounts.{select_balance}
use juno_exchange_kit.Store.Addresses.{
  eq_ℤ, account_for_diversifier_index, account_for_recipient_address,
}

-- The arguments of `ApplyDeposit`.
pub record Deposit : Type 0 where
  pub wallet_id : Text
  pub txid : Text
  pub action_index : ℕ
  pub diversifier_index : ℕ
  pub recipient_address : Text
  pub amount_zat : ℤ
  pub height : ℤ
  pub status : DepositStatus
  pub confirmed_height : Option ℤ

pub record DepositApplyResult : Type 0 where
  pub account_id : Text
  pub delta_zat : ℤ

-- `nullIfEmpty`
unfoldable pub null_if_empty : Text → Option Text
null_if_empty s = if is_empty (trim_space s) then none else some (trim_space s)

abbrev pub text_or_empty : Option Text → Text
text_or_empty none = []
text_or_empty (some a) = a

abbrev pub with_balance : ℤ → ℤ → BalanceRow → BalanceRow
with_balance next now r = record r { balance_zat = next; updated_at = now }

-- UPDATE account_balances SET balance_zat=?, updated_at=? WHERE account_id=?
unfoldable pub set_balance : Text → ℤ → ℤ → Db → Db
set_balance account_id next now db = record db {
  balances = update_where (is_balance account_id) (with_balance next now) db.balances;
}

-- `applyAccountBalanceDeltaTx`
unfoldable pub apply_account_balance_delta : Text → ℤ → ℤ → Exec (Unit {0})
apply_account_balance_delta account_id delta now =
    let id = trim_space account_id in
    do
      raise_if (is_empty id) account_id_required
      bal ← select_balance id no_rows
      let next = add_int64 bal delta
      raise_if (ltb_ℤ next (pos 0)) negative_balance
      modify (set_balance id next now)

-- A signed change of an account's balance.
pub record BalanceDelta : Type 0 where
  pub account_id : Text
  pub delta_zat : ℤ

-- The loop over the deltas; `sum` is deltaSum.
unfoldable pub apply_deltas : List BalanceDelta → ℤ → ℤ → Exec ℤ
apply_deltas [] sum now = pure sum
apply_deltas (d ∷ ds) sum now =
    let rest = apply_deltas ds sum now in
    let rest' = apply_deltas ds (add_int64 sum d.delta_zat) now in
    if eq_ℤ d.delta_zat (pos 0) || is_empty (trim_space d.account_id)
    then rest
    else apply_account_balance_delta d.account_id d.delta_zat now >> rest'

-- A debit or a credit of an account, none where no account is known.
unfoldable pub delta_of : Text → ℤ → List BalanceDelta
delta_of account_id delta =
    if is_empty account_id then [] else record { account_id = account_id; delta_zat = delta } ∷ []

-- The switch on the previous and the new status.
unfoldable pub balance_deltas :
    DepositStatus → Text → ℤ → DepositStatus → Text → ℤ → List BalanceDelta
balance_deltas prev_status prev_account prev_amount status account amount =
    let debit = delta_of prev_account (sub_int64 (pos 0) prev_amount) in
    let credit = delta_of account amount in
    if not (is_confirmed prev_status) && is_confirmed status
    then credit
    else if is_confirmed prev_status && not (is_confirmed status)
    then debit
    else if is_confirmed prev_status && is_confirmed status
    then (if not (eq_text prev_account account) || not (eq_ℤ prev_amount amount)
        then debit ++ credit
        else [])
    else []

-- What the SELECT on the previous row leaves in prevStatus, prevAccountID and prevAmount.
abbrev pub prev_status : Option DepositRow → DepositStatus
prev_status none = other_status []
prev_status (some r) = r.status

unfoldable pub prev_account : Option DepositRow → Text
prev_account none = []
prev_account (some r) = trim_space (text_or_empty r.account_id)

abbrev pub prev_amount : Option DepositRow → ℤ
prev_amount none = pos 0
prev_amount (some r) = r.amount_zat

-- With no recipient address the account stored earlier is kept.
unfoldable pub kept_account : Text → Text → Text → Text
kept_account recipient prev found =
    if is_empty recipient && not (is_empty prev) then prev else found

-- The row that INSERT writes, and what UPDATE writes over a row.
unfoldable pub deposit_row : Deposit → Text → ℤ → DepositRow
deposit_row d account_id now = record {
  wallet_id = d.wallet_id;
  txid = d.txid;
  action_index = d.action_index;
  diversifier_index = d.diversifier_index;
  account_id = null_if_empty account_id;
  amount_zat = d.amount_zat;
  height = d.height;
  status = d.status;
  confirmed_height = d.confirmed_height;
  created_at = now;
  updated_at = now;
}

unfoldable pub updated_row : Deposit → Text → ℤ → DepositRow → DepositRow
updated_row d account_id now r = record r {
  diversifier_index = d.diversifier_index;
  account_id = null_if_empty account_id;
  amount_zat = d.amount_zat;
  height = d.height;
  status = d.status;
  confirmed_height = d.confirmed_height;
  updated_at = now;
}

unfoldable pub write_deposit : Deposit → Text → ℤ → Option DepositRow → Db → Db
write_deposit d account_id now none db = record db {
  deposits = db.deposits ++ deposit_row d account_id now ∷ [];
}
write_deposit d account_id now (some prev) db = record db {
  deposits =
      update_where (is_deposit d.wallet_id d.txid d.action_index) (updated_row d account_id now)
        db.deposits;
}

-- The transaction of `ApplyDeposit`, on trimmed arguments.
unfoldable pub apply_deposit_tx : Deposit → Text → ℤ → Exec DepositApplyResult
apply_deposit_tx d found now = do
  prev ← gets (λ db. select_first (is_deposit d.wallet_id d.txid d.action_index) db.deposits)
  let account = kept_account d.recipient_address (prev_account prev) found
  modify (write_deposit d account now prev)
  sum ←
      apply_deltas
        (balance_deltas (prev_status prev) (prev_account prev) (prev_amount prev) d.status account
          d.amount_zat)
        (pos 0) now
  pure (record { account_id = account; delta_zat = sum })

-- The account that the address tables give: by the recipient address if there is one.
unfoldable pub resolve_account : Deposit → Exec Text
resolve_account d = do
  found ←
      if is_empty d.recipient_address
      then account_for_diversifier_index d.wallet_id d.diversifier_index
      else account_for_recipient_address d.wallet_id d.recipient_address
  pure (text_or_empty found)

abbrev pub trim_deposit : Deposit → Deposit
trim_deposit d = record d {
  wallet_id = trim_space d.wallet_id;
  txid = to_lower (trim_space d.txid);
  recipient_address = to_lower (trim_space d.recipient_address);
}

-- `ApplyDeposit` on trimmed arguments.
unfoldable pub apply_trimmed : Deposit → ℤ → Exec DepositApplyResult
apply_trimmed d now = do
  raise_if (is_empty d.wallet_id || is_empty d.txid) deposit_params_required
  raise_if (not (ltb_ℤ (pos 0) d.amount_zat)) amount_not_positive
  raise_if (ltb_ℤ d.height (pos 0)) negative_height
  raise_if (not (is_known d.status)) invalid_deposit_status
  found ← resolve_account d
  transaction (apply_deposit_tx d found now)

-- `ApplyDeposit`
unfoldable pub apply_deposit : Deposit → ℤ → Exec DepositApplyResult
apply_deposit d now = apply_trimmed (trim_deposit d) now
