-- ===== src/Store/Schema.antt =====
-- The tables that internal/store/store.go creates. A nullable column is an Option; an INTEGER column
-- holds an int64.
use juno_exchange_kit.Base.{ℕ, Bool, true, false, Option, List, [], ◌==◌, ◌&&◌}
use juno_exchange_kit.Base.Int.{ℤ}
use juno_exchange_kit.Base.Text.{Text, eq_text}

pub record MetaRow : Type 0 where
  pub key : Text
  pub value : Text

pub record WalletRow : Type 0 where
  pub wallet_id : Text
  pub ufvk : Text
  pub seed_path : Text
  pub next_external_index : ℤ
  pub next_internal_index : ℤ
  pub created_at : ℤ
  pub disabled_at : Option ℤ

pub record AccountRow : Type 0 where
  pub account_id : Text
  pub created_at : ℤ

pub record AddressRow : Type 0 where
  pub account_id : Text
  pub wallet_id : Text
  pub scope : Text
  pub address_index : ℤ
  pub address : Text
  pub created_at : ℤ

pub record CursorRow : Type 0 where
  pub wallet_id : Text
  pub cursor : ℤ

-- `DepositStatus` is a string type: four constants, and any other text.
pub data DepositStatus : Type 0 where
  detected confirmed unconfirmed orphaned : DepositStatus
  other_status : Text → DepositStatus

pub record DepositRow : Type 0 where
  pub wallet_id : Text
  pub txid : Text
  pub action_index : ℕ
  pub diversifier_index : ℕ
  pub account_id : Option Text
  pub amount_zat : ℤ
  pub height : ℤ
  pub status : DepositStatus
  pub confirmed_height : Option ℤ
  pub created_at : ℤ
  pub updated_at : ℤ

pub record BalanceRow : Type 0 where
  pub account_id : Text
  pub balance_zat : ℤ
  pub updated_at : ℤ

pub data WithdrawalStatus : Type 0 where
  broadcasted failed : WithdrawalStatus

pub record WithdrawalRow : Type 0 where
  pub id : Text
  pub account_id : Text
  pub wallet_id : Text
  pub to_address : Text
  pub amount_zat : ℤ
  pub fee_zat : Option ℤ
  pub txid : Option Text
  pub status : WithdrawalStatus
  pub created_at : ℤ
  pub updated_at : ℤ

pub record Db : Type 0 where
  pub meta : List MetaRow
  pub wallets : List WalletRow
  pub accounts : List AccountRow
  pub addresses : List AddressRow
  pub cursors : List CursorRow
  pub deposits : List DepositRow
  pub balances : List BalanceRow
  pub withdrawals : List WithdrawalRow

-- What `Init` makes of a new file.
abbrev pub empty_db : Db
empty_db = record {
  meta = [];
  wallets = [];
  accounts = [];
  addresses = [];
  cursors = [];
  deposits = [];
  balances = [];
  withdrawals = [];
}

-- The tests of the WHERE clauses on the tables' keys.
unfoldable pub is_meta : Text → MetaRow → Bool
is_meta k r = eq_text r.key k

unfoldable pub is_wallet : Text → WalletRow → Bool
is_wallet w r = eq_text r.wallet_id w

unfoldable pub is_account : Text → AccountRow → Bool
is_account a r = eq_text r.account_id a

unfoldable pub is_balance : Text → BalanceRow → Bool
is_balance a r = eq_text r.account_id a

unfoldable pub is_cursor : Text → CursorRow → Bool
is_cursor w r = eq_text r.wallet_id w

unfoldable pub is_deposit : Text → Text → ℕ → DepositRow → Bool
is_deposit w t i r = eq_text r.wallet_id w && eq_text r.txid t && (r.action_index == i)

unfoldable pub is_confirmed : DepositStatus → Bool
is_confirmed confirmed = true
is_confirmed detected = false
is_confirmed unconfirmed = false
is_confirmed orphaned = false
is_confirmed (other_status s) = false

-- The constants that the switch on a status names.
unfoldable pub is_known : DepositStatus → Bool
is_known detected = true
is_known confirmed = true
is_known unconfirmed = true
is_known orphaned = true
is_known (other_status s) = false
