-- ===== src/Store/Ledger.antt =====
-- The books that the store keeps: what every account holds, was credited and has withdrawn.
pub mod Balances
pub mod Deltas
pub mod Gains
pub mod Rows
pub mod Lookups
pub mod Deposits
pub mod Withdrawals
pub mod Covered
pub mod Paid
pub mod Pending
pub mod Accounts
pub mod Untouched
pub mod Run
pub mod Replay
use juno_exchange_kit.Base.{
  ℕ, ◌+◌, ◌≤◌, ◌<◌, ◌≡◌, Bool, true, false, Option, none, some, List, if◌then◌else◌,
}
use juno_exchange_kit.Base.Int.{ℤ, pos, neg_part, ◌+ℤ◌, ◌≤ℤ◌}
use juno_exchange_kit.Base.Word.{IsInt64, IsNat}
use juno_exchange_kit.Base.Text.{Text, is_empty, eq_text, trim_space}
use juno_exchange_kit.Base.Table.{sum_of, count_where, All}
use juno_exchange_kit.Store.Schema.{
  DepositRow, BalanceRow, WithdrawalRow, Db, is_balance, is_deposit, is_confirmed,
}
use juno_exchange_kit.Store.Deposits.{text_or_empty}

-- An amount that counts for account `a` if it stands under account `x`.
unfoldable pub amount_at : Text → Text → ℤ → ℤ
amount_at a x v = if eq_text x a then v else pos 0

unfoldable pub balance_of : Text → List BalanceRow → ℤ
balance_of a rows = sum_of (λ (r : BalanceRow). amount_at a r.account_id r.balance_zat) rows

-- The empty text stands for no account.
unfoldable pub share_of : Text → Text → ℤ → ℤ
share_of a x v = if is_empty x then pos 0 else amount_at a x v

-- A confirmed deposit counts for the account that it is stored under.
unfoldable pub credit_of : Text → DepositRow → ℤ
credit_of a r =
    if is_confirmed r.status then share_of a (text_or_empty r.account_id) r.amount_zat else pos 0

unfoldable pub credited : Text → List DepositRow → ℤ
credited a rows = sum_of (credit_of a) rows

abbrev pub fee_or_zero : Option ℤ → ℤ
fee_or_zero none = pos 0
fee_or_zero (some f) = f

unfoldable pub debit_of : Text → WithdrawalRow → ℤ
debit_of a r = amount_at a r.account_id (r.amount_zat +ℤ fee_or_zero r.fee_zat)

unfoldable pub withdrawn : Text → List WithdrawalRow → ℤ
withdrawn a rows = sum_of (debit_of a) rows

-- A balance is an int64 of zero or more, and an account has one balance at most.
abbrev pub IsGoodBalance : BalanceRow → Type 0
IsGoodBalance r = IsInt64 r.balance_zat × IsNat r.balance_zat

pub record GoodBalances (rows : List BalanceRow) : Type 0 where
  pub each : All IsGoodBalance rows
  pub once : (a : Text) → count_where (is_balance a) rows ≤ 1

-- An account that a deposit is stored under is trimmed, and not empty.
abbrev pub IsGoodAccount : Option Text → Type 0
IsGoodAccount none = Unit
IsGoodAccount (some a) = (trim_space a ≡ a) × (is_empty a ≡ false)

abbrev pub IsGoodDeposit : DepositRow → Type 0
IsGoodDeposit r = IsInt64 r.amount_zat × (pos 1 ≤ℤ r.amount_zat) × IsGoodAccount r.account_id

pub record GoodDeposits (rows : List DepositRow) : Type 0 where
  pub each : All IsGoodDeposit rows
  pub once : (w t : Text) (i : ℕ) → count_where (is_deposit w t i) rows ≤ 1

-- The invariant: what an account holds and has withdrawn is what it was credited.
pub record IsConsistent (db : Db) : Type 0 where
  pub good_balances : GoodBalances db.balances
  pub good_deposits : GoodDeposits db.deposits
  pub ledger :
      (a : Text) → balance_of a db.balances +ℤ withdrawn a db.withdrawals ≡ credited a db.deposits
