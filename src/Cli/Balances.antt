-- ===== src/Cli/Balances.antt =====
-- What a wallet holds by its notes: `walletBalanceSummary` of internal/cli/balances.go, and the loop of
-- `runWalletBalance` of internal/cli/wallet.go. The children of this module are about them.
pub mod Exact
use juno_exchange_kit.Base.{
  ℕ, suc, Bool, true, false, not, ◌&&◌, Option, none, some, List, [], ◌∷◌, if◌then◌else◌,
}
use juno_exchange_kit.Base.Int.{ℤ, pos, ltb_ℤ}
use juno_exchange_kit.Base.Word.{max_int64, add_int64, sub_int64}
use juno_exchange_kit.Base.Text.{Text, trim_space}
use juno_exchange_kit.Store.Addresses.{eq_ℤ}
use juno_exchange_kit.Txplan.Services.{WalletNote, Scan}
use juno_exchange_kit.Txplan.Actions.{confirmations}

-- `walletBalance`
pub record WalletBalance : Type 0 where
  pub total_unspent_zat : ℤ
  pub spendable_zat : ℤ
  pub unspent_notes : ℕ
  pub spendable_notes : ℕ

abbrev pub no_balance : WalletBalance
no_balance = record {
  total_unspent_zat = pos 0;
  spendable_zat = pos 0;
  unspent_notes = 0;
  spendable_notes = 0;
}

pub data BalanceError : Type 0 where
  scan_failed balance_overflow : BalanceError

pub data Balanced (A : Type 0) : Type 0 where
  counted : A → Balanced A
  stopped : BalanceError → Balanced A

-- n.ValueZat > int64 (math.MaxInt64 - sum)
unfoldable pub overflows : ℤ → ℤ → Bool
overflows value sum = ltb_ℤ (sub_int64 (pos max_int64) sum) value

-- A note in a block that the tip has buried under enough confirmations.
unfoldable pub is_deep : ℤ → ℤ → WalletNote → Bool
is_deep tip minconf n =
    if ltb_ℤ (pos 0) n.height && ltb_ℤ (pos 0) tip && not (ltb_ℤ tip n.height)
    then not (ltb_ℤ (confirmations tip n) minconf)
    else false

abbrev pub add_unspent : ℤ → WalletBalance → WalletBalance
add_unspent value b = record b {
  total_unspent_zat = add_int64 b.total_unspent_zat value;
  unspent_notes = suc b.unspent_notes;
}

abbrev pub add_spendable : ℤ → WalletBalance → WalletBalance
add_spendable value b = record b {
  spendable_zat = add_int64 b.spendable_zat value;
  spendable_notes = suc b.spendable_notes;
}

unfoldable pub add_checked : ℤ → WalletBalance → Balanced WalletBalance
add_checked value b =
    if overflows value b.spendable_zat
    then stopped balance_overflow
    else counted (add_spendable value b)

-- One turn of the loop of `walletBalanceSummary`.
unfoldable pub summary_turn : ℤ → ℤ → WalletNote → WalletBalance → Balanced WalletBalance
summary_turn tip minconf n b =
    if not (ltb_ℤ (pos 0) n.value_zat)
    then counted b
    else if overflows n.value_zat b.total_unspent_zat
    then stopped balance_overflow
    else if eq_ℤ minconf (pos 0)
    then add_checked n.value_zat (add_unspent n.value_zat b)
    else if is_deep tip minconf n
    then add_checked n.value_zat (add_unspent n.value_zat b)
    else counted (add_unspent n.value_zat b)

-- One turn of the loop of `runWalletBalance`, which adds without a test where no confirmation is wanted.
unfoldable pub wallet_turn : ℤ → ℤ → WalletNote → WalletBalance → Balanced WalletBalance
wallet_turn tip minconf n b =
    if not (ltb_ℤ (pos 0) n.value_zat)
    then counted b
    else if overflows n.value_zat b.total_unspent_zat
    then stopped balance_overflow
    else if eq_ℤ minconf (pos 0)
    then counted (add_spendable n.value_zat (add_unspent n.value_zat b))
    else if is_deep tip minconf n
    then add_checked n.value_zat (add_unspent n.value_zat b)
    else counted (add_unspent n.value_zat b)

abbrev pub bind_balanced : {A B : Type 0} → Balanced A → (A → Balanced B) → Balanced B
bind_balanced (counted a) f = f a
bind_balanced (stopped e) f = stopped e

-- The loops: a turn for each note.
unfoldable pub loop_notes :
    (WalletNote → WalletBalance → Balanced WalletBalance)
    → List WalletNote
    → WalletBalance
    → Balanced WalletBalance
loop_notes turn [] b = counted b
loop_notes turn (n ∷ ns) b = bind_balanced (turn n b) (loop_notes turn ns)

unfoldable pub balance_notes :
    (WalletNote → WalletBalance → Balanced WalletBalance)
    → Option (List WalletNote)
    → Balanced WalletBalance
balance_notes turn none = stopped scan_failed
balance_notes turn (some notes) = loop_notes turn notes no_balance

-- `walletBalanceSummary`
unfoldable pub wallet_balance_summary : Scan → Text → ℤ → ℤ → Balanced WalletBalance
wallet_balance_summary scan wallet tip minconf =
    balance_notes (summary_turn tip minconf) (scan.wallet_notes (trim_space wallet))

-- The balance that `runWalletBalance` prints.
unfoldable pub wallet_balance : Scan → Text → ℤ → ℤ → Balanced WalletBalance
wallet_balance scan wallet tip minconf =
    balance_notes (wallet_turn tip minconf) (scan.wallet_notes (trim_space wallet))
