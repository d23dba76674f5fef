-- ===== src/Tests/Addresses.antt =====
-- A deposit address of an account.
use juno_exchange_kit.Base.{ℕ, ◌≡◌, refl, Option, none, some, [], ◌∷◌}
use juno_exchange_kit.Base.Int.{pos}
use juno_exchange_kit.Base.Text.{Text, codes, eq_text, trim_space, trim_left, trim_right, is_space}
use juno_exchange_kit.Base.Table.{select_first, count_where, update_where}
use juno_exchange_kit.Store.Schema.{Db, is_account, is_wallet}
use juno_exchange_kit.Store.Exec.{ok, transaction}
use juno_exchange_kit.Store.Wallets.{bad_index, derived}
use juno_exchange_kit.Store.Addresses.{
  is_address, is_index, insert_address, set_external_index, assign_tx,
  get_or_assign_deposit_address,
}
use juno_exchange_kit.Store.Assigned.{get_or_assign_deposit_address_again}
use juno_exchange_kit.Tests.Ledger.{alice, hot, demo_db}

abbrev wallet_db : Db
wallet_db = record demo_db {
  addresses = [];
  wallets =
      record {
        wallet_id = hot;
        ufvk = codes "uview";
        seed_path = codes "seed";
        next_external_index = pos 3;
        next_internal_index = pos 0;
        created_at = pos 1;
        disabled_at = none;
      }
      ∷ [];
}

abbrev derive_first : ℕ → Option Text
derive_first i = some (codes " u1first ")

abbrev derive_later : ℕ → Option Text
derive_later i = none

abbrev assigned_db : Db
assigned_db = (get_or_assign_deposit_address alice hot derive_first (pos 4) wallet_db).1

assigned-ok :
    get_or_assign_deposit_address alice hot derive_first (pos 4) wallet_db
    ≡ (ok (codes "u1first"), assigned_db)
unfolding get_or_assign_deposit_address assign_tx insert_address derived set_external_index
    is_address is_index is_account is_wallet bad_index select_first count_where update_where eq_text
    trim_space trim_left trim_right is_space transaction
assigned-ok = refl

get_or_assign_deposit_address_again_example :
    get_or_assign_deposit_address alice hot derive_later (pos 9) assigned_db
    ≡ (ok (codes "u1first"), assigned_db)
get_or_assign_deposit_address_again_example =
    get_or_assign_deposit_address_again alice hot derive_first derive_later (pos 4) (pos 9)
      wallet_db assigned_db (codes "u1first") assigned-ok
