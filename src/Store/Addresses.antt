-- ===== src/Store/Addresses.antt =====
-- Deposit addresses: internal/store/store.go (`GetOrAssignDepositAddress`), internal/store/addresses.go
-- and the lookups of internal/store/deposits.go.
use juno_exchange_kit.Base.{
  ℕ, Bool, not, ◌&&◌, ◌||◌, Option, none, some, List, [], ◌∷◌, ◌++◌, ltb, if◌then◌else◌,
}
use juno_exchange_kit.Base.Int.{ℤ, pos, pos_part, ltb_ℤ, ◌+ℤ◌}
use juno_exchange_kit.Base.Text.{Text, codes, is_empty, eq_text, trim_space, to_lower}
use juno_exchange_kit.Base.Table.{
  select_first, select_where, update_where, count_where, sort_by, page_of,
}
use juno_exchange_kit.Store.Schema.{AddressRow, Db, is_account, is_wallet}
use juno_exchange_kit.Store.Exec.{
  Result, ok, err, Exec, pure, raise, gets, lift, or_raise, transaction, raise_if, modify, ◌>>=◌,
  ◌>>◌, account_id_required, wallet_id_required, account_not_found, wallet_not_initialized,
  invalid_wallet_index, unique, recipient_address_required, invalid_account_mapping,
  negative_offset, invalid_row, invalid_index, invalid_timestamp,
}
use juno_exchange_kit.Store.Accounts.{page_limit}
use juno_exchange_kit.Store.Wallets.{bad_index, derived}

abbrev pub external : Text
external = codes "external"

unfoldable pub eq_ℤ : ℤ → ℤ → Bool
eq_ℤ a b = not (ltb_ℤ a b) && not (ltb_ℤ b a)

-- WHERE account_id=? AND wallet_id=? AND scope=?, the primary key.
unfoldable pub is_address : Text → Text → Text → AddressRow → Bool
is_address a w s r = eq_text r.account_id a && eq_text r.wallet_id w && eq_text r.scope s

-- UNIQUE (wallet_id, scope, address_index)
unfoldable pub is_index : Text → Text → ℤ → AddressRow → Bool
is_index w s i r = eq_text r.wallet_id w && eq_text r.scope s && eq_ℤ r.address_index i

-- INSERT INTO deposit_addresses
unfoldable pub insert_address : AddressRow → Exec (Unit {0})
insert_address r = do
  rows ← gets (λ db. db.addresses)
  raise_if (ltb 0 (count_where (is_address r.account_id r.wallet_id r.scope) rows)) unique
  raise_if (ltb 0 (count_where (is_index r.wallet_id r.scope r.address_index) rows)) unique
  modify (λ db. record db { addresses = db.addresses ++ r ∷ [] })

-- UPDATE wallets SET next_external_index=? WHERE wallet_id=?
unfoldable pub set_external_index : Text → ℤ → Db → Db
set_external_index id i db = record db {
  wallets = update_where (is_wallet id) (λ r. record r { next_external_index = i }) db.wallets;
}

-- The transaction of `GetOrAssignDepositAddress`.
unfoldable pub assign_tx : Text → Text → (ℕ → Option Text) → ℤ → Exec Text
assign_tx account_id wallet_id derive now = do
  account ← gets (λ db. select_first (is_account account_id) db.accounts)
  _ ← or_raise account account_not_found
  row ← gets (λ db. select_first (is_wallet wallet_id) db.wallets)
  w ← or_raise row wallet_not_initialized
  raise_if (bad_index w.next_external_index) invalid_wallet_index
  addr ← derived derive w.next_external_index
  insert_address (record {
    account_id = account_id;
    wallet_id = wallet_id;
    scope = external;
    address_index = w.next_external_index;
    address = addr;
    created_at = now;
  })
  modify (set_external_index wallet_id (w.next_external_index +ℤ pos 1))
  pure addr

unfoldable pub get_or_assign_deposit_address : Text → Text → (ℕ → Option Text) → ℤ → Exec Text
get_or_assign_deposit_address account_id wallet_id derive now =
    let a = trim_space account_id in
    let w = trim_space wallet_id in
    do
      raise_if (is_empty a) account_id_required
      raise_if (is_empty w) wallet_id_required
      existing ← gets (λ db. select_first (is_address a w external) db.addresses)
      elim existing [ none ↦ transaction (assign_tx a w derive now) | some r ↦ pure r.address ]

-- What the two lookups make of the row that they find.
unfoldable pub mapped_account : Option AddressRow → Exec (Option Text)
mapped_account none = pure none
mapped_account (some r) =
    if is_empty (trim_space r.account_id)
    then raise invalid_account_mapping
    else pure (some (trim_space r.account_id))

-- WHERE wallet_id=? AND scope='external' AND address=?
unfoldable pub is_recipient : Text → Text → AddressRow → Bool
is_recipient w x r = eq_text r.wallet_id w && eq_text r.scope external && eq_text r.address x

unfoldable pub account_for_diversifier_index : Text → ℕ → Exec (Option Text)
account_for_diversifier_index wallet_id index =
    let w = trim_space wallet_id in
    do
      raise_if (is_empty w) wallet_id_required
      row ← gets (λ db. select_first (is_index w external (pos index)) db.addresses)
      mapped_account row

unfoldable pub account_for_recipient_address : Text → Text → Exec (Option Text)
account_for_recipient_address wallet_id recipient =
    let w = trim_space wallet_id in
    let x = to_lower (trim_space recipient) in
    do
      raise_if (is_empty w) wallet_id_required
      raise_if (is_empty x) recipient_address_required
      row ← gets (λ db. select_first (is_recipient w x) db.addresses)
      mapped_account row

-- The optional filter on the account: an id of spaces is no filter.
unfoldable pub is_listed : Text → Option Text → AddressRow → Bool
is_listed w none r = eq_text r.wallet_id w && eq_text r.scope external
is_listed w (some a) r =
    eq_text r.wallet_id w
    && eq_text r.scope external
    && (is_empty (trim_space a) || eq_text r.account_id (trim_space a))

unfoldable pub count_deposit_addresses : Text → Option Text → Exec ℕ
count_deposit_addresses wallet_id account_id =
    let w = trim_space wallet_id in
    do
      raise_if (is_empty w) wallet_id_required
      gets (λ db. count_where (is_listed w account_id) db.addresses)

abbrev pub index_before : AddressRow → AddressRow → Bool
index_before r s = ltb_ℤ r.address_index s.address_index

unfoldable pub read_address : AddressRow → Result AddressRow
read_address r =
    let a = trim_space r.account_id in
    let w = trim_space r.wallet_id in
    let s = trim_space r.scope in
    let x = trim_space r.address in
    if is_empty a || is_empty w || is_empty s || is_empty x
    then err invalid_row
    else if bad_index r.address_index
    then err invalid_index
    else if ltb_ℤ r.created_at (pos 0)
    then err invalid_timestamp
    else ok (record r { account_id = a; wallet_id = w; scope = s; address = x })

unfoldable pub read_addresses : List AddressRow → Result (List AddressRow)
read_addresses [] = ok []
read_addresses (r ∷ rest) = elim (read_address r) [
  | err e ↦ err e
  | ok t ↦ elim (read_addresses rest) [ err e ↦ err e | ok ts ↦ ok (t ∷ ts) ]
]

unfoldable pub list_deposit_addresses : Text → Option Text → ℤ → ℤ → Exec (List AddressRow)
list_deposit_addresses wallet_id account_id limit offset =
    let w = trim_space wallet_id in
    do
      raise_if (is_empty w) wallet_id_required
      raise_if (ltb_ℤ offset (pos 0)) negative_offset
      found ← gets (λ db. select_where (is_listed w account_id) db.addresses)
      let rows = sort_by index_before found
      lift (read_addresses (page_of (page_limit limit) (pos_part offset) rows))
