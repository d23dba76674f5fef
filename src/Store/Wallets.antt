-- ===== src/Store/Wallets.antt =====
-- Wallets, their address indices, the metadata and the scan cursors: internal/store/store.go,
-- internal/store/wallet_indices.go and the cursors of internal/store/deposits.go.
use juno_exchange_kit.Base.{
  ℕ, Bool, ◌||◌, Option, none, some, List, [], ◌∷◌, ◌++◌, ltb, if◌then◌else◌,
}
use juno_exchange_kit.Base.Int.{ℤ, pos, pos_part, ltb_ℤ, ◌+ℤ◌}
use juno_exchange_kit.Base.Word.{max_uint32}
use juno_exchange_kit.Base.Text.{Text, is_empty, trim_space}
use juno_exchange_kit.Base.Table.{select_first, update_where, count_where}
use juno_exchange_kit.Store.Schema.{
  MetaRow, WalletRow, CursorRow, Db, is_meta, is_wallet, is_cursor,
}
use juno_exchange_kit.Store.Exec.{
  Exec, pure, raise, gets, or_raise, transaction, raise_if, modify, ◌>>=◌, ◌>>◌, wallet_id_required,
  wallet_params_required, meta_key_required, negative_cursor, wallet_not_initialized,
  invalid_wallet_index, derived_address_empty, derive_failed,
}

-- INSERT … ON CONFLICT(wallet_id) DO UPDATE SET ufvk, seed_path: the indices stay.
unfoldable pub put_wallet : WalletRow → List WalletRow → List WalletRow
put_wallet w rows =
    if ltb 0 (count_where (is_wallet w.wallet_id) rows)
    then update_where (is_wallet w.wallet_id)
        (λ r. record r { ufvk = w.ufvk; seed_path = w.seed_path }) rows
    else rows ++ w ∷ []

unfoldable pub upsert_wallet : Text → Text → Text → ℤ → Exec (Unit {0})
upsert_wallet wallet_id ufvk seed_path now =
    let id = trim_space wallet_id in
    let key = trim_space ufvk in
    let path = trim_space seed_path in
    do
      raise_if (is_empty id || is_empty key || is_empty path) wallet_params_required
      modify (λ db. record db {
        wallets =
            put_wallet
              (record {
                wallet_id = id;
                ufvk = key;
                seed_path = path;
                next_external_index = pos 0;
                next_internal_index = pos 0;
                created_at = now;
                disabled_at = none;
              })
              db.wallets;
      })

-- Outside the range of a uint32.
unfoldable pub bad_index : ℤ → Bool
bad_index i = ltb_ℤ i (pos 0) || ltb_ℤ (pos max_uint32) i

-- `Wallet`: no row is no error.
unfoldable pub wallet : Text → Exec (Option WalletRow)
wallet wallet_id =
    let id = trim_space wallet_id in
    do
      raise_if (is_empty id) wallet_id_required
      row ← gets (λ db. select_first (is_wallet id) db.wallets)
      elim row [
        | none ↦ pure none
        | some w ↦
            if bad_index w.next_external_index || bad_index w.next_internal_index
            then raise invalid_wallet_index
            else pure (some w)
      ]

-- INSERT INTO scan_cursors … ON CONFLICT(wallet_id) DO NOTHING
unfoldable pub ensure_cursor : Text → List CursorRow → List CursorRow
ensure_cursor w rows =
    if ltb 0 (count_where (is_cursor w) rows)
    then rows
    else rows ++ record { wallet_id = w; cursor = pos 0 } ∷ []

unfoldable pub ensure_scan_cursor : Text → Exec (Unit {0})
ensure_scan_cursor wallet_id =
    let id = trim_space wallet_id in
    do
      raise_if (is_empty id) wallet_id_required
      modify (λ db. record db { cursors = ensure_cursor id db.cursors })

unfoldable pub get_scan_cursor : Text → Exec ℤ
get_scan_cursor wallet_id =
    let id = trim_space wallet_id in
    do
      raise_if (is_empty id) wallet_id_required
      row ← gets (λ db. select_first (is_cursor id) db.cursors)
      elim row [ none ↦ ensure_scan_cursor id >> pure (pos 0) | some r ↦ pure r.cursor ]

-- INSERT … ON CONFLICT(wallet_id) DO UPDATE SET cursor=excluded.cursor
unfoldable pub put_cursor : Text → ℤ → List CursorRow → List CursorRow
put_cursor w c rows =
    if ltb 0 (count_where (is_cursor w) rows)
    then update_where (is_cursor w) (λ r. record r { cursor = c }) rows
    else rows ++ record { wallet_id = w; cursor = c } ∷ []

unfoldable pub set_scan_cursor : Text → ℤ → Exec (Unit {0})
set_scan_cursor wallet_id cursor =
    let id = trim_space wallet_id in
    do
      raise_if (is_empty id) wallet_id_required
      raise_if (ltb_ℤ cursor (pos 0)) negative_cursor
      modify (λ db. record db { cursors = put_cursor id cursor db.cursors })

-- INSERT … ON CONFLICT(key) DO UPDATE SET value=excluded.value
unfoldable pub put_meta : Text → Text → List MetaRow → List MetaRow
put_meta k v rows =
    if ltb 0 (count_where (is_meta k) rows)
    then update_where (is_meta k) (λ r. record r { value = v }) rows
    else rows ++ record { key = k; value = v } ∷ []

unfoldable pub set_meta : Text → Text → Exec (Unit {0})
set_meta key value =
    let k = trim_space key in
    do
      raise_if (is_empty k) meta_key_required
      modify (λ db. record db { meta = put_meta k value db.meta })

-- `Meta`: no row is no error.
unfoldable pub meta : Text → Exec (Option Text)
meta key =
    let k = trim_space key in
    do
      raise_if (is_empty k) meta_key_required
      row ← gets (λ db. select_first (is_meta k) db.meta)
      elim row [ none ↦ pure none | some r ↦ pure (some r.value) ]

-- The derived address, trimmed; `derive` is the key derivation at a uint32 index.
unfoldable pub derived : (ℕ → Option Text) → ℤ → Exec Text
derived derive index = do
  raw ← or_raise (derive (pos_part index)) derive_failed
  raise_if (is_empty (trim_space raw)) derived_address_empty
  pure (trim_space raw)

-- UPDATE wallets SET next_internal_index=? WHERE wallet_id=?
unfoldable pub set_internal_index : Text → ℤ → Db → Db
set_internal_index id i db = record db {
  wallets = update_where (is_wallet id) (λ r. record r { next_internal_index = i }) db.wallets;
}

-- The transaction of `NextInternalAddress`.
unfoldable pub next_internal_tx : Text → (ℕ → Option Text) → Exec Text
next_internal_tx id derive = do
  row ← gets (λ db. select_first (is_wallet id) db.wallets)
  w ← or_raise row wallet_not_initialized
  raise_if (bad_index w.next_internal_index) invalid_wallet_index
  addr ← derived derive w.next_internal_index
  modify (set_internal_index id (w.next_internal_index +ℤ pos 1))
  pure addr

unfoldable pub next_internal_address : Text → (ℕ → Option Text) → Exec Text
next_internal_address wallet_id derive =
    let id = trim_space wallet_id in
    do raise_if (is_empty id) wallet_id_required; transaction (next_internal_tx id derive)
