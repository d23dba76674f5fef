-- ===== src/Txplan/Actions.antt =====
-- The notes that can be spent, and the actions that made them: the second half of
-- internal/txplan/builder.go.
use juno_exchange_kit.Base.{
  ℕ, ◌%◌, Bool, false, not, ◌||◌, ◌&&◌, Option, none, some, List, [], ◌∷◌, map, length, take, ◌==◌,
  get_elem?, if◌then◌else◌,
}
use juno_exchange_kit.Base.Int.{ℤ, pos, pos_part, ltb_ℤ}
use juno_exchange_kit.Base.Word.{add_int64, sub_int64, max_int64, max_uint32, word32}
use juno_exchange_kit.Base.Text.{Text, is_empty, eq_text, trim_space, to_lower}
use juno_exchange_kit.Base.Decimal.{is_hex}
use juno_exchange_kit.Base.Table.{select_first}
use juno_exchange_kit.Store.Addresses.{eq_ℤ}
use juno_exchange_kit.Txplan.Outcome.{
  Outcome, done, failed, ◌>>=◌, ◌>>◌, or_fail, fail_if, service_failed, value_too_large,
  position_too_large, action_out_of_range, invalid_action, tx_not_found,
}
use juno_exchange_kit.Txplan.Notes.{UnspentNote}
use juno_exchange_kit.Txplan.Chunks.{SpendableNote}
use juno_exchange_kit.Txplan.Services.{RawAction, BlockTx, Rpc, WalletNote, Scan}

-- A note that another transaction is about to spend.
unfoldable pub is_pending : WalletNote → Bool
is_pending n = elim n.pending_spent_txid [ none ↦ false | some t ↦ not (is_empty (trim_space t)) ]

unfoldable pub has_position : WalletNote → Bool
has_position n = elim n.position [ none ↦ false | some p ↦ not (ltb_ℤ p (pos 0)) ]

-- The number of confirmations of a note at a tip.
unfoldable pub confirmations : ℤ → WalletNote → ℤ
confirmations tip n = add_int64 (sub_int64 tip n.height) (pos 1)

-- A note that the loop skips.
unfoldable pub is_skipped : ℤ → ℤ → WalletNote → Bool
is_skipped tip min_conf n =
    is_pending n
    || not (has_position n)
    || ltb_ℤ n.height (pos 0)
    || ltb_ℤ tip n.height
    || ltb_ℤ (confirmations tip n) min_conf
    || ltb_ℤ n.action_index (pos 0)
    || not (ltb_ℤ (pos 0) n.value_zat)

position_or_zero : Option ℤ → ℤ
position_or_zero none = pos 0
position_or_zero (some p) = p

unfoldable pub position_of : WalletNote → ℤ
unfolding position_or_zero
position_of n = position_or_zero n.position

unfoldable pub to_spendable : WalletNote → SpendableNote
to_spendable n = record {
  txid = to_lower (trim_space n.txid);
  action_index = pos_part n.action_index % word32;
  height = n.height;
  position = pos_part (position_of n) % word32;
  value_zat = pos_part n.value_zat;
}

-- The loop of `listSpendableNotes`.
unfoldable pub spendable_loop : ℤ → ℤ → List WalletNote → Outcome (List SpendableNote)
spendable_loop tip min_conf [] = done []
spendable_loop tip min_conf (n ∷ ns) =
    let rest = spendable_loop tip min_conf ns in
    if is_skipped tip min_conf n
    then rest
    else if ltb_ℤ (pos max_int64) n.value_zat
    then failed value_too_large
    else if ltb_ℤ (pos max_uint32) (position_of n)
    then failed position_too_large
    else rest >>= λ out. done (to_spendable n ∷ out)

unfoldable pub list_spendable_notes : Scan → Text → ℤ → ℤ → Outcome (List SpendableNote)
list_spendable_notes scan wallet tip min_conf = do
  raw ← or_fail (scan.wallet_notes wallet) service_failed
  spendable_loop tip min_conf raw

-- `notesToUnspent`
abbrev pub to_unspent : SpendableNote → UnspentNote
to_unspent n = record { txid = n.txid; action_index = n.action_index; value_zat = n.value_zat }

unfoldable pub notes_to_unspent : List SpendableNote → List UnspentNote
notes_to_unspent = map to_unspent

-- `findNote`
unfoldable pub find_note : List SpendableNote → Text → ℕ → Option SpendableNote
find_note ns txid action_index =
    select_first (λ (n : SpendableNote). eq_text n.txid txid && (n.action_index == action_index)) ns

-- The blocks that were fetched, by their height.
abbrev pub BlockCache : Type 0
BlockCache = List (ℤ × List BlockTx)

unfoldable pub cached_block : ℤ → BlockCache → Option (List BlockTx)
cached_block height [] = none
cached_block height ((h, blk) ∷ cache) =
    if eq_ℤ h height then some blk else cached_block height cache

unfoldable pub fetch_block : Rpc → ℤ → Outcome (List BlockTx)
fetch_block rpc height = do
  hash ← or_fail (rpc.block_hash height) service_failed
  or_fail (rpc.block hash) service_failed

-- The block of a height, and the cache with it.
unfoldable pub block_at : Rpc → BlockCache → ℤ → Outcome (List BlockTx × BlockCache)
block_at rpc cache height = elim (cached_block height cache) [
  | some blk ↦ done (blk, cache)
  | none ↦ fetch_block rpc height >>= λ blk. done (blk, (height, blk) ∷ cache)
]

-- `is32ByteHex`
unfoldable pub is_32_byte_hex : Text → Bool
is_32_byte_hex s = (length s == 64) && is_hex s

unfoldable pub lower_action : RawAction → RawAction
lower_action a = record {
  nullifier = to_lower (trim_space a.nullifier);
  cmx = to_lower (trim_space a.cmx);
  ephemeral_key = to_lower (trim_space a.ephemeral_key);
  enc_ciphertext = take 104 (to_lower (trim_space a.enc_ciphertext));
}

unfoldable pub check_action : RawAction → Outcome RawAction
check_action a = do
  fail_if
      (not (is_32_byte_hex a.nullifier)
        || not (is_32_byte_hex a.cmx)
        || not (is_32_byte_hex a.ephemeral_key))
      invalid_action
  fail_if (not (length a.enc_ciphertext == 104)) invalid_action
  fail_if (not (is_hex a.enc_ciphertext)) invalid_action
  done a

-- The first transaction of a block with an id.
unfoldable pub find_tx : Text → List BlockTx → Option BlockTx
find_tx txid txs = select_first (λ (t : BlockTx). eq_text (to_lower (trim_space t.txid)) txid) txs

unfoldable pub action_in_block : List BlockTx → Text → ℕ → Outcome RawAction
action_in_block blk txid action_index = do
  t ← or_fail (find_tx (to_lower (trim_space txid)) blk) tx_not_found
  a ← or_fail (get_elem? t.actions action_index) action_out_of_range
  check_action (lower_action a)

-- `orchardActionForNote`, with the cache that it leaves.
unfoldable pub orchard_action_for_note :
    Rpc → BlockCache → ℤ → Text → ℕ → Outcome (RawAction × BlockCache)
orchard_action_for_note rpc cache height txid action_index = do
  found ← block_at rpc cache height
  act ← action_in_block found.0 txid action_index
  done (act, found.1)
