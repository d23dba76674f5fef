-- ===== src/Txplan/Prepare.antt =====
-- The configuration of a plan, and what the planners ask before they choose notes: internal/txplan/builder.go.
use juno_exchange_kit.Base.{ℕ, ◌+◌, ◌%◌, ◌||◌, Option, List, length, ltb, ◌==◌, if◌then◌else◌}
use juno_exchange_kit.Base.Int.{ℤ, pos, pos_part, ltb_ℤ}
use juno_exchange_kit.Base.Word.{max_uint32, word32}
use juno_exchange_kit.Base.Text.{Text, codes, eq_text, trim_space, to_lower}
use juno_exchange_kit.Txplan.Outcome.{
  Outcome, done, failed, ◌>>=◌, ◌>>◌, fail_if, unknown_chain, invalid_chain_height, expiry_overflow,
  no_spendable_notes,
}
use juno_exchange_kit.Txplan.Chunks.{SpendableNote}
use juno_exchange_kit.Txplan.Services.{Info, Rpc, Scan, get_info}
use juno_exchange_kit.Txplan.Actions.{list_spendable_notes}

pub record Output : Type 0 where
  pub to_address : Text
  pub amount_zat : ℕ
  pub memo_hex : Text

pub record SendConfig : Type 0 where
  pub rpc : Option Rpc
  pub scan : Option Scan
  pub wallet : Text
  pub coin_type : ℕ
  pub account : ℕ
  pub min_confirmations : ℤ
  pub expiry_offset : ℕ

pub data TxPlanKind : Type 0 where
  withdrawal rebalance sweep : TxPlanKind

-- `types.TxOutput`, `types.OrchardSpendNote` and `types.TxPlan`, with the fields that the source
-- fills; the version is a constant.
pub record TxOutput : Type 0 where
  pub to_address : Text
  pub amount_zat : Text
  pub memo_hex : Text

pub record SpendNote : Type 0 where
  pub note_id : Text
  pub action_nullifier : Text
  pub cmx : Text
  pub position : ℕ
  pub path : List Text
  pub ephemeral_key : Text
  pub enc_ciphertext : Text

pub record TxPlan : Type 0 where
  pub kind : TxPlanKind
  pub wallet_id : Text
  pub coin_type : ℕ
  pub account : ℕ
  pub chain : Text
  pub branch_id : ℕ
  pub anchor_height : ℕ
  pub anchor : Text
  pub expiry_height : ℕ
  pub outputs : List TxOutput
  pub change_address : Text
  pub fee_zat : Text
  pub notes : List SpendNote

-- The coin type of a chain.
unfoldable pub chain_coin_type : Text → Outcome ℕ
chain_coin_type chain =
    let c = to_lower (trim_space chain) in
    if eq_text c (codes "main")
    then done 8133
    else if eq_text c (codes "test")
    then done 8134
    else if eq_text c (codes "regtest")
    then done 8135
    else failed unknown_chain

unfoldable pub resolve_coin_type : ℕ → Text → Outcome ℕ
resolve_coin_type coin_type chain =
    let looked_up = chain_coin_type chain in if coin_type == 0 then looked_up else done coin_type

-- The expiry height, a uint32.
unfoldable pub expiry_height_of : ℤ → ℕ → Outcome ℕ
expiry_height_of height offset =
    let sum = (pos_part height + offset) % word32 in
    do
      fail_if (ltb_ℤ height (pos 0) || ltb_ℤ (pos max_uint32) height) invalid_chain_height
      fail_if (ltb sum (pos_part height)) expiry_overflow
      done sum

-- The defaults for a configuration.
unfoldable pub with_defaults : SendConfig → SendConfig
with_defaults cfg = record cfg {
  wallet = trim_space cfg.wallet;
  min_confirmations = if ltb_ℤ (pos 0) cfg.min_confirmations then cfg.min_confirmations else pos 1;
  expiry_offset = if cfg.expiry_offset == 0 then 40 else cfg.expiry_offset;
}

-- What the planners ask before they choose notes.
pub record Context : Type 0 where
  pub info : Info
  pub coin_type : ℕ
  pub expiry_height : ℕ
  pub notes : List SpendableNote

-- From `GetInfo` to the list of the notes that can be spent.
unfoldable pub prepare : Rpc → Scan → SendConfig → Outcome Context
prepare rpc scan cfg = do
  info ← get_info rpc
  coin_type ← resolve_coin_type cfg.coin_type info.chain
  expiry_height ← expiry_height_of info.height cfg.expiry_offset
  notes ← list_spendable_notes scan cfg.wallet info.height cfg.min_confirmations
  fail_if (length notes == 0) no_spendable_notes
  done (record { info = info; coin_type = coin_type; expiry_height = expiry_height; notes = notes })
