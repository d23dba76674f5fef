-- ===== src/Txplan/Services.antt =====
-- The remote services that internal/txplan asks, as parameters: junocashd by its RPC and the scanner.
-- What a service answers is a function of the request, none is an error that it returns. The fields
-- are those that the source reads. `GetInfo` is internal/chain/chain.go.
use juno_exchange_kit.Base.{ℕ, Option, List}
use juno_exchange_kit.Base.Int.{ℤ}
use juno_exchange_kit.Base.Text.{Text, is_empty, trim_space}
use juno_exchange_kit.Base.Decimal.{parse_hex32}
use juno_exchange_kit.Txplan.Outcome.{
  Outcome, done, ◌>>=◌, ◌>>◌, or_fail, fail_if, service_failed, missing_chain, missing_chaintip,
  invalid_chaintip,
}

-- The answer to getblockchaininfo.
pub record ChainResponse : Type 0 where
  pub chain : Text
  pub blocks : ℤ
  pub chaintip : Text

pub record RawAction : Type 0 where
  pub nullifier : Text
  pub cmx : Text
  pub ephemeral_key : Text
  pub enc_ciphertext : Text

-- The transactions of `blockV2`.
pub record BlockTx : Type 0 where
  pub txid : Text
  pub actions : List RawAction

pub record Rpc : Type 0 where
  pub blockchain_info : Option ChainResponse
  pub block_hash : ℤ → Option Text
  pub block : Text → Option (List BlockTx)

pub record WalletNote : Type 0 where
  pub txid : Text
  pub action_index : ℤ
  pub height : ℤ
  pub position : Option ℤ
  pub value_zat : ℤ
  pub pending_spent_txid : Option Text

pub record WitnessPath : Type 0 where
  pub position : ℕ
  pub auth_path : List Text

pub record Witness : Type 0 where
  pub root : Text
  pub anchor_height : ℤ
  pub paths : List WitnessPath

pub record Scan : Type 0 where
  pub wallet_notes : Text → Option (List WalletNote)
  pub orchard_witness : List ℕ → Option Witness

-- `chain.Info`
pub record Info : Type 0 where
  pub chain : Text
  pub height : ℤ
  pub branch_id : ℕ

-- `chain.GetInfo`
unfoldable pub get_info : Rpc → Outcome Info
get_info rpc = do
  resp ← or_fail rpc.blockchain_info service_failed
  fail_if (is_empty (trim_space resp.chain)) missing_chain
  fail_if (is_empty (trim_space resp.chaintip)) missing_chaintip
  branch_id ← or_fail (parse_hex32 (trim_space resp.chaintip)) invalid_chaintip
  done (record { chain = trim_space resp.chain; height = resp.blocks; branch_id = branch_id })
