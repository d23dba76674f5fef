-- ===== src/Cli/Config.antt =====
-- The settings of a command: internal/cli/config.go, the flags and the data directory of
-- internal/cli/cli.go, and what surrounds the program.
use juno_exchange_kit.Base.{ℕ, ◌||◌, Bool, Option, none, some, List, ◌++◌, if◌then◌else◌}
use juno_exchange_kit.Base.Int.{ℤ}
use juno_exchange_kit.Base.Text.{Text, codes, is_empty, trim_space}
use juno_exchange_kit.Txplan.Services.{Rpc, Scan}
use juno_exchange_kit.Txplan.Prepare.{TxPlan}
use juno_exchange_kit.Cli.Command.{
  Ended, returned, exited, no_data_dir, io_failed, rpc_url_required, rpc_login_required,
}

-- The JSON that juno-txsign prints, by the fields that are read.
pub record SignerReply : Type 0 where
  pub status : Text
  pub txid : Text
  pub raw_tx_hex : Text
  pub fee_zat : Text
  pub error_code : Text
  pub error_message : Text

-- How the child process ends.
pub data SignerRun : Type 0 where
  process_error not_json : SignerRun
  printed : SignerReply → SignerRun

-- The client of juno-broadcast. `submit` is given what was accepted before, and answers with the
-- transaction's id or an error; `confirmed` tells whether the wait ends well.
pub record Broadcaster : Type 0 where
  pub submit : List Text → Text → Option Text
  pub confirmed : Text → ℤ → Bool

-- What the commands ask of the machine and of the libraries: the environment, the home directory,
-- store.Open, the file system, the clients of the services, the key library and the signer.
pub record Host : Type 0 where
  pub getenv : Text → Text
  pub user_home_dir : Option Text
  pub opens : Text → Bool
  pub rpc_client : Text → Text → Text → Rpc
  pub scan_client : Text → Option Scan
  pub broadcast_client : Text → Option Broadcaster
  -- AddressFromUFVK at a key, a prefix, a scope and an index; UFVKFromSeedBase64 at a seed, a prefix and a
  -- coin type, for account 0.
  pub address_from_ufvk : Text → Text → Text → ℕ → Option Text
  pub ufvk_from_seed : Text → Text → ℕ → Option Text
  -- Whether a directory can be made, and a file written.
  pub makes_dir : Text → Bool
  pub writable : Text → Bool
  pub run_txsign : Text → Text → TxPlan → SignerRun
  -- The JSON of a plan, what a JSON text decodes to, and the standard input.
  pub plan_json : TxPlan → Text
  pub decode_plan : Text → Option TxPlan
  pub stdin : Text
  pub random : ℕ → Option (List ℕ)
  pub now : ℤ

-- The value of a flag, or else of the environment.
unfoldable pub flag_or_env : Host → Text → Text → Text
flag_or_env host flag name =
    if is_empty (trim_space flag) then trim_space (host.getenv name) else trim_space flag

pub record RpcFlags : Type 0 where
  pub rpc_url : Text
  pub rpc_user : Text
  pub rpc_pass : Text

-- `rpcFlags.resolved`
unfoldable pub resolved : Host → RpcFlags → Ended (Text × Text × Text)
resolved host r =
    let url = flag_or_env host r.rpc_url (codes "JUNO_RPC_URL") in
    let user = flag_or_env host r.rpc_user (codes "JUNO_RPC_USER") in
    let pass = flag_or_env host r.rpc_pass (codes "JUNO_RPC_PASS") in
    if is_empty url
    then exited rpc_url_required
    else if is_empty user || is_empty pass
    then exited rpc_login_required
    else returned (url, user, pass)

pub record ServicesFlags : Type 0 where
  pub scan_url : Text
  pub broadcast_url : Text

unfoldable pub resolved_scan_url : Host → ServicesFlags → Text
resolved_scan_url host s = flag_or_env host s.scan_url (codes "JUNO_SCAN_URL")

unfoldable pub resolved_broadcast_url : Host → ServicesFlags → Text
resolved_broadcast_url host s = flag_or_env host s.broadcast_url (codes "JUNO_BROADCAST_URL")

-- `commonFlags.resolvedDataDir`, on a machine whose separator is the slash.
unfoldable pub resolved_data_dir : Host → Text → Option Text
resolved_data_dir host data_dir =
    let v = flag_or_env host data_dir (codes "JUNO_EXCHANGE_KIT_DATA_DIR") in
    if is_empty v
    then elim host.user_home_dir [
      | none ↦ none
      | some home ↦ some (home ++ codes "/.juno-exchange-kit")
    ]
    else some v

-- The data directory and its store, as every command opens them.
unfoldable pub open_data_dir : Host → Text → Ended Text
open_data_dir host data_dir = elim (resolved_data_dir host data_dir) [
  | none ↦ exited no_data_dir
  | some dir ↦ if host.opens dir then returned dir else exited io_failed
]

-- `txsignBinFromEnv`
unfoldable pub txsign_bin_from_env : Host → Text
txsign_bin_from_env host =
    let v = trim_space (host.getenv (codes "JUNO_TXSIGN_BIN")) in
    if is_empty v then codes "juno-txsign" else v

-- The flag, or the environment if the flag is blank.
unfoldable pub txsign_bin : Host → Text → Text
txsign_bin host flag = if is_empty (trim_space flag) then txsign_bin_from_env host else flag
