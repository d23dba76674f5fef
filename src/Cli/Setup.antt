-- ===== src/Cli/Setup.antt =====
-- What `init` has stored, as the commands read it back, and the services that they call: the parts that
-- internal/cli/withdraw.go and internal/cli/cold_to_hot.go share, and `loadSweepDeps` of
-- internal/cli/sweep.go.
use juno_exchange_kit.Base.{ℕ, ◌==◌, Option, none, some, if◌then◌else◌}
use juno_exchange_kit.Base.Text.{Text, codes, is_empty, trim_space}
use juno_exchange_kit.Base.Word.{max_uint32}
use juno_exchange_kit.Base.Decimal.{parse_uint}
use juno_exchange_kit.Store.Schema.{WalletRow}
use juno_exchange_kit.Store.Wallets.{meta, wallet}
use juno_exchange_kit.Txplan.Services.{Rpc, Scan}
use juno_exchange_kit.Cli.Command.{
  Ended, returned, exited, Cmd, Failure, exit_if, or_exit, settle, from_store, report, ◌>>=◌, ◌>>◌,
  not_initialized, coin_type_missing, invalid_coin_type, scan_url_required, broadcast_url_required,
  invalid_service_url,
}
use juno_exchange_kit.Cli.Config.{
  Host, RpcFlags, ServicesFlags, Broadcaster, resolved, resolved_scan_url, resolved_broadcast_url,
}

abbrev pub hot : Text
hot = codes "hot"

abbrev pub cold : Text
cold = codes "cold"

abbrev pub unless_zero : Option ℕ → Option ℕ
unless_zero none = none
unless_zero (some n) = if n == 0 then none else some n

-- The stored coin type: a uint32 other than 0.
unfoldable pub parse_coin_type : Text → Option ℕ
parse_coin_type s = unless_zero (parse_uint max_uint32 (trim_space s))

-- The prefix of the addresses.
unfoldable pub stored_hrp : Cmd Text
stored_hrp = do
  found ← from_store (meta (codes "ua_hrp"))
  hrp ← or_exit found not_initialized
  exit_if (is_empty (trim_space hrp)) not_initialized
  report hrp

unfoldable pub stored_coin_type : Cmd ℕ
stored_coin_type = do
  found ← from_store (meta (codes "coin_type"))
  text ← or_exit found coin_type_missing
  or_exit (parse_coin_type text) invalid_coin_type

unfoldable pub stored_wallet : Text → Failure → Cmd WalletRow
stored_wallet wallet_id missing = do found ← from_store (wallet wallet_id); or_exit found missing

-- The clients of the three services.
pub record Services : Type 0 where
  pub rpc : Rpc
  pub scan : Scan
  pub broadcaster : Broadcaster

unfoldable pub client_of : {A : Type 0} → Option A → Ended A
client_of none = exited invalid_service_url
client_of (some a) = returned a

unfoldable pub connect : Host → RpcFlags → ServicesFlags → Cmd Services
connect host rpc services =
    let scan_url = resolved_scan_url host services in
    let broadcast_url = resolved_broadcast_url host services in
    do
      login ← settle (resolved host rpc)
      exit_if (is_empty scan_url) scan_url_required
      exit_if (is_empty broadcast_url) broadcast_url_required
      scan ← settle (client_of (host.scan_client scan_url))
      broadcaster ← settle (client_of (host.broadcast_client broadcast_url))
      report (record {
        rpc = host.rpc_client login.0 login.1 login.2;
        scan = scan;
        broadcaster = broadcaster;
      })
