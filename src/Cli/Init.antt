-- ===== src/Cli/Init.antt =====
-- `runInit`: internal/cli/init.go. The children of this module are about it.
pub mod Settings
pub mod RoundTrip
use juno_exchange_kit.Base.{
  ℕ, ◌&&◌, ◌||◌, ◌==◌, Bool, true, false, not, Option, none, some, List, [], ◌∷◌, ◌++◌,
  if◌then◌else◌,
}
use juno_exchange_kit.Base.Text.{Text, codes, is_empty, eq_text, trim_space, to_lower}
use juno_exchange_kit.Base.Word.{max_uint32}
use juno_exchange_kit.Base.Decimal.{parse_uint, format_uint}
use juno_exchange_kit.Store.Exec.{Exec, Result, ok, err}
use juno_exchange_kit.Store.Wallets.{meta, set_meta, upsert_wallet, ensure_scan_cursor}
use juno_exchange_kit.Txplan.Services.{Rpc, ChainResponse}
use juno_exchange_kit.Cli.Command.{
  World, Ended, returned, exited, Cmd, exit_if, or_exit, settle, from_store, try_store, report,
  ◌>>=◌, ◌>>◌, io_failed, node_rpc_failed, unknown_chain, other_ua_hrp, other_coin_type,
  keys_failed, invalid_service_url,
}
use juno_exchange_kit.Cli.Config.{
  Host, RpcFlags, ServicesFlags, resolved, resolved_scan_url, open_data_dir,
}
use juno_exchange_kit.Cli.Setup.{hot, cold, client_of}
use juno_exchange_kit.Cli.Seeds.{ensure_seed_file}

-- `uaHRPFromChain`
unfoldable pub ua_hrp_from_chain : Text → Option Text
ua_hrp_from_chain chain =
    let c = to_lower (trim_space chain) in
    if eq_text c (codes "main")
    then some (codes "j")
    else if eq_text c (codes "test")
    then some (codes "jtest")
    else if eq_text c (codes "regtest")
    then some (codes "jregtest")
    else none

-- `coinTypeFromChain`; 0 stands for an unknown chain, as the caller reads it.
unfoldable pub coin_type_from_chain : Text → ℕ
coin_type_from_chain chain =
    let c = to_lower (trim_space chain) in
    if eq_text c (codes "main")
    then 8133
    else if eq_text c (codes "test")
    then 8134
    else if eq_text c (codes "regtest")
    then 8135
    else 0

pub record InitFlags : Type 0 where
  pub data_dir : Text
  pub rpc : RpcFlags
  pub services : ServicesFlags
  pub ua_hrp : Text

-- What the node says that the settings should be.
pub record Expected : Type 0 where
  pub chain : Text
  pub ua_hrp : Text
  pub coin_type : ℕ

abbrev pub override_or : Text → Option Text → Option Text
override_or flag looked_up =
    if is_empty (trim_space flag) then looked_up else some (trim_space flag)

unfoldable pub expectation : InitFlags → Option ChainResponse → Ended Expected
expectation flags none = exited node_rpc_failed
expectation flags (some info) = elim (override_or flags.ua_hrp (ua_hrp_from_chain info.chain)) [
  | none ↦ exited unknown_chain
  | some hrp ↦ returned (record {
    chain = to_lower (trim_space info.chain);
    ua_hrp = hrp;
    coin_type = coin_type_from_chain info.chain;
  })
]

abbrev pub some_ended : {A : Type 0} → Ended A → Ended (Option A)
some_ended (returned a) = returned (some a)
some_ended (exited e) = exited e

-- A data directory that is initialized needs no node.
unfoldable pub ask_node :
    Host → InitFlags → Bool → Ended (Text × Text × Text) → Ended (Option Expected)
ask_node host flags initialized (returned (url, user, pass)) =
    some_ended (expectation flags (host.rpc_client url user pass).blockchain_info)
ask_node host flags true (exited e) = returned none
ask_node host flags false (exited e) = exited e

-- The value of a key, where a missing key and an error are both empty.
abbrev pub value_or_empty : {A : Type 0} → Result (Option Text) × A → Text
value_or_empty (ok (some v), db) = v
value_or_empty (ok none, db) = []
value_or_empty (err e, db) = []

unfoldable pub is_initialized : Cmd Bool
is_initialized w = (
  returned (eq_text (trim_space (value_or_empty (meta (codes "initialized") w.db))) (codes "1")),
  w,
)

abbrev pub text_of : Option Text → Text
text_of none = []
text_of (some s) = s

abbrev pub number_of : Option ℕ → ℕ
number_of none = 0
number_of (some n) = n

-- What the command prints.
pub record InitReport : Type 0 where
  pub was_initialized : Bool
  pub ua_hrp : Text
  pub coin_type : ℕ

-- strings.EqualFold
unfoldable pub equal_fold : Text → Text → Bool
equal_fold s t = eq_text (to_lower s) (to_lower t)

-- The stored settings against those of the node, if it was asked.
unfoldable pub check_settings : Text → ℕ → Option Expected → Cmd (Unit {0})
check_settings hrp coin_type none = report tt
check_settings hrp coin_type (some x) = do
  exit_if
      (not (is_empty (trim_space x.ua_hrp))
        && not (is_empty (trim_space hrp))
        && not (equal_fold (trim_space hrp) x.ua_hrp))
      other_ua_hrp
  exit_if (not (x.coin_type == 0) && not (coin_type == 0) && not (coin_type == x.coin_type))
      other_coin_type
  try_store (set_meta (codes "chain") x.chain)

-- On a data directory that is initialized.
unfoldable pub confirm_settings : Option Expected → Cmd InitReport
confirm_settings expected = do
  hrp ← from_store (meta (codes "ua_hrp"))
  text ← from_store (meta (codes "coin_type"))
  let coin_type = number_of (parse_uint max_uint32 (trim_space (text_of text)))
  check_settings (text_of hrp) coin_type expected
  report
      (record { was_initialized = true; ua_hrp = trim_space (text_of hrp); coin_type = coin_type })

-- The settings that are stored last, without regard to errors.
unfoldable pub store_settings : Expected → Cmd (Unit {0})
store_settings x = do
  try_store (set_meta (codes "ua_hrp") x.ua_hrp)
  try_store (set_meta (codes "coin_type") (format_uint x.coin_type))
  try_store (set_meta (codes "account") (codes "0"))
  try_store (set_meta (codes "chain") x.chain)
  try_store (set_meta (codes "initialized") (codes "1"))

-- The keys, wallets and cursors of a new data directory.
unfoldable pub create_wallets : Host → Text → Expected → Cmd (Unit {0})
create_wallets host dir x =
    let keys = dir ++ codes "/keys" in
    do
      exit_if (not (host.makes_dir keys)) io_failed
      hot_seed ← ensure_seed_file host (keys ++ codes "/hot.seed")
      cold_seed ← ensure_seed_file host (keys ++ codes "/cold.seed")
      hot_ufvk ← or_exit (host.ufvk_from_seed hot_seed x.ua_hrp x.coin_type) keys_failed
      cold_ufvk ← or_exit (host.ufvk_from_seed cold_seed x.ua_hrp x.coin_type) keys_failed
      _ ← from_store (upsert_wallet hot hot_ufvk (keys ++ codes "/hot.seed") host.now)
      _ ← from_store (upsert_wallet cold cold_ufvk (keys ++ codes "/cold.seed") host.now)
      _ ← from_store (ensure_scan_cursor hot)
      from_store (ensure_scan_cursor cold)

-- The scanner is told of the wallets if its URL is known.
unfoldable pub tell_scanner : Host → ServicesFlags → Ended (Unit {0})
tell_scanner host services =
    let url = resolved_scan_url host services in
    if is_empty url
    then returned tt
    else elim (host.scan_client url) [ none ↦ exited invalid_service_url | some sc ↦ returned tt ]

-- On a new data directory.
unfoldable pub initialize : Host → InitFlags → Text → Option Expected → Cmd InitReport
initialize host flags dir expected = do
  x ← or_exit expected unknown_chain
  exit_if (x.coin_type == 0) unknown_chain
  create_wallets host dir x
  store_settings x
  settle (tell_scanner host flags.services)
  report (record { was_initialized = false; ua_hrp = x.ua_hrp; coin_type = x.coin_type })

unfoldable pub run_init : Host → InitFlags → Cmd InitReport
run_init host flags = do
  dir ← settle (open_data_dir host flags.data_dir)
  initialized ← is_initialized
  expected ← settle (ask_node host flags initialized (resolved host flags.rpc))
  if initialized then confirm_settings expected else initialize host flags dir expected
