-- ===== src/Tests/Preparing.antt =====
-- A new data directory, its seed files, and the arguments of a command.
use juno_exchange_kit.Cli.Config.{
  flag_or_env, open_data_dir, resolved, resolved_data_dir, resolved_scan_url,
}
use juno_exchange_kit.Store.Wallets.{
  ensure_scan_cursor, meta, put_meta, put_wallet, set_meta, upsert_wallet,
}
use juno_exchange_kit.Base.Decimal.{digits, format_uint}
use juno_exchange_kit.Base.Table.{select_first}
use mathlib.Core.List.{Perm}
use juno_exchange_kit.Base.{
  subst, length-replicate, ℕ, ◌≡◌, refl, false, some, List, [], ◌∷◌, length, arith,
}
use juno_exchange_kit.Base.Text.{
  Text, codes, eq_text, is_space, lower_char, to_lower, trim_left, trim_right, trim_space,
}
use juno_exchange_kit.Store.Schema.{empty_db, is_meta}
use juno_exchange_kit.Cli.Command.{World, returned}
use juno_exchange_kit.Cli.Seeds.{
  ensure_seed_file, ensure_seed_file_again, base64_char, base64_encode, new_seed_file, read_file,
  stored_seed, write_file,
}
use juno_exchange_kit.Cli.Init.{
  InitFlags, InitReport, run_init, ask_node, coin_type_from_chain, create_wallets, expectation,
  initialize, is_initialized, store_settings, tell_scanner, ua_hrp_from_chain,
}
use juno_exchange_kit.Cli.Init.RoundTrip.{ReadsBack, run_init-ReadsBack}
use juno_exchange_kit.Cli.Args.{FlagSet, reorder_flag_args}
use juno_exchange_kit.Cli.Args.Laws.{reorder_flag_args-perm, reorder_flag_args_idem}
use juno_exchange_kit.Tests.Commands.{demo_host, demo_login, demo_urls, returned_at, some_bytes}

abbrev new_world : World
new_world = record { db = empty_db; submitted = []; files = [] }

abbrev demo_init : InitFlags
demo_init = record { data_dir = codes "/data"; rpc = demo_login; services = demo_urls; ua_hrp = [] }

abbrev demo_report : InitReport
demo_report = record { was_initialized = false; ua_hrp = codes "j"; coin_type = 8133 }

demo_init-returns : (run_init demo_host demo_init new_world).0 ≡ returned demo_report
unfolding run_init open_data_dir resolved_data_dir flag_or_env resolved resolved_scan_url
    is_initialized meta is_meta ask_node expectation ua_hrp_from_chain coin_type_from_chain
    initialize create_wallets store_settings tell_scanner ensure_seed_file stored_seed new_seed_file
    read_file write_file base64_encode base64_char upsert_wallet put_wallet ensure_scan_cursor
    set_meta put_meta format_uint digits trim_space trim_left trim_right is_space to_lower
    lower_char eq_text select_first
demo_init-returns = refl

run_init-ReadsBack_example : ReadsBack demo_report (run_init demo_host demo_init new_world).1
run_init-ReadsBack_example =
    run_init-ReadsBack demo_host demo_init new_world (run_init demo_host demo_init new_world).1
      demo_report (returned_at (run_init demo_host demo_init new_world) demo_init-returns) refl

abbrev seed_path : Text
seed_path = codes "/data/keys/hot.seed"

abbrev seed_world : World
seed_world = record new_world { files = (seed_path, codes "c2VlZA==\n") ∷ [] }

seed_world-returns :
    (ensure_seed_file demo_host seed_path seed_world).0 ≡ returned (codes "c2VlZA==")
unfolding ensure_seed_file stored_seed read_file trim_space trim_left trim_right is_space eq_text
seed_world-returns = refl

some_bytes-sized : (n : ℕ) (bytes : List ℕ) → some_bytes n ≡ some bytes → length bytes ≡ n
some_bytes-sized n bytes h = subst (λ b. length b ≡ n) (ground arith) (length-replicate n 7)

ensure_seed_file_again_example :
    ensure_seed_file demo_host seed_path (ensure_seed_file demo_host seed_path seed_world).1
    ≡ (returned (codes "c2VlZA=="), (ensure_seed_file demo_host seed_path seed_world).1)
ensure_seed_file_again_example =
    ensure_seed_file_again demo_host demo_host seed_path (codes "c2VlZA==") seed_world
      (ensure_seed_file demo_host seed_path seed_world).1 some_bytes-sized
      (returned_at (ensure_seed_file demo_host seed_path seed_world) seed_world-returns)

abbrev demo_flags : FlagSet
demo_flags name = some false

abbrev demo_args : List Text
demo_args = codes "acc" ∷ codes "--data-dir" ∷ codes "/data" ∷ []

reorder_flag_args-perm_example : Perm (reorder_flag_args demo_flags demo_args) demo_args
reorder_flag_args-perm_example = reorder_flag_args-perm demo_flags demo_args

reorder_flag_args_idem_example :
    reorder_flag_args demo_flags (reorder_flag_args demo_flags demo_args)
    ≡ reorder_flag_args demo_flags demo_args
reorder_flag_args_idem_example = reorder_flag_args_idem demo_flags demo_args
