-- ===== src/Tests/Sending.antt =====
-- The sweeps and the cold-to-hot commands on the machine of the tests.
use juno_exchange_kit.Cli.Config.{
  flag_or_env, open_data_dir, resolved_data_dir, txsign_bin, txsign_bin_from_env,
}
use juno_exchange_kit.Store.Wallets.{bad_index, wallet}
use juno_exchange_kit.Cli.Seeds.{write_file}
use juno_exchange_kit.Base.Table.{count_where, select_first}
use juno_exchange_kit.Base.{◌≡◌, refl, none, List, [], ◌∷◌}
use juno_exchange_kit.Base.Int.{pos}
use juno_exchange_kit.Base.Text.{
  codes, eq_text, is_space, lower_char, to_lower, trim_left, trim_right, trim_space,
}
use juno_exchange_kit.Store.Schema.{empty_db, is_wallet}
use juno_exchange_kit.Txplan.Prepare.{TxPlan}
use juno_exchange_kit.Store.Ledger.Untouched.{SameBooks}
use juno_exchange_kit.Cli.Command.{World, returned}
use juno_exchange_kit.Cli.Signer.{TxsignResult, read_reply, read_run, sign_tx_plan}
use juno_exchange_kit.Cli.Sweep.{
  SweepFlags, SweepDeps, Signed, run_sweep_consolidate, run_sweep_to_cold,
}
use juno_exchange_kit.Cli.Sweep.All.{run_sweeps-SameBooks}
use juno_exchange_kit.Cli.ColdToHot.{
  SignFlags, run_cold_to_hot_sign, load_hex_input, load_tx_plan, write_out,
}
use juno_exchange_kit.Cli.ColdToHot.Handoff.{run_cold_to_hot_sign_handoff}
use juno_exchange_kit.Tests.Planning.{demo_rpc, demo_scan, no_plan}
use juno_exchange_kit.Txplan.Services.{ChainResponse}
use juno_exchange_kit.Tests.Commands.{
  demo_host, demo_broadcaster, demo_login, demo_urls, demo_world, returned_at,
}

abbrev demo_sweep_flags : SweepFlags
demo_sweep_flags = record {
  data_dir = codes "/data";
  rpc = demo_login;
  services = demo_urls;
  minconf = pos 1;
  expiry_offset = 40;
  wait_confirmations = pos 1;
  txsign_bin = [];
}

abbrev demo_deps : SweepDeps
demo_deps = record {
  ua_hrp = codes "j";
  coin_type = 8133;
  hot_wallet_ufvk = codes "view1key";
  hot_seed_path = codes "/data/keys/hot.seed";
  cold_wallet_ufvk = codes "view1key";
  services = record { rpc = demo_rpc; scan = demo_scan; broadcaster = demo_broadcaster };
  txsign_bin = codes "juno-txsign";
}

abbrev two_plans : List TxPlan
two_plans = no_plan.0 ∷ no_plan.0 ∷ []

abbrev swept_two : List Signed
swept_two = (codes "CD02", pos 15000) ∷ (codes "CD02", pos 15000) ∷ []

run_sweeps-SameBooks_example :
    SameBooks demo_world.db (run_sweep_consolidate demo_host demo_sweep_flags demo_world).1.db
    × SameBooks demo_world.db (run_sweep_to_cold demo_host demo_sweep_flags demo_world).1.db
run_sweeps-SameBooks_example = run_sweeps-SameBooks demo_host demo_sweep_flags demo_world

abbrev demo_info : ChainResponse
demo_info = record { chain = codes " main"; blocks = pos 120; chaintip = codes "c2d6d0b4" }

abbrev cold_world : World
cold_world = record demo_world {
  db = record empty_db {
    wallets =
        record {
          wallet_id = codes "cold";
          ufvk = codes "view1key";
          seed_path = codes "/data/keys/cold.seed";
          next_external_index = pos 0;
          next_internal_index = pos 0;
          created_at = pos 1;
          disabled_at = none;
        }
        ∷ [];
  };
}

abbrev demo_sign : SignFlags
demo_sign = record {
  data_dir = codes "/data";
  txplan = codes "-";
  out = codes "raw.hex";
  txsign_bin = [];
}

abbrev demo_signed : TxsignResult
demo_signed = record { txid = codes "cd02"; raw_tx_hex = codes "beef"; fee_zat = codes "15000" }

demo_sign-returns : (run_cold_to_hot_sign demo_host demo_sign cold_world).0 ≡ returned demo_signed
unfolding run_cold_to_hot_sign open_data_dir resolved_data_dir flag_or_env wallet bad_index
    is_wallet load_tx_plan txsign_bin txsign_bin_from_env write_out write_file sign_tx_plan read_run
    read_reply trim_space trim_left trim_right is_space to_lower lower_char eq_text select_first
    count_where
demo_sign-returns = refl

demo_sign-trimmed : trim_space demo_sign.out ≡ demo_sign.out
unfolding trim_space trim_left trim_right is_space
demo_sign-trimmed = refl

run_cold_to_hot_sign_handoff_example :
    load_hex_input [] demo_sign.out (run_cold_to_hot_sign demo_host demo_sign cold_world).1
    ≡ (returned (codes "beef"), (run_cold_to_hot_sign demo_host demo_sign cold_world).1)
run_cold_to_hot_sign_handoff_example =
    run_cold_to_hot_sign_handoff demo_host demo_sign demo_signed cold_world
      (run_cold_to_hot_sign demo_host demo_sign cold_world).1
      (returned_at (run_cold_to_hot_sign demo_host demo_sign cold_world) demo_sign-returns)
      demo_sign-trimmed refl
