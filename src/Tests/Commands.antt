-- ===== src/Tests/Commands.antt =====
-- A machine on which the services answer, a store with a funded account, and the commands on them.
use juno_exchange_kit.Store.Deposits.{set_balance}
use juno_exchange_kit.Cli.Setup.{
  client_of, connect, parse_coin_type, stored_coin_type, stored_hrp, stored_wallet,
}
use juno_exchange_kit.Cli.Signer.{read_reply, read_run, sign_tx_plan, signer_fee}
use juno_exchange_kit.Store.Wallets.{
  bad_index, derived, meta, next_internal_address, next_internal_tx, set_internal_index, wallet,
}
use juno_exchange_kit.Store.Withdrawals.{
  create_withdrawal_and_debit, insert_withdrawal, withdraw_trimmed, withdraw_tx,
}
use juno_exchange_kit.Txplan.Plan.{
  check_outputs, plan_selected, plan_send, plan_withdrawal, send_prepared, services_of,
}
use juno_exchange_kit.Txplan.Build.{
  attach_paths, finish_plan, path_at, spend_note, sum_values, witness_for,
}
use juno_exchange_kit.Txplan.Prepare.{
  chain_coin_type, expiry_height_of, prepare, resolve_coin_type, with_defaults,
}
use juno_exchange_kit.Txplan.Notes.{
  accepted_fee, add_uint64, note_before, required_fee_send, select_loop, select_notes,
}
use juno_exchange_kit.Txplan.Actions.{
  action_in_block, block_at, cached_block, check_action, confirmations, fetch_block, find_note,
  find_tx, has_position, is_32_byte_hex, is_pending, is_skipped, list_spendable_notes, lower_action,
  notes_to_unspent, orchard_action_for_note, position_of, spendable_loop, to_spendable,
}
use juno_exchange_kit.Txplan.Services.{get_info}
use juno_exchange_kit.Base.{ℕ, ◌≡◌, refl, Option, none, some, List, [], ◌∷◌, true, replicate, arith}
use juno_exchange_kit.Base.Int.{pos, ◌+ℤ◌, ◌-ℤ◌, int_laws}
use juno_exchange_kit.Base.Word.{add_int64, sub_int64, wrap_int64}
use juno_exchange_kit.Base.Text.{
  codes, eq_text, lt_text, trim_space, trim_left, trim_right, is_space, to_lower, lower_char,
}
use juno_exchange_kit.Base.Decimal.{
  parse_hex32, is_hex, hex_value, is_digit, all_digits, decimal_value, parse_uint, parse_int64,
  decimal_from,
}
use juno_exchange_kit.Base.Table.{
  sort_by, insert_by, select_first, update_where, count_where, sum_of,
}
use juno_exchange_kit.Store.Schema.{
  Db, empty_db, confirmed, is_balance, is_meta, is_wallet, is_confirmed, is_deposit,
}
use juno_exchange_kit.Store.Exec.{transaction}
use juno_exchange_kit.Store.Addresses.{eq_ℤ}
use juno_exchange_kit.Store.Accounts.{select_balance, random_hex, account_balance, hex_encode}
use juno_exchange_kit.Store.Ledger.{balance_of, withdrawn, credited, credit_of, share_of}
use juno_exchange_kit.Cli.Command.{World, Ended, returned}
use juno_exchange_kit.Cli.Config.{
  Host, SignerReply, printed, Broadcaster, RpcFlags, ServicesFlags, flag_or_env, open_data_dir,
  resolved, resolved_broadcast_url, resolved_data_dir, resolved_scan_url, txsign_bin,
  txsign_bin_from_env,
}
use juno_exchange_kit.Cli.Withdraw.{
  WithdrawFlags, Withdrawn, run_withdraw, answered, await, check_total, max_amount, parse_amount,
  parse_request, pay, plan_payment, planned, prepare_withdraw, send_signed, submit, withdraw_config,
}
use juno_exchange_kit.Cli.Withdraw.Sent.{SendsOnce, run_withdraw-SendsOnce}
use juno_exchange_kit.Cli.Withdraw.Kept.{HasBooks, run_withdraw-HasBooks}
use juno_exchange_kit.Cli.Withdraw.Pays.{PaidOnce, run_withdraw-PaidOnce}
use juno_exchange_kit.Tests.Ledger.{alice, txid_one}
use juno_exchange_kit.Tests.Planning.{demo_rpc, demo_scan, no_plan}

abbrev pub some_bytes : ℕ → Option (List ℕ)
some_bytes n = some (replicate n 7)

abbrev demo_reply : SignerReply
demo_reply = record {
  status = codes "ok";
  txid = codes "CD02";
  raw_tx_hex = codes " beef ";
  fee_zat = codes "15000";
  error_code = [];
  error_message = [];
}

abbrev pub demo_broadcaster : Broadcaster
demo_broadcaster = record { submit = λ before raw. some (codes "CD02"); confirmed = λ txid n. true }

abbrev pub demo_host : Host
demo_host = record {
  getenv = λ name. [];
  user_home_dir = none;
  opens = λ dir. true;
  rpc_client = λ url user pass. demo_rpc;
  scan_client = λ url. some demo_scan;
  broadcast_client = λ url. some demo_broadcaster;
  address_from_ufvk = λ ufvk hrp scope i. some (codes "u1change");
  ufvk_from_seed = λ seed hrp coin_type. some (codes "view1key");
  makes_dir = λ dir. true;
  writable = λ path. true;
  run_txsign = λ bin seed plan. printed demo_reply;
  plan_json = λ plan. codes "{}";
  decode_plan = λ text. some no_plan.0;
  stdin = [];
  random = some_bytes;
  now = pos 7;
}

abbrev pub demo_login : RpcFlags
demo_login = record { rpc_url = codes "http://node"; rpc_user = codes "u"; rpc_pass = codes "p" }

abbrev pub demo_urls : ServicesFlags
demo_urls = record { scan_url = codes "http://scan"; broadcast_url = codes "http://out" }

abbrev funded_db : Db
funded_db = record empty_db {
  meta =
      record { key = codes "ua_hrp"; value = codes "j" }
      ∷ record { key = codes "coin_type"; value = codes "8133" }
      ∷ [];
  wallets =
      record {
        wallet_id = codes "hot";
        ufvk = codes "view1key";
        seed_path = codes "/data/keys/hot.seed";
        next_external_index = pos 0;
        next_internal_index = pos 0;
        created_at = pos 1;
        disabled_at = none;
      }
      ∷ [];
  accounts = record { account_id = alice; created_at = pos 1 } ∷ [];
  balances = record { account_id = alice; balance_zat = pos 70000; updated_at = pos 1 } ∷ [];
  deposits =
      record {
        wallet_id = codes "hot";
        txid = txid_one;
        action_index = 0;
        diversifier_index = 0;
        account_id = some alice;
        amount_zat = pos 70000;
        height = pos 100;
        status = confirmed;
        confirmed_height = some (pos 110);
        created_at = pos 1;
        updated_at = pos 1;
      }
      ∷ [];
}

abbrev pub demo_world : World
demo_world = record { db = funded_db; submitted = []; files = [] }

pub demo_world-HasBooks : HasBooks demo_world
unfolding balance_of withdrawn credited credit_of share_of is_confirmed sum_of count_where
    is_balance is_deposit eq_text trim_space trim_left trim_right is_space
demo_world-HasBooks = record {
  good_balances = record { each = ((omega arith, omega arith), tt); once = λ a. ground arith };
  good_deposits = record {
    each = ((omega arith, omega arith, (refl, refl)), tt);
    once = λ w t i. ground arith;
  };
  ledger = λ a. omega int_laws;
}

abbrev demo_withdraw : WithdrawFlags
demo_withdraw = record {
  data_dir = codes "/data";
  rpc = demo_login;
  services = demo_urls;
  account = alice;
  to = codes "u1bob";
  amount_zat = codes "40000";
  minconf = pos 1;
  expiry_offset = 40;
  wait_confirmations = pos 1;
  txsign_bin = [];
}

run_withdraw-SendsOnce_example :
    SendsOnce demo_world (run_withdraw demo_host demo_withdraw demo_world).1
run_withdraw-SendsOnce_example = run_withdraw-SendsOnce demo_host demo_withdraw demo_world

run_withdraw-HasBooks_example : HasBooks (run_withdraw demo_host demo_withdraw demo_world).1
run_withdraw-HasBooks_example =
    run_withdraw-HasBooks demo_host demo_withdraw demo_world demo_world-HasBooks

abbrev demo_withdrawn : Withdrawn
demo_withdrawn = record { txid = codes "CD02"; fee = pos 15000 }

demo_withdraw-returns :
    (run_withdraw demo_host demo_withdraw demo_world).0 ≡ returned demo_withdrawn
unfolding run_withdraw parse_request parse_amount open_data_dir resolved_data_dir flag_or_env
    prepare_withdraw stored_hrp stored_coin_type stored_wallet parse_coin_type connect resolved
    resolved_scan_url resolved_broadcast_url client_of plan_payment planned withdraw_config pay
    check_total max_amount sign_tx_plan read_run read_reply signer_fee txsign_bin
    txsign_bin_from_env send_signed submit answered await meta wallet account_balance bad_index
    derived set_internal_index next_internal_tx next_internal_address create_withdrawal_and_debit
    withdraw_trimmed withdraw_tx insert_withdrawal set_balance select_balance random_hex hex_encode
    parse_uint parse_int64 decimal_value decimal_from all_digits is_digit count_where is_meta
    is_wallet update_where plan_withdrawal plan_send send_prepared check_outputs select_notes
    select_loop accepted_fee note_before notes_to_unspent plan_selected find_note services_of
    with_defaults prepare get_info parse_hex32 hex_value resolve_coin_type chain_coin_type
    expiry_height_of list_spendable_notes spendable_loop is_skipped is_pending has_position
    confirmations position_of to_spendable sort_by insert_by sum_values add_uint64 required_fee_send
    orchard_action_for_note block_at cached_block fetch_block action_in_block find_tx select_first
    lower_action check_action is_32_byte_hex is_hex eq_ℤ finish_plan witness_for attach_paths
    path_at trim_space trim_left trim_right is_space to_lower lower_char eq_text lt_text add_int64
    sub_int64 wrap_int64 ◌+ℤ◌ ◌-ℤ◌ spend_note is_balance transaction
demo_withdraw-returns = refl

pub returned_at :
    {A : Type 0} (r : Ended A × World) {a : A} → r.0 ≡ returned a → r ≡ (returned a, r.1)
returned_at r h i = (h i, r.1)

run_withdraw-PaidOnce_example :
    PaidOnce demo_host demo_withdraw demo_withdrawn demo_world
      (run_withdraw demo_host demo_withdraw demo_world).1
run_withdraw-PaidOnce_example =
    run_withdraw-PaidOnce demo_host demo_withdraw demo_world
      (run_withdraw demo_host demo_withdraw demo_world).1 demo_withdrawn demo_world-HasBooks
      (returned_at (run_withdraw demo_host demo_withdraw demo_world) demo_withdraw-returns)
