-- ===== src/Tests/Planning.antt =====
-- Services that answer, a wallet of three notes, and the plans made of them.
use juno_exchange_kit.Base.{
  ◌⊎◌, ℕ, ◌+◌, ◌*◌, ◌<◌, ◌≡◌, refl, none, some, List, [], ◌∷◌, length, replicate, arith,
}
use juno_exchange_kit.Base.Int.{ℤ, pos, ◌+ℤ◌, ◌-ℤ◌}
use juno_exchange_kit.Base.Word.{word, add_int64, sub_int64, wrap_int64}
use juno_exchange_kit.Base.Text.{
  Text, codes, eq_text, lt_text, trim_space, trim_left, trim_right, is_space, to_lower, lower_char,
}
use juno_exchange_kit.Base.Decimal.{parse_hex32, is_hex, hex_value}
use juno_exchange_kit.Base.Table.{sort_by, insert_by, select_first}
use juno_exchange_kit.Store.Addresses.{eq_ℤ}
use juno_exchange_kit.Txplan.Outcome.{Outcome, done, failed, insufficient_funds}
use juno_exchange_kit.Txplan.Notes.{
  UnspentNote, note_before, required_fee_send, add_uint64, accepted_fee, select_loop, select_notes,
}
use juno_exchange_kit.Txplan.Select.{value_of}
use juno_exchange_kit.Txplan.Greedy.{fee_for, IsFewest, NoChoice, select_notes-IsFewest}
use juno_exchange_kit.Txplan.Chunks.{
  SpendableNote, spendable_before, append_at, deal, one_index, longest, borrow_step, borrow,
  split_notes_balanced,
}
use juno_exchange_kit.Txplan.Borrow.{split_notes_balanced_ends}
use juno_exchange_kit.Txplan.Split.{weight, weights, split_notes_balanced-weights}
use juno_exchange_kit.Txplan.Sums.{value_of_note, sum_list}
use juno_exchange_kit.Txplan.Services.{RawAction, Rpc, WalletNote, WitnessPath, Scan, get_info}
use juno_exchange_kit.Txplan.Actions.{
  is_pending, has_position, confirmations, is_skipped, position_of, to_spendable, spendable_loop,
  list_spendable_notes, notes_to_unspent, find_note, cached_block, fetch_block, block_at,
  is_32_byte_hex, lower_action, check_action, find_tx, action_in_block, orchard_action_for_note,
}
use juno_exchange_kit.Txplan.Plan.{
  plan_sweep_with_notes, plan_chunks, clamp_spends, services_of, plan_sweep_many, plan_sweep,
  plan_send, send_prepared, check_outputs, plan_selected,
}
use juno_exchange_kit.Txplan.Build.{
  sum_values, spend_note, plan_notes, path_at, attach_paths, witness_for, finish_plan,
}
use juno_exchange_kit.Txplan.Prepare.{
  SendConfig, Context, TxPlan, TxPlanKind, chain_coin_type, resolve_coin_type, expiry_height_of,
  with_defaults, prepare, Output,
}
use juno_exchange_kit.Txplan.Send.{FitsWord, SpendsEnough, plan_send_pays}
use juno_exchange_kit.Txplan.Sweep.{moved, SweepPays, plan_sweep_pays, plan_sweep_many_pays}

abbrev note_of : Text → ℕ → UnspentNote
note_of t v = record { txid = t; action_index = 0; value_zat = v }

abbrev demo_notes : List UnspentNote
demo_notes =
    note_of (codes "aa") 30000 ∷ note_of (codes "bb") 90000 ∷ note_of (codes "cc") 20000 ∷ []

demo_notes-small : (value_of demo_notes < word) × (100000 + 5000 * (length demo_notes + 3) < word)
unfolding value_of
demo_notes-small = (omega arith, omega arith)

select_notes-IsFewest_example :
    ((chosen : List UnspentNote) × (select_notes demo_notes 100000 1
        ≡ done (chosen, fee_for chosen))
      × IsFewest 100000 (sort_by note_before demo_notes) chosen)
    ⊎ ((select_notes demo_notes 100000 1 ≡ failed insufficient_funds)
        × NoChoice 100000 (sort_by note_before demo_notes))
select_notes-IsFewest_example =
    select_notes-IsFewest demo_notes 100000 demo_notes-small.0 demo_notes-small.1

abbrev hex_text : ℕ → Text
hex_text n = replicate n 97

abbrev demo_action : RawAction
demo_action = record {
  nullifier = hex_text 64;
  cmx = hex_text 64;
  ephemeral_key = hex_text 64;
  enc_ciphertext = hex_text 110;
}

abbrev pub demo_rpc : Rpc
demo_rpc = record {
  blockchain_info =
      some (record { chain = codes " main"; blocks = pos 120; chaintip = codes "c2d6d0b4" });
  block_hash = λ h. some (codes "00aa");
  block = λ hash.
      some
        (record { txid = codes "AA"; actions = demo_action ∷ demo_action ∷ demo_action ∷ [] } ∷ []);
}

abbrev pub wallet_note : ℤ → ℤ → WalletNote
wallet_note i v = record {
  txid = codes "aa";
  action_index = i;
  height = pos 100;
  position = some i;
  value_zat = v;
  pending_spent_txid = none;
}

abbrev path_of : ℕ → WitnessPath
path_of i = record { position = i; auth_path = replicate 32 (codes "00") }

abbrev paths_for : List ℕ → List WitnessPath
paths_for [] = []
paths_for (p ∷ ps) = path_of p ∷ paths_for ps

abbrev pub demo_listed : List WalletNote
demo_listed =
    wallet_note (pos 0) (pos 30000)
    ∷ wallet_note (pos 1) (pos 90000)
    ∷ wallet_note (pos 2) (pos 20000)
    ∷ []

abbrev pub demo_scan : Scan
demo_scan = record {
  wallet_notes = λ w. some demo_listed;
  orchard_witness =
      λ ps. some (record { root = codes "ff"; anchor_height = pos 119; paths = paths_for ps });
}

abbrev demo_config : SendConfig
demo_config = record {
  rpc = some demo_rpc;
  scan = some demo_scan;
  wallet = codes "hot";
  coin_type = 0;
  account = 0;
  min_confirmations = pos 0;
  expiry_offset = 0;
}

abbrev plans_of : Outcome (List (TxPlan × ℕ)) → List (TxPlan × ℕ)
plans_of (done ps) = ps
plans_of (failed e) = []

abbrev demo_plans : List (TxPlan × ℕ)
demo_plans = plans_of (plan_sweep_many demo_config (codes "u1cold") [] [] (pos 2))

demo_plans-done : plan_sweep_many demo_config (codes "u1cold") [] [] (pos 2) ≡ done demo_plans
unfolding plan_sweep_many services_of with_defaults prepare get_info parse_hex32 hex_value
    resolve_coin_type chain_coin_type expiry_height_of list_spendable_notes spendable_loop
    is_skipped is_pending has_position confirmations position_of to_spendable split_notes_balanced
    deal append_at borrow borrow_step one_index clamp_spends sort_by insert_by spendable_before
    plan_chunks plan_sweep_with_notes sum_values add_uint64 required_fee_send plan_notes
    orchard_action_for_note block_at cached_block fetch_block action_in_block find_tx select_first
    lower_action check_action is_32_byte_hex is_hex eq_ℤ finish_plan witness_for attach_paths
    path_at trim_space trim_left trim_right is_space to_lower lower_char eq_text lt_text add_int64
    sub_int64 wrap_int64 ◌+ℤ◌ ◌-ℤ◌ spend_note longest
demo_plans-done = refl

plan_sweep_many_pays_example :
    (rpc : Rpc) × (scan : Scan) × (ctx : Context) × (services_of demo_config ≡ done (rpc, scan))
    × (prepare rpc scan (with_defaults demo_config) ≡ done ctx)
    × (moved demo_plans ≡ weight value_of_note ctx.notes)
plan_sweep_many_pays_example =
    plan_sweep_many_pays demo_config (codes "u1cold") [] [] (pos 2) demo_plans demo_plans-done

abbrev demo_spendable : List SpendableNote
demo_spendable =
    record {
      txid = codes "aa";
      action_index = 0;
      height = pos 100;
      position = 0;
      value_zat = 30000;
    }
    ∷ record {
      txid = codes "aa";
      action_index = 1;
      height = pos 100;
      position = 1;
      value_zat = 90000;
    }
    ∷ record {
      txid = codes "aa";
      action_index = 2;
      height = pos 100;
      position = 2;
      value_zat = 20000;
    }
    ∷ []

split_notes_balanced-weights_example :
    weights value_of_note (split_notes_balanced demo_spendable (pos 2))
    ≡ weight value_of_note demo_spendable
split_notes_balanced-weights_example =
    split_notes_balanced-weights value_of_note demo_spendable (pos 2)

abbrev pub no_plan : TxPlan × ℕ
no_plan = (
  record {
    kind = TxPlanKind.sweep;
    wallet_id = [];
    coin_type = 0;
    account = 0;
    chain = [];
    branch_id = 0;
    anchor_height = 0;
    anchor = [];
    expiry_height = 0;
    outputs = [];
    change_address = [];
    fee_zat = [];
    notes = [];
  },
  0,
)

abbrev plan_or_none : Outcome (TxPlan × ℕ) → TxPlan × ℕ
plan_or_none (done p) = p
plan_or_none (failed e) = no_plan

abbrev demo_sweep : TxPlan × ℕ
demo_sweep = plan_or_none (plan_sweep demo_config (codes "u1cold") [] [])

demo_sweep-done : plan_sweep demo_config (codes "u1cold") [] [] ≡ done (demo_sweep.0, demo_sweep.1)
unfolding plan_sweep services_of with_defaults prepare get_info parse_hex32 hex_value
    resolve_coin_type chain_coin_type expiry_height_of list_spendable_notes spendable_loop
    is_skipped is_pending has_position confirmations position_of to_spendable split_notes_balanced
    deal append_at borrow borrow_step one_index clamp_spends sort_by insert_by spendable_before
    plan_chunks plan_sweep_with_notes sum_values add_uint64 required_fee_send plan_notes
    orchard_action_for_note block_at cached_block fetch_block action_in_block find_tx select_first
    lower_action check_action is_32_byte_hex is_hex eq_ℤ finish_plan witness_for attach_paths
    path_at trim_space trim_left trim_right is_space to_lower lower_char eq_text lt_text add_int64
    sub_int64 wrap_int64 ◌+ℤ◌ ◌-ℤ◌ spend_note longest
demo_sweep-done = refl

plan_sweep_pays_example : SweepPays demo_config demo_sweep.0 demo_sweep.1
plan_sweep_pays_example =
    plan_sweep_pays demo_config (codes "u1cold") [] [] demo_sweep.0 demo_sweep.1 demo_sweep-done

abbrev demo_outputs : List Output
demo_outputs = record { to_address = codes "u1bob "; amount_zat = 70000; memo_hex = [] } ∷ []

abbrev no_context : Context
no_context = record {
  info = record { chain = []; height = pos 0; branch_id = 0 };
  coin_type = 0;
  expiry_height = 0;
  notes = [];
}

abbrev context_or_none : Outcome Context → Context
context_or_none (done c) = c
context_or_none (failed e) = no_context

abbrev demo_context : Context
demo_context = context_or_none (prepare demo_rpc demo_scan (with_defaults demo_config))

demo_context-done : prepare demo_rpc demo_scan (with_defaults demo_config) ≡ done demo_context
unfolding services_of with_defaults prepare get_info parse_hex32 hex_value resolve_coin_type
    chain_coin_type expiry_height_of list_spendable_notes spendable_loop is_skipped is_pending
    has_position confirmations position_of to_spendable sort_by insert_by sum_values add_uint64
    required_fee_send orchard_action_for_note block_at cached_block fetch_block action_in_block
    find_tx select_first lower_action check_action is_32_byte_hex is_hex eq_ℤ finish_plan
    witness_for attach_paths path_at trim_space trim_left trim_right is_space to_lower lower_char
    eq_text lt_text add_int64 sub_int64 wrap_int64 ◌+ℤ◌ ◌-ℤ◌ spend_note
demo_context-done = refl

abbrev demo_send : TxPlan × ℕ
demo_send =
    plan_or_none (plan_send demo_config TxPlanKind.withdrawal demo_outputs (codes "u1change"))

demo_send-done :
    plan_send demo_config TxPlanKind.withdrawal demo_outputs (codes "u1change")
    ≡ done (demo_send.0, demo_send.1)
unfolding plan_send send_prepared check_outputs select_notes select_loop accepted_fee note_before
    notes_to_unspent plan_selected find_note services_of with_defaults prepare get_info parse_hex32
    hex_value resolve_coin_type chain_coin_type expiry_height_of list_spendable_notes spendable_loop
    is_skipped is_pending has_position confirmations position_of to_spendable sort_by insert_by
    sum_values add_uint64 required_fee_send orchard_action_for_note block_at cached_block
    fetch_block action_in_block find_tx select_first lower_action check_action is_32_byte_hex is_hex
    eq_ℤ finish_plan witness_for attach_paths path_at trim_space trim_left trim_right is_space
    to_lower lower_char eq_text lt_text add_int64 sub_int64 wrap_int64 ◌+ℤ◌ ◌-ℤ◌ spend_note
demo_send-done = refl

demo_services-done : services_of demo_config ≡ done (demo_rpc, demo_scan)
unfolding services_of
demo_services-done = refl

demo-FitsWord : FitsWord (notes_to_unspent demo_context.notes) demo_outputs
unfolding value_of sum_list notes_to_unspent services_of with_defaults prepare get_info parse_hex32
    hex_value resolve_coin_type chain_coin_type expiry_height_of list_spendable_notes spendable_loop
    is_skipped is_pending has_position confirmations position_of to_spendable sort_by insert_by
    sum_values add_uint64 required_fee_send orchard_action_for_note block_at cached_block
    fetch_block action_in_block find_tx select_first lower_action check_action is_32_byte_hex is_hex
    eq_ℤ finish_plan witness_for attach_paths path_at trim_space trim_left trim_right is_space
    to_lower lower_char eq_text lt_text add_int64 sub_int64 wrap_int64 ◌+ℤ◌ ◌-ℤ◌ spend_note
demo-FitsWord = record { amounts = (omega arith, tt); values = omega arith; sum = omega arith }

plan_send_pays_example :
    SpendsEnough (notes_to_unspent demo_context.notes) (length demo_outputs) demo_send.0 demo_send.1
plan_send_pays_example =
    plan_send_pays demo_config TxPlanKind.withdrawal demo_outputs (codes "u1change") demo_rpc
      demo_scan demo_context demo_send.0 demo_send.1 demo-FitsWord demo_services-done
      demo_context-done demo_send-done

split_notes_balanced_ends_example : borrow_step (split_notes_balanced demo_spendable (pos 2)) ≡ none
split_notes_balanced_ends_example = split_notes_balanced_ends demo_spendable (pos 2)
