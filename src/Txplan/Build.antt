-- ===== src/Txplan/Build.antt =====
-- The parts of a plan: sums, notes with their actions, and witness paths: internal/txplan/builder.go.
use juno_exchange_kit.Base.{
  ℕ, not, ◌||◌, Option, none, some, List, [], ◌∷◌, ◌++◌, length, ◌==◌, if◌then◌else◌,
}
use juno_exchange_kit.Base.Int.{pos, pos_part, ltb_ℤ}
use juno_exchange_kit.Base.Word.{max_uint32}
use juno_exchange_kit.Base.Text.{Text, codes, is_empty, trim_space}
use juno_exchange_kit.Base.Decimal.{format_uint}
use juno_exchange_kit.Txplan.Outcome.{
  Outcome, done, ◌>>=◌, ◌>>◌, or_fail, fail_if, service_failed, invalid_witness,
  invalid_anchor_height, witness_path_missing,
}
use juno_exchange_kit.Txplan.Notes.{add_uint64}
use juno_exchange_kit.Txplan.Chunks.{SpendableNote}
use juno_exchange_kit.Txplan.Services.{Rpc, Scan, Witness, WitnessPath, RawAction}
use juno_exchange_kit.Txplan.Actions.{BlockCache, orchard_action_for_note}
use juno_exchange_kit.Txplan.Prepare.{
  Output, SendConfig, TxPlanKind, TxOutput, SpendNote, TxPlan, Context,
}

-- The loop that adds values with `addUint64`.
unfoldable pub sum_values : ℕ → List ℕ → Option ℕ
sum_values total [] = some total
sum_values total (v ∷ vs) = elim (add_uint64 total v) [ none ↦ none | some t ↦ sum_values t vs ]

-- A note of the plan, before its witness path is known.
unfoldable pub spend_note : SpendableNote → RawAction → SpendNote
spend_note n act = record {
  note_id = n.txid ++ codes ":" ++ format_uint n.action_index;
  action_nullifier = act.nullifier;
  cmx = act.cmx;
  position = n.position;
  path = [];
  ephemeral_key = act.ephemeral_key;
  enc_ciphertext = act.enc_ciphertext;
}

-- The loop that looks up the action of every note.
unfoldable pub plan_notes :
    Rpc → BlockCache → List SpendableNote → Outcome (List SpendNote × BlockCache)
plan_notes rpc cache [] = done ([], cache)
plan_notes rpc cache (n ∷ ns) = do
  found ← orchard_action_for_note rpc cache n.height n.txid n.action_index
  rest ← plan_notes rpc found.1 ns
  done (spend_note n found.0 ∷ rest.0, rest.1)

-- pathByPos: the last path of a position counts.
unfoldable pub path_at : List WitnessPath → ℕ → Option (List Text)
path_at [] position = none
path_at (p ∷ ps) position = elim (path_at ps position) [
  | some path ↦ some path
  | none ↦ if p.position == position then some p.auth_path else none
]

unfoldable pub attach_paths : List WitnessPath → List SpendNote → Outcome (List SpendNote)
attach_paths paths [] = done []
attach_paths paths (n ∷ ns) = do
  path ← or_fail (path_at paths n.position) witness_path_missing
  fail_if (not (length path == 32)) witness_path_missing
  rest ← attach_paths paths ns
  done (record n { path = path } ∷ rest)

-- The witness of the notes' positions, checked.
unfoldable pub witness_for : Scan → List ℕ → Outcome Witness
witness_for scan positions = do
  wit ← or_fail (scan.orchard_witness positions) service_failed
  fail_if (is_empty (trim_space wit.root) || not (length wit.paths == length positions))
      invalid_witness
  fail_if (ltb_ℤ wit.anchor_height (pos 0) || ltb_ℤ (pos max_uint32) wit.anchor_height)
      invalid_anchor_height
  done wit

-- The plan that spends notes, given by their positions and what was looked up of them.
unfoldable pub finish_plan :
    Scan
    → SendConfig
    → Context
    → TxPlanKind
    → List ℕ
    → List SpendNote
    → List TxOutput
    → Text
    → ℕ
    → Outcome TxPlan
finish_plan scan cfg ctx kind positions planned outputs change_address fee = do
  wit ← witness_for scan positions
  spends ← attach_paths wit.paths planned
  done (record {
    kind = kind;
    wallet_id = cfg.wallet;
    coin_type = ctx.coin_type;
    account = cfg.account;
    chain = ctx.info.chain;
    branch_id = ctx.info.branch_id;
    anchor_height = pos_part wit.anchor_height;
    anchor = wit.root;
    expiry_height = ctx.expiry_height;
    outputs = outputs;
    change_address = change_address;
    fee_zat = format_uint fee;
    notes = spends;
  })

abbrev pub position_list : List SpendableNote → List ℕ
position_list [] = []
position_list (n ∷ ns) = n.position ∷ position_list ns

abbrev pub value_list : List SpendableNote → List ℕ
value_list [] = []
value_list (n ∷ ns) = n.value_zat ∷ value_list ns

abbrev pub amount_list : List Output → List ℕ
amount_list [] = []
amount_list (o ∷ os) = o.amount_zat ∷ amount_list os
