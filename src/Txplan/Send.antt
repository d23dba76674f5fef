-- ===== src/Txplan/Send.antt =====
-- The plan of `planSend` spends the notes that were selected, and they pay for its outputs and its fee.
use juno_exchange_kit.Base.{
  ℕ, ◌+◌, ◌*◌, ◌<◌, ◌≤◌, ◌≡◌, refl, ap, ◌∙◌, sym, subst, inl, inr, true, not, ◌||◌, ◌&&◌, some,
  List, [], ◌∷◌, ◌++◌, length, map, take, ◌==◌, arith, Bool-cases, suc,
}
use juno_exchange_kit.Base.Word.{word}
use juno_exchange_kit.Base.Text.{Text, codes, is_empty, trim_space, eq_text, eq_text_iff}
use juno_exchange_kit.Base.Decimal.{format_uint, decimal_value, decimal_value-format_uint}
use juno_exchange_kit.Base.Table.{sort_by, select_first}
use juno_exchange_kit.Txplan.Outcome.{
  Outcome, done, failed, >>=_done, >>=_from, fail_if_done, or_fail, or_fail_done, wallet_required,
  change_address_required, outputs_required, invalid_output, outputs_sum_overflow,
  selected_note_missing, witness_path_missing,
}
use juno_exchange_kit.Txplan.Notes.{UnspentNote, note_before, select_notes}
use juno_exchange_kit.Txplan.Select.{value_of, fee_at, is_enough, select_notes_lem, length-sort_by}
use juno_exchange_kit.Txplan.Chunks.{SpendableNote}
use juno_exchange_kit.Txplan.Sums.{sum_list, Small, sum_values_exact}
use juno_exchange_kit.Txplan.Services.{Rpc, Scan, WitnessPath}
use juno_exchange_kit.Txplan.Actions.{
  BlockCache, find_note, notes_to_unspent, orchard_action_for_note,
}
use juno_exchange_kit.Txplan.Plan.{
  services_of, check_outputs, to_output, plan_selected, send_prepared, plan_send, as_insufficient,
}
use juno_exchange_kit.Txplan.Build.{
  amount_list, position_list, sum_values, spend_note, finish_plan, witness_for, attach_paths,
  path_at,
}
use juno_exchange_kit.Txplan.Prepare.{
  Output, TxOutput, SendConfig, Context, TxPlan, TxPlanKind, SpendNote, with_defaults, prepare,
}
use juno_exchange_kit.Txplan.Sweep.{paid, finish_plan_fields}

-- The ids of the notes that a plan spends, and of selected notes.
unfoldable pub note_ids : List SpendNote → List Text
note_ids [] = []
note_ids (n ∷ ns) = n.note_id ∷ note_ids ns

unfoldable pub selected_ids : List UnspentNote → List Text
selected_ids [] = []
selected_ids (s ∷ ss) = (s.txid ++ codes ":" ++ format_uint s.action_index) ∷ selected_ids ss

attach_paths-ids :
    (paths : List WitnessPath) (ns spends : List SpendNote)
    → attach_paths paths ns ≡ done spends
    → note_ids spends ≡ note_ids ns
unfolding attach_paths note_ids
attach_paths-ids paths [] spends h = ground arith
attach_paths-ids paths (n ∷ ns) spends h =
    let (path, _, h1) = >>=_done (or_fail (path_at paths n.position) witness_path_missing) _ h in
    let (_, h2) = fail_if_done (not (length path == 32)) witness_path_missing _ h1 in
    let (rest, rest_is, h3) = >>=_done (attach_paths paths ns) _ h2 in
    let same : record n { path = path } ∷ rest ≡ spends = ground arith in
    subst (λ l. note_ids l ≡ n.note_id ∷ note_ids ns) same
      (ap (λ l. n.note_id ∷ l) (attach_paths-ids paths ns rest rest_is))

finish_plan-ids :
    (scan : Scan) (cfg : SendConfig) (ctx : Context) (kind : TxPlanKind) (positions : List ℕ)
    (planned : List SpendNote) (outputs : List TxOutput) (change : Text) (fee : ℕ) (plan : TxPlan)
    → finish_plan scan cfg ctx kind positions planned outputs change fee ≡ done plan
    → note_ids plan.notes ≡ note_ids planned
unfolding finish_plan
finish_plan-ids scan cfg ctx kind positions planned outputs change fee plan h =
    let (wit, _, h') = >>=_done (witness_for scan positions) _ h in
    let (spends, spends_is, h'') = >>=_done (attach_paths wit.paths planned) _ h' in
    let same : spends ≡ plan.notes = ground arith in
    subst (λ l. note_ids l ≡ note_ids planned) same
      (attach_paths-ids wit.paths planned spends spends_is)

-- A note that is found has the key that was looked for.
find_note-key :
    (ns : List SpendableNote) (txid : Text) (i : ℕ) (n : SpendableNote)
    → find_note ns txid i ≡ some n
    → (n.txid ≡ txid) × (n.action_index ≡ i)
unfolding find_note select_first
find_note-key [] txid i n h = absurd (ground arith)
find_note-key (m ∷ ns) txid i n h =
    elim (Bool-cases (eq_text m.txid txid && (m.action_index == i))) [
      | inl e ↦
          let same : m ≡ n = ground arith in
          rw (← same) ((eq_text_iff m.txid txid).0 (ground arith), ground arith)
      | inr e ↦ find_note-key ns txid i n (ground arith)
    ]

cons_same {ℓ} : {A : Type ℓ} {a b : A} {xs ys : List A} → a ≡ b → xs ≡ ys → a ∷ xs ≡ b ∷ ys
cons_same h k = λ i. h i ∷ k i

same_id :
    (n : SpendableNote) (s : UnspentNote)
    → n.txid ≡ s.txid
    → n.action_index ≡ s.action_index
    → n.txid ++ codes ":" ++ format_uint n.action_index
      ≡ s.txid ++ codes ":" ++ format_uint s.action_index
same_id n s t i = λ j. t j ++ codes ":" ++ format_uint (i j)

plan_selected-ids :
    (rpc : Rpc) (notes : List SpendableNote) (cache : BlockCache) (ss : List UnspentNote)
    (r : List SpendableNote × List SpendNote)
    → plan_selected rpc notes cache ss ≡ done r
    → note_ids r.1 ≡ selected_ids ss
unfolding plan_selected note_ids selected_ids spend_note
plan_selected-ids rpc notes cache [] r h = ground arith
plan_selected-ids rpc notes cache (s ∷ ss) r h =
    let (n, n_is, h1) =
      >>=_done (or_fail (find_note notes s.txid s.action_index) selected_note_missing) _ h in
    let (found, _, h2) =
      >>=_done (orchard_action_for_note rpc cache n.height n.txid n.action_index) _ h1 in
    let (rest, rest_is, h3) = >>=_done (plan_selected rpc notes found.1 ss) _ h2 in
    let (t, i) =
      find_note-key notes s.txid s.action_index n
        (or_fail_done (find_note notes s.txid s.action_index) selected_note_missing n_is) in
    let same : (n ∷ rest.0, spend_note n found.0 ∷ rest.1) ≡ r = ground arith in
    subst (λ x. note_ids x.1 ≡ selected_ids (s ∷ ss)) same
      (cons_same (same_id n s t i) (plan_selected-ids rpc notes found.1 ss rest rest_is))

check_outputs-amounts :
    (os outs : List Output)
    → check_outputs os ≡ done outs
    → (amount_list outs ≡ amount_list os) × (length outs ≡ length os)
unfolding check_outputs
check_outputs-amounts [] outs h =
    let same : [] ≡ outs = ground arith in
    subst (λ (l : List Output). (amount_list l ≡ []) × (length l ≡ 0)) same (refl, refl)
check_outputs-amounts (o ∷ os) outs h =
    let (_, h1) =
      fail_if_done (is_empty (trim_space o.to_address) || (o.amount_zat == 0)) invalid_output _ h in
    let (rest, rest_is, h2) = >>=_done (check_outputs os) _ h1 in
    let (amounts, count) = check_outputs-amounts os rest rest_is in
    let same : record o { to_address = trim_space o.to_address; memo_hex = trim_space o.memo_hex }
          ∷ rest
        ≡ outs =
      ground arith in
    subst
      (λ (l : List Output).
        (amount_list l ≡ o.amount_zat ∷ amount_list os) × (length l ≡ suc (length os)))
      same (ap (λ l. o.amount_zat ∷ l) amounts, ap suc count)

-- What the outputs of a plan pay is what was asked for.
paid-map :
    (os : List Output)
    → Small (amount_list os)
    → paid (map to_output os) ≡ sum_list (amount_list os)
unfolding paid sum_list
paid-map [] h = refl
paid-map (o ∷ os) h =
    let small = h.0 in
    omega (arith, decimal_value-format_uint o.amount_zat (omega arith), paid-map os h.1)

is_enough-pays :
    (amount output_count count total : ℕ)
    → is_enough amount output_count count total ≡ true
    → amount + fee_at output_count count ≤ total
unfolding is_enough
is_enough-pays amount o count total h = ground arith

as_insufficient-done :
    {A : Type 0} (m : Outcome A) {a : A} → as_insufficient m ≡ done a → m ≡ done a
as_insufficient-done (done b) h = h
as_insufficient-done (failed e) h = absurd (ground arith)

fee_at-below : (o k n : ℕ) → k ≤ n → fee_at o k ≤ 5000 * (n + o + 2)
unfolding fee_at
fee_at-below o k n h = ground arith

-- The plan spends the first `k` of the sorted notes, and they pay for its outputs and its fee.
pub record SpendsEnough (notes : List UnspentNote) (output_count : ℕ) (plan : TxPlan) (fee : ℕ)
    : Type 0 where
  pub count : ℕ
  pub spent : note_ids plan.notes ≡ selected_ids (take count (sort_by note_before notes))
  pub fee_is : fee ≡ fee_at output_count count
  pub stated : decimal_value plan.fee_zat ≡ fee
  pub covered : paid plan.outputs + fee ≤ value_of (take count (sort_by note_before notes))

-- How the two calls of `planSend` that choose and spend fit together.
spends_enough :
    (notes : List UnspentNote) (outs : List Output) (selected : List UnspentNote) (fee : ℕ)
    (planned : List SpendNote) (plan : TxPlan)
    → value_of notes < word
    → sum_list (amount_list outs) + 5000 * (length notes + length outs + 2) < word
    → Small (amount_list outs)
    → select_notes notes (sum_list (amount_list outs)) (length outs) ≡ done (selected, fee)
    → note_ids planned ≡ selected_ids selected
    → note_ids plan.notes ≡ note_ids planned
    → plan.outputs ≡ map to_output outs
    → plan.fee_zat ≡ format_uint fee
    → SpendsEnough notes (length outs) plan fee
spends_enough notes outs selected fee planned plan fits small amounts chosen ids plan_ids same_outs
      same_fee =
    elim (select_notes_lem notes (sum_list (amount_list outs)) (length outs) fits small) [
      | inl (k, result, first) ↦
          let selected_is : selected ≡ take k (sort_by note_before notes) = ground arith in
          let fee_is : fee ≡ fee_at (length outs) k = ground arith in
          let below =
            fee_at-below (length outs) k (length notes)
              (omega (arith, first.there, length-sort_by note_before notes)) in
          record {
            count = k;
            spent = plan_ids ∙ (ids ∙ ap selected_ids selected_is);
            fee_is = fee_is;
            stated = ap decimal_value same_fee ∙ decimal_value-format_uint fee (omega arith);
            covered =
                let zero_k : 0 + k ≡ k = omega arith in
                let pays =
                  is_enough-pays (sum_list (amount_list outs)) (length outs) (0 + k) _
                    first.enough in
                omega (
                  arith,
                  pays,
                  fee_is,
                  ap (fee_at (length outs)) zero_k,
                  ap paid same_outs,
                  paid-map outs amounts,
                );
          }
      | inr (result, none_enough) ↦ absurd (ground arith)
    ]

-- The notes' values and the outputs' amounts are uint64 values whose sums do not wrap around.
pub record FitsWord (notes : List UnspentNote) (outputs : List Output) : Type 0 where
  pub amounts : Small (amount_list outputs)
  pub values : value_of notes < word
  pub sum : sum_list (amount_list outputs) + 5000 * (length notes + length outputs + 2) < word

send_prepared_pays :
    (rpc : Rpc) (scan : Scan) (cfg : SendConfig) (ctx : Context) (kind : TxPlanKind)
    (outs : List Output) (change : Text) (plan : TxPlan) (fee : ℕ)
    → FitsWord (notes_to_unspent ctx.notes) outs
    → send_prepared rpc scan cfg ctx kind outs change ≡ done (plan, fee)
    → SpendsEnough (notes_to_unspent ctx.notes) (length outs) plan fee
unfolding send_prepared
send_prepared_pays rpc scan cfg ctx kind outs change plan fee fits h =
    let notes = notes_to_unspent ctx.notes in
    let (total, total_is, h7) =
      >>=_done (or_fail (sum_values 0 (amount_list outs)) outputs_sum_overflow) _ h in
    let ((selected, f), selected_is, h8) =
      >>=_done (as_insufficient (select_notes notes total (length outs))) _ h7 in
    let (planned, planned_is, h9) = >>=_done (plan_selected rpc ctx.notes [] selected) _ h8 in
    let (p, p_is, h10) =
      >>=_done
        (finish_plan scan cfg ctx kind (position_list planned.0) planned.1 (map to_output outs)
          change f)
        _ h9 in
    let (exact, below) =
      sum_values_exact 0 (amount_list outs) total (omega arith) fits.amounts
        (or_fail_done (sum_values 0 (amount_list outs)) outputs_sum_overflow total_is) in
    let exact' : total ≡ sum_list (amount_list outs) = omega arith in
    let chosen =
      subst (λ t. select_notes notes t (length outs) ≡ done (selected, f)) exact'
        (as_insufficient-done (select_notes notes total (length outs)) selected_is) in
    let (fields, fee_field) =
      finish_plan_fields scan cfg ctx kind (position_list planned.0) planned.1 (map to_output outs)
        change f p p_is in
    let spends =
      spends_enough notes outs selected f planned.1 p fits.values fits.sum fits.amounts chosen
        (plan_selected-ids rpc ctx.notes [] selected planned planned_is)
        (finish_plan-ids scan cfg ctx kind (position_list planned.0) planned.1 (map to_output outs)
          change f p p_is)
        fields fee_field in
    let same : (p, f) ≡ (plan, fee) = ground arith in
    subst (λ (q : TxPlan × ℕ). SpendsEnough notes (length outs) q.0 q.1) same spends

FitsWord-check_outputs :
    (notes : List UnspentNote) (outputs outs : List Output)
    → check_outputs outputs ≡ done outs
    → FitsWord notes outputs
    → FitsWord notes outs
FitsWord-check_outputs notes outputs outs h fits =
    let (amounts, count) = check_outputs-amounts outputs outs h in
    record {
      amounts = subst Small (sym amounts) fits.amounts;
      values = fits.values;
      sum = let s = fits.sum in omega (arith, ap sum_list amounts, count);
    }

-- Where the spendable notes' values and the outputs' amounts are uint64 values whose sums do not wrap
-- around, a plan that `planSend` returns spends the first of the sorted notes, and what they hold
-- covers what the plan pays and the fee that it states.
pub plan_send_pays :
    (cfg : SendConfig) (kind : TxPlanKind) (outputs : List Output) (change_address : Text)
    (rpc : Rpc) (scan : Scan) (ctx : Context) (plan : TxPlan) (fee : ℕ)
    → FitsWord (notes_to_unspent ctx.notes) outputs
    → services_of cfg ≡ done (rpc, scan)
    → prepare rpc scan (with_defaults cfg) ≡ done ctx
    → plan_send cfg kind outputs change_address ≡ done (plan, fee)
    → SpendsEnough (notes_to_unspent ctx.notes) (length outputs) plan fee
unfolding plan_send
plan_send_pays cfg kind outputs change rpc scan ctx plan fee fits services prepared h =
    let cfg' = with_defaults cfg in
    let h1 = >>=_from (services_of cfg) _ (rpc, scan) (done (plan, fee)) services h in
    let (_, h2) = fail_if_done (is_empty cfg'.wallet) wallet_required _ h1 in
    let (_, h3) = fail_if_done (is_empty (trim_space change)) change_address_required _ h2 in
    let (_, h4) = fail_if_done (length outputs == 0) outputs_required _ h3 in
    let (outs, outs_is, h5) = >>=_done (check_outputs outputs) _ h4 in
    let h6 = >>=_from (prepare rpc scan cfg') _ ctx (done (plan, fee)) prepared h5 in
    subst (λ c. SpendsEnough (notes_to_unspent ctx.notes) c plan fee)
      (check_outputs-amounts outputs outs outs_is).1
      (send_prepared_pays rpc scan cfg' ctx kind outs (trim_space change) plan fee
        (FitsWord-check_outputs (notes_to_unspent ctx.notes) outputs outs outs_is fits) h6)
