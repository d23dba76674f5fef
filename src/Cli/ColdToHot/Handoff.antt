-- ===== src/Cli/ColdToHot/Handoff.antt =====
-- What `cold-to-hot sign` writes is what `cold-to-hot broadcast` reads and sends.
use juno_exchange_kit.Base.{
  ◌≡◌, refl, ap, subst, inl, inr, ◌∙◌, true, false, some, [], ◌∷◌, ◌++◌, arith, Bool-cases,
}
use juno_exchange_kit.Base.Text.{
  Text, is_empty, is_space, trim_space, trim_left, trim_right, cons_trimmed, trim_space_idem,
  trim_space-nil,
}
use juno_exchange_kit.Store.Wallets.{wallet}
use juno_exchange_kit.Txplan.Prepare.{TxPlan}
use juno_exchange_kit.Cli.Command.{
  World, Ended, returned, settle, >>=_returned, exit_if_passed, returned_inj, cold_wallet_missing,
  txplan_required,
}
use juno_exchange_kit.Cli.Config.{
  Host, SignerReply, SignerRun, process_error, not_json, printed, txsign_bin, open_data_dir,
}
use juno_exchange_kit.Cli.Setup.{cold}
use juno_exchange_kit.Cli.Seeds.{read_file, write_file, read_file_written}
use juno_exchange_kit.Cli.Signer.{TxsignResult, sign_tx_plan, read_reply, read_run}
use juno_exchange_kit.Cli.ColdToHot.{
  SignFlags, lookup_or, load_tx_plan, write_out, run_cold_to_hot_sign, load_hex_input,
}

trim_right-line : (s : Text) → trim_right (s ++ 10 ∷ []) ≡ trim_right s
unfolding trim_right is_space
trim_right-line [] = refl
trim_right-line (c ∷ s) = ap (cons_trimmed c) (trim_right-line s)

trim_left-line :
    (s : Text) → is_empty (trim_left s) ≡ false → trim_left (s ++ 10 ∷ []) ≡ trim_left s ++ 10 ∷ []
unfolding trim_left
trim_left-line [] h = absurd (ground arith)
trim_left-line (c ∷ s) h = elim (Bool-cases (is_space c)) [
  | inl e ↦ rw e (trim_left-line s (rw e at h))
  | inr e ↦ rw e refl
]

-- A line feed at the end is trimmed away.
trim_space-line :
    (s : Text) → is_empty (trim_left s) ≡ false → trim_space (s ++ 10 ∷ []) ≡ trim_space s
unfolding trim_space
trim_space-line s h = ap trim_right (trim_left-line s h) ∙ trim_right-line (trim_left s)

trim_right-empty : (s : Text) → is_empty s ≡ true → is_empty (trim_right s) ≡ true
unfolding trim_right
trim_right-empty [] h = refl
trim_right-empty (c ∷ s) h = absurd (ground arith)

filled_left : (s : Text) → is_empty (trim_space s) ≡ false → is_empty (trim_left s) ≡ false
unfolding trim_space
filled_left s h = elim (Bool-cases (is_empty (trim_left s))) [
  | inr e ↦ e
  | inl e ↦ let none_left = trim_right-empty (trim_left s) e in absurd (ground arith)
]

-- What a signed transaction's hexadecimal text is like.
pub record IsRaw (s : TxsignResult) : Type 0 where
  pub trimmed : trim_space s.raw_tx_hex ≡ s.raw_tx_hex
  pub filled : is_empty s.raw_tx_hex ≡ false

read_reply-IsRaw : (r : SignerReply) {s : TxsignResult} → read_reply r ≡ returned s → IsRaw s
unfolding read_reply
read_reply-IsRaw r {s} h =
    let raw : trim_space r.raw_tx_hex ≡ s.raw_tx_hex = ground arith in
    let more : is_empty (trim_space r.raw_tx_hex) ≡ false = ground arith in
    record {
      trimmed = subst (λ t. trim_space t ≡ t) raw (trim_space_idem r.raw_tx_hex);
      filled = subst (λ t. is_empty t ≡ false) raw more;
    }

read_run-IsRaw : (r : SignerRun) {s : TxsignResult} → read_run r ≡ returned s → IsRaw s
unfolding read_run
read_run-IsRaw process_error h = absurd (ground arith)
read_run-IsRaw not_json h = absurd (ground arith)
read_run-IsRaw (printed r) h = read_reply-IsRaw r h

sign_tx_plan-IsRaw :
    (host : Host) (bin seed : Text) (plan : TxPlan) {s : TxsignResult}
    → sign_tx_plan host bin seed plan ≡ returned s
    → IsRaw s
unfolding sign_tx_plan
sign_tx_plan-IsRaw host bin seed plan h = elim (Bool-cases (is_empty (trim_space bin))) [
  | inl e ↦ absurd (ground arith)
  | inr e ↦ elim (Bool-cases (is_empty (trim_space seed))) [
    | inl f ↦ absurd (ground arith)
    | inr f ↦
        read_run-IsRaw (host.run_txsign (trim_space bin) (trim_space seed) plan) (ground arith)
  ]
]

write_out_written :
    (host : Host) (path content : Text) (w w' : World)
    → is_empty path ≡ false
    → write_out host path content w ≡ (returned tt, w')
    → read_file path w'.files ≡ some (content ++ 10 ∷ [])
unfolding write_out write_file
write_out_written host path content w w' filled h = elim (Bool-cases (host.writable path)) [
  | inr e ↦ absurd (ground arith)
  | inl e ↦
      let files : w'.files ≡ (path, content ++ 10 ∷ []) ∷ w.files = ground arith in
      ap (read_file path) files ∙ read_file_written path (content ++ 10 ∷ []) w.files
]

load_written :
    (path raw : Text) (w : World)
    → trim_space path ≡ path
    → is_empty path ≡ false
    → trim_space raw ≡ raw
    → is_empty raw ≡ false
    → read_file path w.files ≡ some (raw ++ 10 ∷ [])
    → load_hex_input [] path w ≡ (returned raw, w)
unfolding load_hex_input
load_written path raw w trimmed filled clean more found =
    let nothing = trim_space-nil in
    let line = trim_space-line raw (filled_left raw (ap is_empty clean ∙ more)) ∙ clean in
    rw (nothing, trimmed, filled, found, line) refl

-- A `cold-to-hot sign` that returns, with a path for its output that is trimmed and not empty, has written
-- the file that `cold-to-hot broadcast` reads: the command that is given the path, and no text, sends exactly
-- the transaction that was signed.
pub run_cold_to_hot_sign_handoff :
    (host : Host) (flags : SignFlags) (signed : TxsignResult) (w w' : World)
    → run_cold_to_hot_sign host flags w ≡ (returned signed, w')
    → trim_space flags.out ≡ flags.out
    → is_empty flags.out ≡ false
    → load_hex_input [] flags.out w' ≡ (returned signed.raw_tx_hex, w')
unfolding run_cold_to_hot_sign
run_cold_to_hot_sign_handoff host flags signed w w' h trimmed filled =
    let (given, h1) = exit_if_passed (is_empty (trim_space flags.txplan)) txplan_required _ w h in
    let (dir, v1, e1, h2) =
      >>=_returned (settle (open_data_dir host flags.data_dir)) (λ x. _) w h1 in
    let (row, v2, e2, h3) =
      >>=_returned (lookup_or (wallet cold) cold_wallet_missing) (λ x. _) v1 h2 in
    let (plan, v3, e3, h4) =
      >>=_returned (load_tx_plan host (trim_space flags.txplan)) (λ x. _) v2 h3 in
    let signing = sign_tx_plan host (txsign_bin host flags.txsign_bin) row.seed_path plan in
    let (s, v4, e4, h5) = >>=_returned (settle signing) (λ x. _) v3 h4 in
    let (u, v5, e5, h6) = >>=_returned (write_out host flags.out s.raw_tx_hex) (λ x. _) v4 h5 in
    let (same, stays) = returned_inj h6 in
    let raw =
      sign_tx_plan-IsRaw host (txsign_bin host flags.txsign_bin) row.seed_path plan
        (ap (λ (x : Ended TxsignResult × World). x.0) e4) in
    let written = write_out_written host flags.out s.raw_tx_hex v4 v5 filled e5 in
    let loaded =
      load_written flags.out s.raw_tx_hex v5 trimmed filled raw.trimmed raw.filled written in
    subst (λ (x : TxsignResult). load_hex_input [] flags.out w' ≡ (returned x.raw_tx_hex, w')) same
      (subst (λ (v : World). load_hex_input [] flags.out v ≡ (returned s.raw_tx_hex, v)) stays
        loaded)
