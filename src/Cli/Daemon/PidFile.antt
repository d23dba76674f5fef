-- ===== src/Cli/Daemon/PidFile.antt =====
-- The PID file is read back as it was written, and goes when the daemon does.
use juno_exchange_kit.Base.{
  subst, ℕ, suc, zero, ◌≤◌, ◌≡◌, ◌≢◌, refl, ap, sym, ◌∙◌, inl, inr, true, false, Option, none, some,
  List, [], ◌∷◌, ◌++◌, arith, ◌==◌, length, ltb, Bool-cases, Option-cases,
}
use juno_exchange_kit.Base.Word.{max_int64}
use juno_exchange_kit.Base.Text.{Text, codes, is_empty, eq_text, is_space}
use juno_exchange_kit.Base.Decimal.{
  format_uint, all_digits, is_digit, all_digits-format_uint, parse_int64-format_uint,
  format_uint-ne-nil,
}
use juno_exchange_kit.Cli.Command.{
  World, Ended, returned, exited, settle, exit_if_passed, >>=_returned, returned_inj, bad_pid_file,
  unexpected_argument,
}
use juno_exchange_kit.Cli.Config.{Host, resolved_data_dir}
use juno_exchange_kit.Cli.Seeds.{read_file, write_file, read_file_written, IsSolid, trim_space-line}
use juno_exchange_kit.Cli.Daemon.{
  Processes, pid_file, remove_file, without, pid_of_text, read_pid_file, write_pid_file, removed_if,
  remove_pid_file_if_matches, is_process_running, daemon_status, run_daemon_stop, dir_of,
}

-- A removed file is not there.
pub read_file_removed :
    (path : Text) (files : List (Text × Text)) → read_file path (remove_file path files) ≡ none
unfolding read_file remove_file
read_file_removed path [] = refl
read_file_removed path ((p, content) ∷ files) = elim (Bool-cases (eq_text p path)) [
  | inl e ↦ rw e (read_file_removed path files)
  | inr e ↦ rw (e, read_file, e) (read_file_removed path files)
]

all_digits-IsSolid : (s : Text) → all_digits s ≡ true → IsSolid s
unfolding all_digits is_digit is_space
all_digits-IsSolid [] h = tt
all_digits-IsSolid (c ∷ s) h = (ground arith, all_digits-IsSolid s (ground arith))

pub read_pid_file_gone :
    (path : Text) (files : List (Text × Text))
    → read_pid_file path (remove_file path files) ≡ returned none
unfolding read_pid_file
read_pid_file_gone path files = ap pid_of_text (read_file_removed path files)

filled : (s : Text) → s ≢ [] → is_empty s ≡ false
filled [] h = absurd (h refl)
filled (c ∷ s) h = refl

pid_of_line :
    (n : ℕ)
    → suc n ≤ max_int64
    → pid_of_text (some (format_uint (suc n) ++ 10 ∷ [])) ≡ returned (some (suc n))
pid_of_line n le =
    let line =
      trim_space-line (format_uint (suc n))
        (all_digits-IsSolid (format_uint (suc n)) (all_digits-format_uint (suc n))) in
    let more = filled (format_uint (suc n)) (format_uint-ne-nil (suc n)) in
    let value = parse_int64-format_uint (suc n) le in rw (line, more, value) (ground arith)

-- A PID file that was written is read back with the same pid.
pub write_pid_file_reads :
    (host : Host) (ps : Processes) (path : Text) (pid : ℕ) (w w' : World)
    → pid ≤ max_int64
    → write_pid_file host ps path pid w ≡ (returned tt, w')
    → read_pid_file path w'.files ≡ returned (some pid)
unfolding write_pid_file read_pid_file
write_pid_file_reads host ps path zero w w' le h = absurd (ground arith)
write_pid_file_reads host ps path (suc n) w w' le h =
    let content = format_uint (suc n) ++ 10 ∷ [] in
    let tmp = path ++ codes ".tmp" in
    let (fits, h0) = exit_if_passed (suc n == 0) bad_pid_file _ w h in
    let (u, v, e1, h1) = >>=_returned (write_file host tmp content) (λ x. _) w h0 in
    elim (Bool-cases (ps.renames path)) [
      | inr e ↦ absurd (let k = rw e at h1 in ground arith)
      | inl e ↦
          let (a, at) = returned_inj (rw e at h1) in
          ap pid_of_text (
            ap (λ (x : World). read_file path x.files) (sym at)
            ∙ read_file_written path content (remove_file tmp v.files))
          ∙ pid_of_line n le
    ]

removed_if-clears :
    (ps : Processes) (path : Text) (pid : ℕ) (r : Ended (Option ℕ)) (w : World)
    → ps.removes path ≡ true
    → read_pid_file path w.files ≡ r
    → read_pid_file path (removed_if ps path pid r w).files ≢ returned (some pid)
unfolding without
removed_if-clears ps path pid (exited e) w can h k = absurd (ground arith)
removed_if-clears ps path pid (returned none) w can h k = absurd (ground arith)
removed_if-clears ps path pid (returned (some p)) w can h k = elim (Bool-cases (p == pid)) [
  | inl e ↦
      let gone = read_pid_file_gone path w.files in
      let still = rw (e, can) at k in absurd (ground arith)
  | inr e ↦ let still = rw e at k in absurd (ground arith)
]

-- Behind the deferred call a PID file that can be removed does not name the process.
pub remove_pid_file_if_matches_clears :
    (ps : Processes) (path : Text) (pid : ℕ) (w : World)
    → ps.removes path ≡ true
    → read_pid_file path (remove_pid_file_if_matches ps path pid w).files ≢ returned (some pid)
unfolding remove_pid_file_if_matches
remove_pid_file_if_matches_clears ps path pid w can =
    removed_if-clears ps path pid (read_pid_file path w.files) w can refl

-- A status that finds nothing has read nothing, and a status changes nothing.
daemon_status-none :
    (ps : Processes) (path : Text) (w v : World)
    → daemon_status ps path w ≡ (returned none, v)
    → read_pid_file path v.files ≡ returned none
unfolding daemon_status
daemon_status-none ps path w v h =
    let (found, v1, e1, h1) = >>=_returned (settle (read_pid_file path w.files)) (λ x. _) w h in
    elim (Option-cases found) [
      | inl e ↦
          ap (λ (x : World). read_pid_file path x.files)
            (sym (returned_inj (rw e at h1)).1
              ∙ sym (ap (λ (x : Ended (Option ℕ) × World). x.1) e1))
          ∙ ap (λ (x : Ended (Option ℕ) × World). x.0) e1
          ∙ ap returned e
      | inr (pid, e) ↦
          let (running, v2, e2, h2) =
            >>=_returned (settle (is_process_running ps pid)) (λ x. _) v1 (rw e at h1) in
          absurd (ground arith)
    ]

dir_of_returned :
    (host : Host) (data_dir : Text) (args : List Text) (w v : World) (dir : Text)
    → dir_of host data_dir args w ≡ (returned dir, v)
    → resolved_data_dir host data_dir ≡ some dir
dir_of_returned host data_dir args w v dir h =
    let (none_left, h1) = exit_if_passed (ltb 0 (length args)) unexpected_argument _ w h in
    elim (Option-cases (resolved_data_dir host data_dir)) [
      | inl e ↦ absurd (let k = rw e at h1 in ground arith)
      | inr (d, e) ↦ e ∙ ap some (returned_inj (rw e at h1)).0
    ]

-- Where the PID file of the data directory can be removed, a `daemon stop` that returns has left none.
pub run_daemon_stop_clears :
    (host : Host) (ps : Processes) (data_dir : Text) (args : List Text) (w w' : World)
    (out : Option ℕ) (dir : Text)
    → resolved_data_dir host data_dir ≡ some dir
    → ps.removes (pid_file dir) ≡ true
    → run_daemon_stop host ps data_dir args w ≡ (returned out, w')
    → read_pid_file (pid_file dir) w'.files ≡ returned none
unfolding run_daemon_stop without
run_daemon_stop_clears host ps data_dir args w w' out dir found can h =
    let (d, v1, e1, h1) = >>=_returned (dir_of host data_dir args) (λ x. _) w h in
    let same : d ≡ dir = let k = dir_of_returned host data_dir args w v1 d e1 in ground arith in
    let can' : ps.removes (pid_file d) ≡ true =
      subst (λ x. ps.removes (pid_file x) ≡ true) (sym same) can in
    let (status, v2, e2, h2) = >>=_returned (daemon_status ps (pid_file d)) (λ x. _) v1 h1 in
    subst (λ x. read_pid_file (pid_file x) w'.files ≡ returned none) same
      (elim (Option-cases status) [
        | inl e ↦
            let stays = (returned_inj (rw e at h2)).1 in
            ap (λ (x : World). read_pid_file (pid_file d) x.files) (sym stays)
            ∙ daemon_status-none ps (pid_file d) v1 v2 (e2 ∙ ap (λ s. (returned s, v2)) e)
        | inr ((pid, running), e) ↦
            let gone = (returned_inj (rw (e, can') at h2)).1 in
            ap (λ (x : World). read_pid_file (pid_file d) x.files) (sym gone)
            ∙ read_pid_file_gone (pid_file d) v2.files
      ])
