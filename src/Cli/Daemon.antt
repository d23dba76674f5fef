-- ===== src/Cli/Daemon.antt =====
-- `daemon`: internal/cli/daemon.go, on a Unix machine of 64 bits. The children of this module are about it.
pub mod PidFile
pub mod Runs
use juno_exchange_kit.Base.{
  ℕ, zero, suc, ◌==◌, length, Bool, true, false, not, Option, none, some, List, [], ◌∷◌, ◌++◌, ltb,
  if◌then◌else◌,
}
use juno_exchange_kit.Base.Int.{ℤ, pos, pos_part, ltb_ℤ}
use juno_exchange_kit.Base.Text.{Text, codes, is_empty, eq_text, trim_space}
use juno_exchange_kit.Base.Decimal.{parse_int64, format_uint}
use juno_exchange_kit.Store.Schema.{Db}
use juno_exchange_kit.Cli.Sync.{Scanner, SyncResult, Synced, synced, stopped, sync_wallet}
use juno_exchange_kit.Cli.Command.{
  World, Ended, returned, exited, Cmd, exit_if, or_exit, settle, report, ◌>>=◌, ◌>>◌,
  poll_not_positive, io_failed, no_data_dir, scan_url_required, bad_pid_file, already_running,
  process_unknown, sync_failed, unexpected_argument,
}
use juno_exchange_kit.Cli.Config.{
  Host, ServicesFlags, resolved_scan_url, resolved_data_dir, open_data_dir,
}
use juno_exchange_kit.Cli.Setup.{hot, cold, client_of}
use juno_exchange_kit.Cli.Seeds.{read_file, write_file}

-- What the signal 0 shows of a process.
pub data SignalReply : Type 0 where
  delivered process_done no_such_process not_permitted other_errno : SignalReply

-- The process table as a command finds it: its own id, the signal 0, the child that is started, if one is,
-- and whether a file can be renamed to a path, and whether the file of a path can be removed.
pub record Processes : Type 0 where
  pub own_pid : ℕ
  pub signal_zero : ℕ → SignalReply
  pub start : Option ℕ
  pub renames : Text → Bool
  pub removes : Text → Bool

abbrev pub pid_file : Text → Text
pid_file dir = dir ++ codes "/daemon.pid"

-- The files without those of a path.
unfoldable pub remove_file : Text → List (Text × Text) → List (Text × Text)
remove_file path [] = []
remove_file path ((p, content) ∷ files) =
    let rest = remove_file path files in if eq_text p path then rest else (p, content) ∷ rest

-- os.Remove, whose error every caller drops: a file that cannot be removed stays.
unfoldable pub without : Processes → Text → World → World
without ps path w = if ps.removes path then record w { files = remove_file path w.files } else w

abbrev pub remove : Processes → Text → Cmd (Unit {0})
remove ps path w = (returned tt, without ps path w)

-- A pid is positive.
abbrev pub positive_pid : Option ℤ → Ended (Option ℕ)
positive_pid none = exited bad_pid_file
positive_pid (some v) =
    if ltb_ℤ (pos 0) v then returned (some (pos_part v)) else exited bad_pid_file

abbrev pub pid_of_text : Option Text → Ended (Option ℕ)
pid_of_text none = returned none
pid_of_text (some raw) =
    if is_empty (trim_space raw)
    then exited bad_pid_file
    else positive_pid (parse_int64 (trim_space raw))

-- `readPIDFile`; a missing file is none.
unfoldable pub read_pid_file : Text → List (Text × Text) → Ended (Option ℕ)
read_pid_file path files = pid_of_text (read_file path files)

-- os.Rename, of the file that was just written.
abbrev pub renamed : Processes → Text → Text → Text → Cmd (Unit {0})
renamed ps tmp path content w =
    if ps.renames path
    then (returned tt, record w { files = (path, content) ∷ remove_file tmp w.files })
    else (exited io_failed, without ps tmp w)

-- `writePIDFile`
unfoldable pub write_pid_file : Host → Processes → Text → ℕ → Cmd (Unit {0})
write_pid_file host ps path pid =
    let content = format_uint pid ++ 10 ∷ [] in
    let tmp = path ++ codes ".tmp" in
    do exit_if (pid == 0) bad_pid_file; write_file host tmp content; renamed ps tmp path content

abbrev pub removed_if : Processes → Text → ℕ → Ended (Option ℕ) → World → World
removed_if ps path pid (returned (some p)) w = if p == pid then without ps path w else w
removed_if ps path pid (returned none) w = w
removed_if ps path pid (exited e) w = w

-- `removePIDFileIfMatches`, whose error the caller drops.
unfoldable pub remove_pid_file_if_matches : Processes → Text → ℕ → World → World
remove_pid_file_if_matches ps path pid w = removed_if ps path pid (read_pid_file path w.files) w

-- `isProcessRunning`
unfoldable pub is_process_running : Processes → ℕ → Ended Bool
is_process_running ps pid = if pid == 0 then returned false else elim (ps.signal_zero pid) [
  | delivered ↦ returned true
  | process_done ↦ returned false
  | no_such_process ↦ returned false
  | not_permitted ↦ returned true
  | other_errno ↦ exited process_unknown
]

-- The pid and whether it runs; none without a PID file.
unfoldable pub daemon_status : Processes → Text → Cmd (Option (ℕ × Bool))
daemon_status ps path w =
    (do
      found ← settle (read_pid_file path w.files)
      elim found [
        | none ↦ report none
        | some pid ↦
            (settle (is_process_running ps pid) >>= λ running. report (some (pid, running)))
      ])
      w

abbrev pub is_running : Option (ℕ × Bool) → Bool
is_running none = false
is_running (some (pid, running)) = running

abbrev pub dir_of : Host → Text → List Text → Cmd Text
dir_of host data_dir args = do
  exit_if (ltb 0 (length args)) unexpected_argument
  or_exit (resolved_data_dir host data_dir) no_data_dir

-- `runDaemonStatus`
unfoldable pub run_daemon_status : Host → Processes → Text → List Text → Cmd (Option (ℕ × Bool))
run_daemon_status host ps data_dir args = do
  dir ← dir_of host data_dir args
  status ← daemon_status ps (pid_file dir)
  elim status [
    | none ↦ report none
    | some (pid, running) ↦
        ((if running then report tt else remove ps (pid_file dir)) >> report (some (pid, running)))
  ]

-- `runDaemonStop`; after SIGTERM, and SIGKILL where the process outlives the timeout, the file
-- is removed if it can be.
unfoldable pub run_daemon_stop : Host → Processes → Text → List Text → Cmd (Option ℕ)
run_daemon_stop host ps data_dir args = do
  dir ← dir_of host data_dir args
  status ← daemon_status ps (pid_file dir)
  elim status [
    | none ↦ report none
    | some (pid, running) ↦ (remove ps (pid_file dir) >> report (some pid))
  ]

pub record DaemonFlags : Type 0 where
  pub data_dir : Text
  pub services : ServicesFlags
  pub poll : ℤ
  pub once : Bool
  pub log_file : Text

-- The log file is opened to append, and made if it is not there.
abbrev pub opened_log : Host → Text → Option Text → Cmd (Unit {0})
opened_log host path (some content) w =
    if host.writable path then (returned tt, w) else (exited io_failed, w)
opened_log host path none w = write_file host path [] w

-- `runDaemonStart`
unfoldable pub run_daemon_start : Host → Processes → DaemonFlags → List Text → Cmd ℕ
run_daemon_start host ps flags args = do
  exit_if (ltb 0 (length args)) unexpected_argument
  exit_if (not (ltb_ℤ (pos 0) flags.poll)) poll_not_positive
  dir ← or_exit (resolved_data_dir host flags.data_dir) no_data_dir
  exit_if (not (host.makes_dir dir)) io_failed
  exit_if (is_empty (resolved_scan_url host flags.services)) scan_url_required
  _ ← settle (client_of (host.scan_client (resolved_scan_url host flags.services)))
  status ← daemon_status ps (pid_file dir)
  exit_if (is_running status) already_running
  remove ps (pid_file dir)
  let given = trim_space flags.log_file
  let log = if is_empty given then dir ++ codes "/daemon.log" else given
  (λ w. opened_log host log (read_file log w.files) w)
  pid ← or_exit ps.start io_failed
  exit_if (pid == 0) io_failed
  write_pid_file host ps (pid_file dir) pid
  report pid

abbrev pub sync_ended : Synced SyncResult × Db → World → Ended (Unit {0}) × World
sync_ended (synced r, db) w = (returned tt, record w { db = db })
sync_ended (stopped e, db) w = (exited (sync_failed e), record w { db = db })

-- `syncWallet`, whose error stops the daemon.
unfoldable pub sync_or_exit : Scanner → ℕ → ℤ → Text → Cmd (Unit {0})
sync_or_exit scanner fuel now wallet w = sync_ended (sync_wallet scanner wallet now fuel w.db) w

-- The loop of `runDaemonRun`: a round for both wallets, then more until the signal, which comes after
-- `polls` polls. The scanner answers anew in every round.
unfoldable pub daemon_loop : (ℕ → Scanner) → ℕ → ℤ → Bool → ℕ → Cmd (Unit {0})
daemon_loop scanners fuel now once zero = do
  sync_or_exit (scanners 0) fuel now hot
  sync_or_exit (scanners 0) fuel now cold
daemon_loop scanners fuel now once (suc polls) = do
  sync_or_exit (scanners 0) fuel now hot
  sync_or_exit (scanners 0) fuel now cold
  if once then report tt else daemon_loop (λ i. scanners (suc i)) fuel now once polls

-- What is deferred runs however the command ends.
abbrev pub deferred : {A : Type 0} → (World → World) → Cmd A → Cmd A
deferred f m w = ((m w).0, f (m w).1)

-- The part of `runDaemonRun` behind the opened store.
unfoldable pub daemon_from :
    Host → Processes → (ℕ → Scanner) → ℕ → ℕ → DaemonFlags → Text → Cmd (Unit {0})
daemon_from host ps scanners fuel polls flags dir =
    deferred (remove_pid_file_if_matches ps (pid_file dir) ps.own_pid) (do
      exit_if (is_empty (resolved_scan_url host flags.services)) scan_url_required
      _ ← settle (client_of (host.scan_client (resolved_scan_url host flags.services)))
      daemon_loop scanners fuel host.now flags.once polls)

-- `runDaemonRun`; the fuel is that of `syncWallet`.
unfoldable pub run_daemon_run :
    Host → Processes → (ℕ → Scanner) → ℕ → ℕ → DaemonFlags → List Text → Cmd (Unit {0})
run_daemon_run host ps scanners fuel polls flags args = do
  exit_if (ltb 0 (length args)) unexpected_argument
  exit_if (not (ltb_ℤ (pos 0) flags.poll)) poll_not_positive
  dir ← settle (open_data_dir host flags.data_dir)
  daemon_from host ps scanners fuel polls flags dir
