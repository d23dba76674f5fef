-- ===== src/Cli/Daemon/Runs.antt =====
-- What a run of the daemon does.
use juno_exchange_kit.Base.{
  refl, sym, subst, if◌then◌else◌, ◌∷◌, ℕ, suc, zero, ◌≡◌, ◌≢◌, Bool, true, false, Option, none,
  some, List, [], arith,
}
use juno_exchange_kit.Base.Int.{ℤ, pos, ltb_ℤ}
use juno_exchange_kit.Base.Text.{Text, is_empty}
use juno_exchange_kit.Store.Schema.{Db}
use juno_exchange_kit.Cli.Sync.{
  Scanner, SyncResult, Synced, synced, stopped, sync_wallet, SyncError,
}
use juno_exchange_kit.Txplan.Services.{Scan}
use juno_exchange_kit.Cli.Command.{World, Ended, returned, exited, Cmd, ◌>>◌, sync_failed}
use juno_exchange_kit.Cli.Config.{Host, resolved_scan_url, open_data_dir}
use juno_exchange_kit.Cli.Setup.{hot, cold, client_of}
use juno_exchange_kit.Cli.Daemon.{
  Processes, DaemonFlags, pid_file, read_pid_file, removed_if, without, remove_pid_file_if_matches,
  sync_ended, sync_or_exit, daemon_loop, daemon_from, run_daemon_run,
}
use juno_exchange_kit.Cli.Daemon.PidFile.{remove_pid_file_if_matches_clears}

-- The calls of `syncWallet` in a number of rounds: both wallets in each, with the scanner of the round.
unfoldable pub rounds_of : (ℕ → Scanner) → ℕ → List (Scanner × Text)
rounds_of scanners zero = []
rounds_of scanners (suc n) =
    (scanners 0, hot) ∷ (scanners 0, cold) ∷ rounds_of (λ i. scanners (suc i)) n

-- One round, or one more than the polls before the signal.
abbrev pub round_count : Bool → ℕ → ℕ
round_count once polls = if once then 1 else suc polls

-- `Ran fuel now calls db r db'`: the calls made in order lead from `db` to `db'`, all of them or up to the
-- first that fails, whose error is the outcome `r`.
pub data Ran (fuel : ℕ) (now : ℤ)
    : List (Scanner × Text) → Db → Ended (Unit {0}) → Db → Type 0 where
  ran_all : {db : Db} → Ran fuel now [] db (returned tt) db
  ran_step :
      {s : Scanner} {wallet : Text} {calls : List (Scanner × Text)} {db mid db' : Db}
      {out : SyncResult} {r : Ended (Unit {0})}
      → sync_wallet s wallet now fuel db ≡ (synced out, mid)
      → Ran fuel now calls mid r db'
      → Ran fuel now ((s, wallet) ∷ calls) db r db'
  ran_stops :
      {s : Scanner} {wallet : Text} {calls : List (Scanner × Text)} {db db' : Db} {e : SyncError}
      → sync_wallet s wallet now fuel db ≡ (stopped e, db')
      → Ran fuel now ((s, wallet) ∷ calls) db (exited (sync_failed e)) db'

module _ (fuel : ℕ) (now : ℤ) where
  ended-Ran :
      (s : Scanner) (wallet : Text) (calls : List (Scanner × Text)) (k : Cmd (Unit {0})) (w : World)
      (r : Synced SyncResult × Db)
      → sync_wallet s wallet now fuel w.db ≡ r
      → ((v : World) → Ran fuel now calls v.db (k v).0 (k v).1.db)
      → Ran fuel now
          ((s, wallet) ∷ calls)
          w.db
          (((λ _. sync_ended r w) >> k) w).0
          (((λ _. sync_ended r w) >> k) w).1.db
  ended-Ran s wallet calls k w (synced out, db) e h = ran_step e (h (record w { db = db }))
  ended-Ran s wallet calls k w (stopped x, db) e h = ran_stops e

  ended_last-Ran :
      (s : Scanner) (wallet : Text) (w : World) (r : Synced SyncResult × Db)
      → sync_wallet s wallet now fuel w.db ≡ r
      → Ran fuel now ((s, wallet) ∷ []) w.db (sync_ended r w).0 (sync_ended r w).1.db
  ended_last-Ran s wallet w (synced out, db) e = ran_step e ran_all
  ended_last-Ran s wallet w (stopped x, db) e = ran_stops e

  sync-Ran :
      (s : Scanner) (wallet : Text) (calls : List (Scanner × Text)) (k : Cmd (Unit {0})) (w : World)
      → ((v : World) → Ran fuel now calls v.db (k v).0 (k v).1.db)
      → Ran fuel now
          ((s, wallet) ∷ calls)
          w.db
          ((sync_or_exit s fuel now wallet >> k) w).0
          ((sync_or_exit s fuel now wallet >> k) w).1.db
  unfolding sync_or_exit
  sync-Ran s wallet calls k w h =
      ended-Ran s wallet calls k w (sync_wallet s wallet now fuel w.db) refl h

  sync_last-Ran :
      (s : Scanner) (wallet : Text) (w : World)
      → Ran fuel now
          ((s, wallet) ∷ [])
          w.db
          (sync_or_exit s fuel now wallet w).0
          (sync_or_exit s fuel now wallet w).1.db
  unfolding sync_or_exit
  sync_last-Ran s wallet w = ended_last-Ran s wallet w (sync_wallet s wallet now fuel w.db) refl

  daemon_loop-Ran :
      (scanners : ℕ → Scanner) (once : Bool) (polls : ℕ) (w : World)
      → Ran fuel now
          (rounds_of scanners (round_count once polls))
          w.db
          (daemon_loop scanners fuel now once polls w).0
          (daemon_loop scanners fuel now once polls w).1.db
  unfolding daemon_loop rounds_of
  daemon_loop-Ran scanners true zero w =
      sync-Ran (scanners 0) hot _ _ w (sync_last-Ran (scanners 0) cold)
  daemon_loop-Ran scanners false zero w =
      sync-Ran (scanners 0) hot _ _ w (sync_last-Ran (scanners 0) cold)
  daemon_loop-Ran scanners true (suc polls) w =
      sync-Ran (scanners 0) hot _ _ w λ v. sync-Ran (scanners 0) cold _ _ v λ u. ran_all
  daemon_loop-Ran scanners false (suc polls) w =
      sync-Ran (scanners 0) hot _ _ w
        λ v. sync-Ran (scanners 0) cold _ _ v (daemon_loop-Ran (λ i. scanners (suc i)) false polls)

removed_if-db :
    (ps : Processes) (path : Text) (pid : ℕ) (r : Ended (Option ℕ)) (w : World)
    → (removed_if ps path pid r w).db ≡ w.db
unfolding without
removed_if-db ps path pid (exited e) w = refl
removed_if-db ps path pid (returned none) w = refl
removed_if-db ps path pid (returned (some p)) w = ground arith

module _ (host : Host) (ps : Processes) (scanners : ℕ → Scanner) (fuel polls : ℕ)
    (flags : DaemonFlags) (w : World) (dir : Text) (good : ltb_ℤ (pos 0) flags.poll ≡ true)
    (opened : open_data_dir host flags.data_dir ≡ returned dir) where
  -- A daemon with a positive poll, a store that opens and a scanner synchronizes the hot and then the cold
  -- wallet in every round, once or in as many rounds as come before the signal, until a call fails; its
  -- outcome is that failure, or none, and its store is what the calls leave.
  pub run_daemon_run-Ran :
      (sc : Scan)
      → is_empty (resolved_scan_url host flags.services) ≡ false
      → client_of (host.scan_client (resolved_scan_url host flags.services)) ≡ returned sc
      → Ran fuel host.now
          (rounds_of scanners (round_count flags.once polls))
          w.db
          (run_daemon_run host ps scanners fuel polls flags [] w).0
          (run_daemon_run host ps scanners fuel polls flags [] w).1.db
  unfolding run_daemon_run daemon_from remove_pid_file_if_matches
  run_daemon_run-Ran sc given client =
      rw (good, opened, given, client)
        (subst
          (λ db.
            Ran fuel host.now (rounds_of scanners (round_count flags.once polls)) w.db
              (daemon_loop scanners fuel host.now flags.once polls w).0 db)
          (sym (removed_if-db ps (pid_file dir) ps.own_pid _ _))
          (daemon_loop-Ran fuel host.now scanners flags.once polls w))

  -- A daemon with a positive poll that has opened the store of its data directory ends, also with an error,
  -- with a PID file that does not name it, where the file can be removed.
  pub run_daemon_run_clears :
      ps.removes (pid_file dir) ≡ true
      → read_pid_file (pid_file dir) (run_daemon_run host ps scanners fuel polls flags [] w).1.files
        ≢ returned (some ps.own_pid)
  unfolding run_daemon_run daemon_from
  run_daemon_run_clears can =
      rw (good, opened) (remove_pid_file_if_matches_clears ps (pid_file dir) ps.own_pid _ can)
