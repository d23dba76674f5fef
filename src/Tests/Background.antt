-- ===== src/Tests/Background.antt =====
-- The daemon and its PID file.
use juno_exchange_kit.Cli.Seeds.{read_file, write_file}
use juno_exchange_kit.Base.Decimal.{
  all_digits, decimal_from, decimal_value, is_digit, parse_int64, parse_uint,
}
use juno_exchange_kit.Base.{
  zero, suc, ℕ, false, ◌≡◌, ◌≢◌, refl, true, false, none, some, [], ◌∷◌, arith,
}
use juno_exchange_kit.Base.Int.{pos}
use juno_exchange_kit.Base.Text.{
  is_empty, Text, codes, eq_text, is_space, trim_left, trim_right, trim_space,
}
use juno_exchange_kit.Cli.Command.{World, returned}
use juno_exchange_kit.Cli.Config.{resolved_scan_url, resolved_data_dir, open_data_dir, flag_or_env}
use juno_exchange_kit.Cli.Daemon.{
  Processes, no_such_process, DaemonFlags, pid_file, read_pid_file, write_pid_file, run_daemon_stop,
  run_daemon_run, daemon_status, is_process_running,
}
use juno_exchange_kit.Cli.Daemon.PidFile.{write_pid_file_reads, run_daemon_stop_clears}
use juno_exchange_kit.Cli.Daemon.Runs.{
  Ran, rounds_of, round_count, run_daemon_run-Ran, run_daemon_run_clears,
}
use juno_exchange_kit.Cli.Sync.{Scanner}
use juno_exchange_kit.Cli.Setup.{client_of}
use juno_exchange_kit.Tests.Planning.{demo_scan}
use juno_exchange_kit.Tests.Syncing.{demo_scanner}
use juno_exchange_kit.Tests.Commands.{demo_host, demo_urls, demo_world, returned_at}

abbrev demo_processes : Processes
demo_processes = record {
  own_pid = 4711;
  signal_zero = λ pid. no_such_process;
  start = some 4711;
  renames = λ path. true;
  removes = λ path. true;
}

abbrev demo_path : Text
demo_path = codes "/data/daemon.pid"

demo_write-returns :
    (write_pid_file demo_host demo_processes demo_path 4711 demo_world).0 ≡ returned tt
unfolding write_pid_file write_file
demo_write-returns = refl

abbrev written_world : World
written_world = (write_pid_file demo_host demo_processes demo_path 4711 demo_world).1

write_pid_file_reads_example : read_pid_file demo_path written_world.files ≡ returned (some 4711)
write_pid_file_reads_example =
    write_pid_file_reads demo_host demo_processes demo_path 4711 demo_world written_world
      (omega arith)
      (returned_at (write_pid_file demo_host demo_processes demo_path 4711 demo_world)
        demo_write-returns)

abbrev running_world : World
running_world = record demo_world { files = (demo_path, codes "4711\n") ∷ [] }

abbrev stopped_world : World
stopped_world = (run_daemon_stop demo_host demo_processes (codes "/data") [] running_world).1

demo_stop-returns :
    (run_daemon_stop demo_host demo_processes (codes "/data") [] running_world).0
    ≡ returned (some 4711)
unfolding run_daemon_stop resolved_data_dir flag_or_env daemon_status read_pid_file
    is_process_running read_file parse_uint parse_int64 decimal_value decimal_from all_digits
    is_digit trim_space trim_left trim_right is_space eq_text
demo_stop-returns = refl

demo_dir : resolved_data_dir demo_host (codes "/data") ≡ some (codes "/data")
unfolding resolved_data_dir flag_or_env trim_space trim_left trim_right is_space
demo_dir = refl

run_daemon_stop_clears_example : read_pid_file demo_path stopped_world.files ≡ returned none
run_daemon_stop_clears_example =
    run_daemon_stop_clears demo_host demo_processes (codes "/data") [] running_world stopped_world
      (some 4711) (codes "/data") demo_dir refl
      (returned_at (run_daemon_stop demo_host demo_processes (codes "/data") [] running_world)
        demo_stop-returns)

abbrev demo_daemon : DaemonFlags
demo_daemon = record {
  data_dir = codes "/data";
  services = demo_urls;
  poll = pos 2000000000;
  once = false;
  log_file = [];
}

demo_daemon-opens : open_data_dir demo_host (codes "/data") ≡ returned (codes "/data")
unfolding open_data_dir resolved_data_dir flag_or_env trim_space trim_left trim_right is_space
demo_daemon-opens = refl

-- The wallets' events are there from the second round on.
abbrev demo_scanners : ℕ → Scanner
demo_scanners zero = λ wallet cursor. some (record { events = []; next_cursor = cursor })
demo_scanners (suc n) = demo_scanner

demo_url-given : is_empty (resolved_scan_url demo_host demo_urls) ≡ false
unfolding resolved_scan_url flag_or_env trim_space trim_left trim_right is_space
demo_url-given = refl

demo_client :
    client_of (demo_host.scan_client (resolved_scan_url demo_host demo_urls)) ≡ returned demo_scan
unfolding client_of
demo_client = refl

run_daemon_run-Ran_example :
    Ran 2
      (pos 7)
      (rounds_of demo_scanners (round_count false 3))
      demo_world.db
      (run_daemon_run demo_host demo_processes demo_scanners 2 3 demo_daemon [] demo_world).0
      (run_daemon_run demo_host demo_processes demo_scanners 2 3 demo_daemon [] demo_world).1.db
run_daemon_run-Ran_example =
    run_daemon_run-Ran demo_host demo_processes demo_scanners 2 3 demo_daemon demo_world
      (codes "/data") refl demo_daemon-opens demo_scan demo_url-given demo_client

run_daemon_run_clears_example :
    read_pid_file
      (pid_file (codes "/data"))
      (run_daemon_run demo_host demo_processes demo_scanners 2 3 demo_daemon []
        running_world).1.files
    ≢ returned (some 4711)
run_daemon_run_clears_example =
    run_daemon_run_clears demo_host demo_processes demo_scanners 2 3 demo_daemon running_world
      (codes "/data") refl demo_daemon-opens refl
