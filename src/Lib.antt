-- ===== src/Lib.antt =====
-- juno-exchange-kit: the store of an exchange's accounts, and the planner of the transactions that
-- spend its wallets.
--
-- The program is a Go command. Its store (internal/store) is a SQLite file that holds accounts and
-- their balances, the wallets with the addresses handed out, the deposits that the scanner reports and
-- the withdrawals that were sent. Its planner (internal/txplan, internal/chain) asks a node and the
-- scanner for the notes of a wallet and plans transactions that spend them. The commands
-- (internal/cli) join the two: they feed scanner events to the store, plan, sign and broadcast a
-- withdrawal and debit the account.
--
-- The files:
--   Base           shared names; Base/Word machine integers, Base/Int integers, Base/Text strings,
--                  Base/Decimal strconv, Base/Table SQL statements on lists of rows.
--   Store/Schema   the tables of Init (internal/store/store.go), one record for each.
--   Store/Exec     a call on the store: it takes the database and gives a result or an error, and the
--                  database after it. A transaction that fails gives back the database it began with.
--   Store/Keeps    rules for what a call keeps; Store/Assigned addresses that were handed out.
--   Store/Accounts, Store/Wallets, Store/Addresses, Store/Deposits, Store/DepositQueries,
--   Store/Withdrawals
--                  the operations of internal/store, each a function of the same name in snake case;
--                  an operation that trims its arguments has a function on trimmed arguments
--                  (apply_trimmed, withdraw_trimmed), and the body of its transaction ends in _tx.
--   Store/Ledger   what an account holds, was credited and has withdrawn, and the invariant that ties
--                  them. Its children go through the operations one by one; Store/Ledger/Run is about
--                  sequences of calls and Store/Ledger/Replay about events that come twice.
--   Txplan/Notes   fees and the selection of notes (internal/txplan/logic.go).
--   Txplan/Chunks  splitNotesBalanced (internal/txplan/sweep_many.go).
--   Txplan/Services, Txplan/Actions, Txplan/Prepare, Txplan/Build, Txplan/Plan
--                  what the remote services answer and GetInfo (internal/chain/chain.go), the notes that
--                  can be spent and their actions, and the planners (internal/txplan/builder.go).
--                  Code that the planners repeat is one function here (prepare, plan_notes,
--                  finish_plan, sum_values).
--   Txplan/Select, Txplan/Greedy, Txplan/Split, Txplan/Borrow, Txplan/Sums, Txplan/Sweep, Txplan/Send,
--   Txplan/Pays
--                  the proofs about them.
--   Cli/Sync       syncWallet (internal/cli/sync.go), which feeds the scanner's events to the store.
--   Cli/Command    how a command runs: on the database, the transactions sent and the files, with a
--                  failure for each message of writeErr. Cli/Config flags, environment and what the
--                  commands ask of the machine (internal/cli/config.go, cli.go); Cli/Args
--                  reorderFlagArgs (args.go); Cli/Signer signTxPlan (txsign.go); Cli/Setup what the
--                  commands read of the settings, and the clients.
--   Cli/Seeds, Cli/Init
--                  ensureSeedFile and runInit (init.go).
--   Cli/Withdraw   runWithdraw (withdraw.go), cut into the steps parse_request, prepare_withdraw,
--                  plan_payment, pay and send_signed.
--   Cli/Sweep      the two sweep commands (sweep.go): sign_all, submit_all and wait_all are their three
--                  loops, which both commands share.
--   Cli/ColdToHot  plan, sign and broadcast, and coldMaxSendable (cold_to_hot.go).
--   Cli/Balances   walletBalanceSummary (balances.go) and the loop of runWalletBalance (wallet.go).
--   Cli/Juno, Cli/Account
--                  formatJUNO and humanAgo, and the account commands (account.go).
--   Cli/Daemon     the daemon, which runs syncWallet in a loop, and its PID file (daemon.go).
--   Cli/Quiet and the children of these modules
--                  the proofs about the commands.
--   Tests          the theorems at concrete inputs.
--
-- Bounds. An int64 is an integer whose operations wrap around as Go's do (add_int64, sub_int64); a
-- uint64 is a number with `% 2 ^ 64` written out, a uint32 with `% 2 ^ 32`. The borrowing loop of
-- splitNotesBalanced runs on fuel, one turn for each chunk, and the page loop of syncWallet on fuel
-- for the pages. A uint64 has twenty decimal digits at most.
--
-- Parameters. The time, random bytes, the derivation of an address from an index, and the answers of
-- junocashd and of the scanner are arguments; what a service answers within one call of a planner, or within
-- one run of syncWallet, is a function of the request. In the loops of the daemon and of account
-- wait-deposit the scanner is another function in every round; the node's tip is the same in each.
--
-- The environment, the home directory, the child process of the signer, the clients of the services,
-- the key library and the JSON of a plan are fields of the record Host; a command reads the flags that
-- package flag has parsed as a record. What os.Rename and os.Remove can do is a field of the record
-- Processes; a file that cannot be removed stays, and the error is dropped as in the code.
--
-- Not modelled. The failures of SQLite itself (a busy or broken file), contexts and their deadlines;
-- each call on the store runs to its end before the next begins. Times are Unix seconds. ORDER BY and
-- sort.Slice are stable sorts. A text is a list of code points, and ToLower changes ASCII letters
-- alone. The fixed version number of a plan is left out. A run of syncWallet takes one time for all its
-- events, and the lines that it prints are left out. The clock of a command stands still, and the
-- timeout of account wait-deposit and the stop signal of the daemon come after a number of polls. A
-- process that daemon stop ends is gone. What the commands send to the scanner
-- (UpsertWallet) and print as JSON is left out. The dispatch on command names, the balances
-- command that adds wallets, the lists of addresses and withdrawals, the interface of internal/keys
-- and the test harness are not modelled.
pub mod Base
pub mod Store
pub mod Txplan
pub mod Cli
pub mod Tests
