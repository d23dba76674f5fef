-- ===== src/Cli/Command.antt =====
-- How a command of internal/cli runs: on the database and on what the broadcaster has accepted. It
-- returns what it reports, or stops with a failure (`writeErr` and the exit status of internal/cli/cli.go).
use juno_exchange_kit.Base.{
  ℕ, ◌≡◌, refl, subst, ap, arith, Bool, true, false, Option, none, some, List,
}
use juno_exchange_kit.Base.Int.{ℤ}
use juno_exchange_kit.Base.Text.{Text}
use juno_exchange_kit.Store.Schema.{Db}
use juno_exchange_kit.Store.Exec.{Error, Result, ok, err, Exec}
use juno_exchange_kit.Txplan.Outcome.{PlanError}
use juno_exchange_kit.Cli.Sync.{SyncError}

pub record World : Type 0 where
  pub db : Db
  -- The raw transactions that the broadcaster has accepted, in order.
  pub submitted : List Text
  -- The files that the commands read and write, by path.
  pub files : List (Text × Text)

-- Where `signTxPlan` stops.
pub data SignError : Type 0 where
  bin_required seed_path_required process_failed invalid_json invalid_response : SignError
  refused : Text → SignError

-- The failures of the commands, named after their messages; `usage` is the exit status 2. An error of
-- the store is kept as it is, without the code that a command reports it under.
pub data Failure : Type 0 where
  usage arguments_required amount_not_positive amount_too_large no_data_dir io_failed : Failure
  not_initialized coin_type_missing invalid_coin_type hot_wallet_missing cold_wallet_missing :
      Failure
  rpc_url_required rpc_login_required scan_url_required broadcast_url_required : Failure
  invalid_service_url missing_config no_liquidity_in_hot amount_overflow : Failure
  invalid_signer_fee broadcast_failed confirm_wait_failed : Failure
  node_rpc_failed unknown_chain keys_failed other_ua_hrp other_coin_type : Failure
  sync_failed : SyncError → Failure
  store_failed : Error → Failure
  plan_failed : PlanError → Failure
  sign_failed : SignError → Failure
  sweep_plan_failed : PlanError → Failure
  -- The details: the balance and the amount that was asked for; then the fee and the largest amount as well.
  insufficient_balance : ℤ → ℤ → Failure
  insufficient_for_fee : ℤ → ℤ → ℤ → ℤ → Failure
  -- The amount that was asked for, the largest, the spendable sum and its number of notes.
  no_liquidity_in_cold : ℤ → ℤ → ℤ → ℕ → Failure
  account_id_missing timeout_not_positive poll_not_positive negative_lookback deposit_timeout :
      Failure
  min_balance_not_integer min_balance_too_large account_missing unexpected_argument : Failure
  bad_pid_file already_running process_unknown : Failure
  amount_required txplan_required invalid_txplan raw_required source_conflict : Failure

pub data Ended (A : Type 0) : Type 0 where
  returned : A → Ended A
  exited : Failure → Ended A

abbrev pub Cmd : Type 0 → Type 0
Cmd A = World → Ended A × World

abbrev pub proceed : {A B : Type 0} → Ended A × World → (A → Cmd B) → Ended B × World
proceed (returned a, w) f = f a w
proceed (exited e, w) f = (exited e, w)

infixl 5 ◌>>=◌ ◌>>◌
abbrev pub ◌>>=◌ : {A B : Type 0} → Cmd A → (A → Cmd B) → Cmd B
◌>>=◌ m f w = proceed (m w) f

abbrev pub ◌>>◌ : {A B : Type 0} → Cmd A → Cmd B → Cmd B
m >> k = m >>= λ _. k

abbrev pub report : {A : Type 0} → A → Cmd A
report a w = (returned a, w)

abbrev pub exit_if : Bool → Failure → Cmd (Unit {0})
exit_if true e w = (exited e, w)
exit_if false e w = (returned tt, w)

abbrev pub or_exit : {A : Type 0} → Option A → Failure → Cmd A
or_exit none e w = (exited e, w)
or_exit (some a) e w = (returned a, w)

-- A value that is computed without the world.
abbrev pub settle : {A : Type 0} → Ended A → Cmd A
settle r w = (r, w)

abbrev pub store_ended : {A : Type 0} → Result A × Db → World → Ended A × World
store_ended (ok a, db) w = (returned a, record w { db = db })
store_ended (err e, db) w = (exited (store_failed e), record w { db = db })

-- A call of the store, whose error the command reports.
abbrev pub from_store : {A : Type 0} → Exec A → Cmd A
from_store m w = store_ended (m w.db) w

-- A call of the store whose error the command drops.
abbrev pub try_store : {A : Type 0} → Exec A → Cmd (Unit {0})
try_store m w = (returned tt, record w { db = (m w.db).1 })

module _ {A B : Type 0} where
  proceed_returned :
      (r : Ended A × World) (f : A → Cmd B) {b : B} {w' : World}
      → proceed r f ≡ (returned b, w')
      → (a : A) × (mid : World) × (r ≡ (returned a, mid)) × (f a mid ≡ (returned b, w'))
  proceed_returned (returned a, mid) f h = (a, mid, refl, h)
  proceed_returned (exited e, mid) f h = absurd (ground arith)

  -- A sequence that returns has returned from both of its parts.
  pub >>=_returned :
      (m : Cmd A) (f : A → Cmd B) (w : World) {b : B} {w' : World}
      → (m >>= f) w ≡ (returned b, w')
      → (a : A) × (mid : World) × (m w ≡ (returned a, mid)) × (f a mid ≡ (returned b, w'))
  >>=_returned m f w h = proceed_returned (m w) f h

module _ {B : Type 0} where
  pub exit_if_passed :
      (c : Bool) (e : Failure) (k : Cmd B) (w : World) {b : B} {w' : World}
      → (exit_if c e >> k) w ≡ (returned b, w')
      → (c ≡ false) × (k w ≡ (returned b, w'))
  exit_if_passed true e k w h = absurd (ground arith)
  exit_if_passed false e k w h = (refl, h)

  pub or_exit_passed :
      {A : Type 0} (o : Option A) (e : Failure) (k : A → Cmd B) (w : World) {b : B} {w' : World}
      → (or_exit o e >>= k) w ≡ (returned b, w')
      → (a : A) × (o ≡ some a) × (k a w ≡ (returned b, w'))
  or_exit_passed none e k w h = absurd (ground arith)
  or_exit_passed (some a) e k w h = (a, refl, h)

-- What holds of the world after a command, whether it returns or stops.
abbrev pub After : {A : Type 0} → (World → Type 0) → Cmd A → World → Type 0
After P m w = P (m w).1

module _ (P : World → Type 0) where
  pub After-exit_if :
      {A : Type 0} (c : Bool) (e : Failure) (k : Cmd A) (w : World)
      → P w
      → (c ≡ false → After P k w)
      → After P (exit_if c e >> k) w
  After-exit_if true e k w p h = p
  After-exit_if false e k w p h = h refl

  pub After-or_exit :
      {A B : Type 0} (o : Option A) (e : Failure) (f : A → Cmd B) (w : World)
      → P w
      → ((a : A) → o ≡ some a → After P (f a) w)
      → After P (or_exit o e >>= f) w
  After-or_exit none e f w p h = p
  After-or_exit (some a) e f w p h = h a refl

  pub After-settle :
      {A B : Type 0} (r : Ended A) (f : A → Cmd B) (w : World)
      → P w
      → ((a : A) → r ≡ returned a → After P (f a) w)
      → After P (settle r >>= f) w
  After-settle (returned a) f w p h = h a refl
  After-settle (exited e) f w p h = p

  pub After-or_exit_last :
      {A : Type 0} (o : Option A) (e : Failure) (w : World) → P w → After P (or_exit o e) w
  After-or_exit_last none e w p = p
  After-or_exit_last (some a) e w p = p

  After-proceed :
      {A B : Type 0} (r : Ended A × World) (f : A → Cmd B)
      → P r.1
      → ((a : A) (mid : World) → r ≡ (returned a, mid) → P mid → P (f a mid).1)
      → P (proceed r f).1
  After-proceed (returned a, mid) f p h = h a mid refl p
  After-proceed (exited e, mid) f p h = p

  pub After-bind :
      {A B : Type 0} (m : Cmd A) (f : A → Cmd B) (w : World)
      → After P m w
      → ((a : A) (mid : World) → m w ≡ (returned a, mid) → P mid → After P (f a) mid)
      → After P (m >>= f) w
  After-bind m f w p h = After-proceed (m w) f p h

  store_ended-After :
      {A : Type 0} (r : Result A × Db) (w : World)
      → P (record w { db = r.1 })
      → P (store_ended r w).1
  store_ended-After (ok a, db) w p = p
  store_ended-After (err e, db) w p = p

  pub After-from_store :
      {A : Type 0} (m : Exec A) (w : World)
      → P (record w { db = (m w.db).1 })
      → After P (from_store m) w
  After-from_store m w p = store_ended-After (m w.db) w p

pub returned_inj :
    {A : Type 0} {a b : A} {u v : World}
    → ◌≡◌ {A = Ended A × World} (returned a, u) (returned b, v)
    → (a ≡ b) × (u ≡ v)
returned_inj h = (ground arith, ground arith)

-- A call that is known to return has left what holds after it.
pub After-returned :
    {A : Type 0} (P : World → Type 0) (m : Cmd A) (w : World) {a : A} {mid : World}
    → After P m w
    → m w ≡ (returned a, mid)
    → P mid
After-returned {A} P m w p e = subst P (ap (λ (r : Ended A × World). r.1) e) p

-- A rule for two stages: the first keeps `Q`, which implies `P`.
After-stages :
    {A B : Type 0} (Q P : World → Type 0) (r : Ended A × World) (f : A → Cmd B)
    → Q r.1
    → ((v : World) → Q v → P v)
    → ((a : A) (mid : World) → r ≡ (returned a, mid) → Q mid → P (f a mid).1)
    → P (proceed r f).1
After-stages Q P (returned a, mid) f q le h = h a mid refl q
After-stages Q P (exited e, mid) f q le h = le mid q

pub After-then :
    {A B : Type 0} (Q P : World → Type 0) (m : Cmd A) (f : A → Cmd B) (w : World)
    → After Q m w
    → ((v : World) → Q v → P v)
    → ((a : A) (mid : World) → m w ≡ (returned a, mid) → Q mid → After P (f a) mid)
    → After P (m >>= f) w
After-then Q P m f w q le h = After-stages Q P (m w) f q le h

store_ended_returned :
    {A : Type 0} (r : Result A × Db) (w : World) {a : A} {w' : World}
    → store_ended r w ≡ (returned a, w')
    → (db : Db) × (r ≡ (ok a, db)) × (w' ≡ record w { db = db })
store_ended_returned (ok b, db) w h = (db, ground arith, ground arith)
store_ended_returned (err e, db) w h = absurd (ground arith)

pub from_store_returned :
    {A : Type 0} (m : Exec A) (w : World) {a : A} {w' : World}
    → from_store m w ≡ (returned a, w')
    → (db : Db) × (m w.db ≡ (ok a, db)) × (w' ≡ record w { db = db })
from_store_returned m w h = store_ended_returned (m w.db) w h
