-- ===== src/Store/Exec.antt =====
-- A call on the store: it reads and writes the database, and returns a value or an error.
use juno_exchange_kit.Base.{◌≡◌, refl, arith, Bool, true, false, Option, none, some, if◌then◌else◌}
use juno_exchange_kit.Store.Schema.{Db}

-- The errors of internal/store, named after their messages; `no_rows` is sql.ErrNoRows, `unique` the
-- refusal of a row whose key is taken, and `derive_failed` what the key derivation returns.
pub data Error : Type 0 where
  account_id_required wallet_id_required wallet_params_required meta_key_required : Error
  recipient_address_required deposit_params_required : Error
  amount_not_positive negative_height invalid_deposit_status negative_cursor : Error
  account_not_found wallet_not_initialized invalid_wallet_index : Error
  derived_address_empty derive_failed invalid_account_mapping : Error
  negative_balance invalid_withdrawal_params invalid_amount_fee : Error
  amount_overflow insufficient_balance : Error
  invalid_random_len random_failed no_rows unique : Error
  negative_offset negative_min_balance invalid_row invalid_timestamp invalid_balances_sum : Error
  invalid_pending_summary sum_overflow invalid_index : Error

pub data Result {ℓ} (A : Type ℓ) : Type ℓ where
  ok : A → Result A
  err : Error → Result A

abbrev pub Exec : Type 0 → Type 0
Exec A = Db → Result A × Db

module _ {A : Type 0} where
  abbrev pub pure : A → Exec A
  pure a db = (ok a, db)

  abbrev pub raise : Error → Exec A
  raise e db = (err e, db)

  abbrev pub gets : (Db → A) → Exec A
  gets f db = (ok (f db), db)

  abbrev pub lift : Result A → Exec A
  lift r db = (r, db)

  abbrev pub or_raise : Option A → Error → Exec A
  or_raise none e = raise e
  or_raise (some a) e = pure a

  -- BeginTx, the deferred Rollback and Commit: an error leaves the database as it was.
  abbrev pub commit : Db → Result A × Db → Result A × Db
  commit db (ok a, db') = (ok a, db')
  commit db (err e, db') = (err e, db)

  unfoldable pub transaction : Exec A → Exec A
  transaction m db = commit db (m db)

-- What follows a call, on how it ended.
abbrev pub proceed : {A B : Type 0} → Result A × Db → (A → Exec B) → Result B × Db
proceed (ok a, db) f = f a db
proceed (err e, db) f = (err e, db)

infixl 5 ◌>>=◌ ◌>>◌
abbrev pub ◌>>=◌ : {A B : Type 0} → Exec A → (A → Exec B) → Exec B
◌>>=◌ m f db = proceed (m db) f

abbrev pub ◌>>◌ : {A B : Type 0} → Exec A → Exec B → Exec B
m >> k = m >>= λ _. k

abbrev pub raise_if : Bool → Error → Exec (Unit {0})
raise_if c e db = (if c then err e else ok tt, db)

abbrev pub modify : (Db → Db) → Exec (Unit {0})
modify f db = (ok tt, f db)

module _ {A B : Type 0} where
  pub proceed_ok :
      (r : Result A × Db) (f : A → Exec B) {b : B} {db' : Db}
      → proceed r f ≡ (ok b, db')
      → (a : A) × (db : Db) × (r ≡ (ok a, db)) × (f a db ≡ (ok b, db'))
  proceed_ok (ok a, db) f h = (a, db, refl, h)
  proceed_ok (err e, db) f h = absurd (ground arith)

  -- A sequence that returns has returned from both of its parts.
  pub >>=_ok :
      (m : Exec A) (f : A → Exec B) (db : Db) {b : B} {db' : Db}
      → (m >>= f) db ≡ (ok b, db')
      → (a : A) × (mid : Db) × (m db ≡ (ok a, mid)) × (f a mid ≡ (ok b, db'))
  >>=_ok m f db h = proceed_ok (m db) f h

module _ {A : Type 0} where
  commit_ok :
      (db : Db) (r : Result A × Db) {a : A} {db' : Db} → commit db r ≡ (ok a, db') → r ≡ (ok a, db')
  commit_ok db (ok b, d) h = h
  commit_ok db (err e, d) h = absurd (ground arith)

  pub transaction_ok :
      (m : Exec A) (db : Db) {a : A} {db' : Db}
      → transaction m db ≡ (ok a, db')
      → m db ≡ (ok a, db')
  unfolding transaction
  transaction_ok m db h = commit_ok db (m db) h

  commit_err :
      (db : Db) (r : Result A × Db) {e : Error} {db' : Db} → commit db r ≡ (err e, db') → db' ≡ db
  commit_err db (ok b, d) h = absurd (ground arith)
  commit_err db (err e, d) h = ground arith

  -- A transaction that fails has changed nothing.
  pub transaction_err :
      (m : Exec A) (db : Db) {e : Error} {db' : Db} → transaction m db ≡ (err e, db') → db' ≡ db
  unfolding transaction
  transaction_err m db h = commit_err db (m db) h

-- A guard that let the call go on has failed its test, and changed nothing.
pub raise_if_ok :
    (c : Bool) (e : Error) (db db' : Db) → raise_if c e db ≡ (ok tt, db') → (c ≡ false) × (db' ≡ db)
raise_if_ok c e db db' h = ground arith

module _ {A : Type 0} where
  commit_same : (db : Db) (r : Result A × Db) (a : A) → r.0 ≡ ok a → commit db r ≡ r
  commit_same db (ok b, d) a h = refl
  commit_same db (err e, d) a h = absurd (ground arith)

  -- A transaction whose body returns has the outcome of its body.
  pub transaction_same : (m : Exec A) (db : Db) (a : A) → (m db).0 ≡ ok a → transaction m db ≡ m db
  unfolding transaction
  transaction_same m db a h = commit_same db (m db) a h

  pub outcome_of_parts :
      (r : Result A × Db) (a : A) (db : Db) → r.0 ≡ ok a → r.1 ≡ db → r ≡ (ok a, db)
  outcome_of_parts r a db h k = λ i. (h i, k i)

-- A guard before a call that returns has let it go on.
pub raise_if_passed :
    {A : Type 0} (b : Bool) (e : Error) (k : Exec A) (db : Db) {a : A} {db' : Db}
    → (raise_if b e >> k) db ≡ (ok a, db')
    → (b ≡ false) × (k db ≡ (ok a, db'))
raise_if_passed true e k db h = absurd (ground arith)
raise_if_passed false e k db h = (refl, h)
