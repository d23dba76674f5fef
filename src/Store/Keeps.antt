-- ===== src/Store/Keeps.antt =====
-- Rules for what holds of the database after a call, whether it returns or fails.
use juno_exchange_kit.Base.{◌≡◌, refl, sym, subst, ap, Bool, true, false, Option, none, some}
use juno_exchange_kit.Store.Schema.{Db}
use juno_exchange_kit.Store.Exec.{
  Error, Result, ok, err, Exec, ◌>>=◌, ◌>>◌, proceed, commit, raise_if, or_raise, transaction,
}

-- `m` keeps `P` at `db`.
abbrev pub Keeps : {A : Type 0} → (Db → Type 0) → Exec A → Db → Type 0
Keeps P m db = P (m db).1

module _ (P : Db → Type 0) where
  pub Keeps-raise_if :
      {A : Type 0} (c : Bool) (e : Error) (k : Exec A) (db : Db)
      → P db
      → (c ≡ false → Keeps P k db)
      → Keeps P (raise_if c e >> k) db
  Keeps-raise_if true e k db p h = p
  Keeps-raise_if false e k db p h = h refl

  pub Keeps-or_raise :
      {A B : Type 0} (o : Option A) (e : Error) (f : A → Exec B) (db : Db)
      → P db
      → ((a : A) → o ≡ some a → Keeps P (f a) db)
      → Keeps P (or_raise o e >>= f) db
  Keeps-or_raise none e f db p h = p
  Keeps-or_raise (some a) e f db p h = h a refl

  Keeps-proceed :
      {A B : Type 0} (r : Result A × Db) (f : A → Exec B) (db : Db)
      → P db
      → r.1 ≡ db
      → ((a : A) → r ≡ (ok a, db) → Keeps P (f a) db)
      → P (proceed r f).1
  Keeps-proceed (ok a, d) f db p e h =
      subst (λ x. P (f a x).1) (sym e) (h a (ap (λ x. (ok a, x)) e))
  Keeps-proceed (err x, d) f db p e h = subst P (sym e) p

  -- A call that only reads, and what follows it.
  pub Keeps-read :
      {A B : Type 0} (m : Exec A) (f : A → Exec B) (db : Db)
      → P db
      → (m db).1 ≡ db
      → ((a : A) → m db ≡ (ok a, db) → Keeps P (f a) db)
      → Keeps P (m >>= f) db
  Keeps-read m f db p e h = Keeps-proceed (m db) f db p e h

  Keeps-proceed_any :
      {A B : Type 0} (r : Result A × Db) (f : A → Exec B)
      → P r.1
      → ((a : A) (mid : Db) → P mid → Keeps P (f a) mid)
      → P (proceed r f).1
  Keeps-proceed_any (ok a, d) f p h = h a d p
  Keeps-proceed_any (err x, d) f p h = p

  -- A sequence keeps what both parts keep.
  pub Keeps-bind :
      {A B : Type 0} (m : Exec A) (f : A → Exec B) (db : Db)
      → Keeps P m db
      → ((a : A) (mid : Db) → P mid → Keeps P (f a) mid)
      → Keeps P (m >>= f) db
  Keeps-bind m f db p h = Keeps-proceed_any (m db) f p h

  Keeps-commit :
      {A : Type 0} (r : Result A × Db) (db : Db)
      → P db
      → ((a : A) (db' : Db) → r ≡ (ok a, db') → P db')
      → P (commit db r).1
  Keeps-commit (ok a, d) db p h = h a d refl
  Keeps-commit (err e, d) db p h = p

  -- A transaction keeps what its body keeps when it returns.
  pub Keeps-transaction :
      {A : Type 0} (m : Exec A) (db : Db)
      → P db
      → ((a : A) (db' : Db) → m db ≡ (ok a, db') → P db')
      → Keeps P (transaction m) db
  unfolding transaction
  Keeps-transaction m db p h = Keeps-commit (m db) db p h

  -- A transaction keeps what its body keeps.
  pub Keeps-transaction_body :
      {A : Type 0} (m : Exec A) (db : Db) → P db → Keeps P m db → Keeps P (transaction m) db
  Keeps-transaction_body {A} m db p h =
      Keeps-transaction m db p λ a db' e. subst P (ap (λ (r : Result A × Db). r.1) e) h
