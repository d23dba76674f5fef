-- ===== src/Store/Ledger/Lookups.antt =====
-- The lookups of a deposit's account only read, and give a trimmed account.
use juno_exchange_kit.Base.{ℕ, ◌≡◌, refl, subst, inl, inr, Option, none, some, arith, Bool-cases}
use juno_exchange_kit.Base.Text.{
  Text, is_empty, trim_space, trim_space_idem, trim_space-nil, to_lower,
}
use juno_exchange_kit.Store.Schema.{AddressRow, Db}
use juno_exchange_kit.Store.Exec.{Result, ok, err, proceed, pure}
use juno_exchange_kit.Store.Addresses.{
  mapped_account, account_for_diversifier_index, account_for_recipient_address,
}
use juno_exchange_kit.Store.Deposits.{Deposit, text_or_empty, resolve_account}

abbrev IsTrimmed : Text → Type 0
IsTrimmed s = trim_space s ≡ s

-- A lookup that changes nothing, and whose answer is trimmed.
abbrev pub Reads : Db → Result (Option Text) × Db → Type 0
Reads db r = (r.1 ≡ db) × ((a : Option Text) → r.0 ≡ ok a → IsTrimmed (text_or_empty a))

mapped_account-Reads : (o : Option AddressRow) (db : Db) → Reads db (mapped_account o db)
unfolding mapped_account
mapped_account-Reads none db = (
  refl,
  λ a h.
      let e : none ≡ a = ground arith in subst (λ o. IsTrimmed (text_or_empty o)) e trim_space-nil,
)
mapped_account-Reads (some r) db = elim (Bool-cases (is_empty (trim_space r.account_id))) [
  | inl e ↦ rw e (refl, λ a h. absurd (ground arith))
  | inr e ↦ rw e (
    refl,
    λ a h.
        let f : some (trim_space r.account_id) ≡ a = ground arith in
        subst (λ o. IsTrimmed (text_or_empty o)) f (trim_space_idem r.account_id),
  )
]

by_index-Reads : (w : Text) (i : ℕ) (db : Db) → Reads db (account_for_diversifier_index w i db)
unfolding account_for_diversifier_index
by_index-Reads w i db = elim (Bool-cases (is_empty (trim_space w))) [
  | inl e ↦ rw e (refl, λ a h. absurd (ground arith))
  | inr e ↦ rw e (mapped_account-Reads _ db)
]

by_recipient-Reads : (w x : Text) (db : Db) → Reads db (account_for_recipient_address w x db)
unfolding account_for_recipient_address
by_recipient-Reads w x db = elim (Bool-cases (is_empty (trim_space w))) [
  | inl e ↦ rw e (refl, λ a h. absurd (ground arith))
  | inr e ↦ elim (Bool-cases (is_empty (to_lower (trim_space x)))) [
    | inl f ↦ rw (e, f) (refl, λ a h. absurd (ground arith))
    | inr f ↦ rw (e, f) (mapped_account-Reads _ db)
  ]
]

-- What a resolved account is: the database is left alone, and the account is trimmed.
resolved :
    (r : Result (Option Text) × Db) (db : Db)
    → Reads db r
    → ((proceed r (λ found. pure (text_or_empty found))).1 ≡ db)
      × ((a : Text) → (proceed r (λ found. pure (text_or_empty found))).0 ≡ ok a → IsTrimmed a)
resolved (ok o, d) db h =
    (h.0, λ a k. let e : text_or_empty o ≡ a = ground arith in subst IsTrimmed e (h.1 o refl))
resolved (err x, d) db h = (h.0, λ a k. absurd (ground arith))

pub resolve_account_reads :
    (d : Deposit) (db : Db)
    → ((resolve_account d db).1 ≡ db) × ((a : Text) → (resolve_account d db).0 ≡ ok a → IsTrimmed a)
unfolding resolve_account
resolve_account_reads d db = elim (Bool-cases (is_empty d.recipient_address)) [
  | inl e ↦ rw e (resolved _ db (by_index-Reads d.wallet_id d.diversifier_index db))
  | inr e ↦ rw e (resolved _ db (by_recipient-Reads d.wallet_id d.recipient_address db))
]
