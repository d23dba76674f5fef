-- ===== src/Store/Assigned.antt =====
-- A deposit address that was handed out stays with its account.
use juno_exchange_kit.Base.{
  ℕ, ◌≡◌, refl, subst, sym, ap, ◌∙◌, true, Option, none, some, [], ◌∷◌, ◌++◌, arith, Option-cases,
  inl, inr,
}
use juno_exchange_kit.Base.Int.{ℤ, pos, ◌+ℤ◌}
use juno_exchange_kit.Base.Text.{Text, is_empty, eq_text_refl, trim_space}
use juno_exchange_kit.Base.Table.{select_first, select_first-append}
use juno_exchange_kit.Store.Schema.{AddressRow, Db, is_account, is_wallet}
use juno_exchange_kit.Store.Exec.{
  Error, ok, pure, raise_if_passed, transaction, transaction_ok, >>=_ok, ◌>>◌, account_id_required,
  wallet_id_required, or_raise, modify, account_not_found, wallet_not_initialized,
  invalid_wallet_index,
}
use juno_exchange_kit.Store.Wallets.{bad_index, derived}
use juno_exchange_kit.Store.Addresses.{
  external, is_address, insert_address, set_external_index, assign_tx,
  get_or_assign_deposit_address,
}

abbrev address_row : Text → Text → ℤ → Text → ℤ → AddressRow
address_row a w i x now = record {
  account_id = a;
  wallet_id = w;
  scope = external;
  address_index = i;
  address = x;
  created_at = now;
}

or_raise-reads :
    {A : Type 0} (o : Option A) (e : Error) {a : A} {db d : Db}
    → or_raise o e db ≡ (ok a, d)
    → d ≡ db
or_raise-reads none e h = absurd (ground arith)
or_raise-reads (some b) e h = ground arith

derived_same :
    (derive : ℕ → Option Text) (i : ℤ) {x : Text} {db d : Db}
    → derived derive i db ≡ (ok x, d)
    → d ≡ db
unfolding derived
derived_same derive i h = ground arith

insert_address-adds :
    (r : AddressRow) (db db' : Db) (u : Unit {0})
    → insert_address r db ≡ (ok u, db')
    → db'.addresses ≡ db.addresses ++ r ∷ []
unfolding insert_address
insert_address-adds r db db' u h = ground arith

module _ (a w : Text) (derive : ℕ → Option Text) (now : ℤ) where
  finished :
      (next : ℤ) (addr x : Text) (db db' : Db)
      → (modify (set_external_index w next) >> pure addr) db ≡ (ok x, db')
      → (addr ≡ x) × (db'.addresses ≡ db.addresses)
  unfolding set_external_index
  finished next addr x db db' h = (ground arith, ground arith)

  assign_tx-adds :
      (db db' : Db) (x : Text)
      → assign_tx a w derive now db ≡ (ok x, db')
      → (i : ℤ) × (db'.addresses ≡ db.addresses ++ address_row a w i x now ∷ [])
  unfolding assign_tx
  assign_tx-adds db db' x h =
      let (acc, d1, acc_is, h1) =
        >>=_ok (or_raise (select_first (is_account a) db.accounts) account_not_found) _ db h in
      let (row, d2, row_is, h2) =
        >>=_ok (or_raise (select_first (is_wallet w) d1.wallets) wallet_not_initialized) _ d1 h1 in
      let (_, h3) =
        raise_if_passed (bad_index row.next_external_index) invalid_wallet_index _ d2 h2 in
      let (addr, d3, addr_is, h4) = >>=_ok (derived derive row.next_external_index) _ d2 h3 in
      let (u, d4, ins, h5) =
        >>=_ok (insert_address (address_row a w row.next_external_index addr now)) _ d3 h4 in
      let e1 : d1 ≡ db =
        or_raise-reads (select_first (is_account a) db.accounts) account_not_found acc_is in
      let e2 : d2 ≡ d1 =
        or_raise-reads (select_first (is_wallet w) d1.wallets) wallet_not_initialized row_is in
      let e3 : d3 ≡ d2 = derived_same derive row.next_external_index addr_is in
      let same = ap (λ (s : Db). s.addresses) (e3 ∙ (e2 ∙ e1)) in
      let (addr_x, written) = finished (row.next_external_index +ℤ pos 1) addr x d4 db' h5 in
      let added =
        insert_address-adds (address_row a w row.next_external_index addr now) d3 d4 u ins in
      (
        row.next_external_index,
        subst
            (λ y.
              db'.addresses ≡ db.addresses ++ address_row a w row.next_external_index y now ∷ [])
            addr_x
            (written
              ∙ (added
                  ∙ ap (λ l. l ++ address_row a w row.next_external_index addr now ∷ []) same)),
      )

is_address_self :
    (a w : Text) (i : ℤ) (x : Text) (now : ℤ)
    → is_address a w external (address_row a w i x now) ≡ true
unfolding is_address
is_address_self a w i x now = rw (eq_text_refl a) (rw (eq_text_refl w) (eq_text_refl external))

-- An address that was handed out to an account stays: asked again by the next call, at any time and
-- whatever the derivation would give then, the store returns the same address and changes nothing.
pub get_or_assign_deposit_address_again :
    (account_id wallet_id : Text) (derive derive' : ℕ → Option Text) (now now' : ℤ) (db db' : Db)
    (x : Text)
    → get_or_assign_deposit_address account_id wallet_id derive now db ≡ (ok x, db')
    → get_or_assign_deposit_address account_id wallet_id derive' now' db' ≡ (ok x, db')
unfolding get_or_assign_deposit_address
get_or_assign_deposit_address_again account_id wallet_id derive derive' now now' db db' x h =
    let a = trim_space account_id in
    let w = trim_space wallet_id in
    let (e1, h1) = raise_if_passed (is_empty a) account_id_required _ db h in
    let (e2, h2) = raise_if_passed (is_empty w) wallet_id_required _ db h1 in
    elim (Option-cases (select_first (is_address a w external) db.addresses)) [
      | inl e ↦
          let assigned : transaction (assign_tx a w derive now) db ≡ (ok x, db') = ground arith in
          let (i, added) =
            assign_tx-adds a w derive now db db' x
              (transaction_ok (assign_tx a w derive now) db assigned) in
          let found : select_first (is_address a w external) db'.addresses
              ≡ some (address_row a w i x now) =
            ap (select_first (is_address a w external)) added
            ∙ select_first-append (is_address a w external) (address_row a w i x now) db.addresses e
                (is_address_self a w i x now) in
          rw (e1, e2, found) refl
      | inr (r, e) ↦
          let same : db ≡ db' = ground arith in
          let addr : r.address ≡ x = ground arith in
          let found : select_first (is_address a w external) db'.addresses ≡ some r =
            ap (λ (s : Db). select_first (is_address a w external) s.addresses) (sym same) ∙ e in
          rw (e1, e2, found, addr) refl
    ]
