-- ===== src/Store/Ledger/Replay.antt =====
-- A deposit event that is delivered again changes no balance. The scanner's cursor is saved after a
-- whole run of events, so events are delivered again after every failure.
use juno_exchange_kit.Base.{
  ℕ, ◌≡◌, refl, subst, sym, ap, inl, inr, true, false, not, ◌&&◌, ◌||◌, Option, none, some, arith,
  Bool-cases, ◌∙◌, [],
}
use juno_exchange_kit.Base.Int.{ℤ, pos, ltb_ℤ}
use juno_exchange_kit.Base.Word.{IsInt64}
use juno_exchange_kit.Base.Text.{Text, is_empty, eq_text_refl, trim_space}
use juno_exchange_kit.Base.Table.{select_first, select_first-append, select_first-update_where}
use juno_exchange_kit.Store.Schema.{
  DepositStatus, AddressRow, DepositRow, Db, is_deposit, is_confirmed, is_known,
}
use juno_exchange_kit.Store.Exec.{
  raise_if_passed, Result, ok, transaction_same, outcome_of_parts, >>=_ok, transaction,
  transaction_ok,
}
use juno_exchange_kit.Store.Addresses.{
  eq_ℤ, mapped_account, account_for_diversifier_index, account_for_recipient_address,
}
use juno_exchange_kit.Store.Ledger.{IsConsistent}
use juno_exchange_kit.Store.Ledger.Rows.{null_if_empty-text}
use juno_exchange_kit.Store.Ledger.Lookups.{resolve_account_reads}
use juno_exchange_kit.Store.Ledger.Deposits.{
  found_row, chosen_account, chosen_account-trimmed, written_db, write_deposit-others,
  apply_deposit_tx_change,
}
use juno_exchange_kit.Store.Deposits.{
  Deposit, DepositApplyResult, kept_account, prev_account, prev_status, prev_amount, deposit_row,
  updated_row, write_deposit, balance_deltas, apply_deltas, apply_deposit_tx, apply_trimmed,
  apply_deposit, resolve_account, trim_deposit,
}

is_deposit_self :
    (w t : Text) (i : ℕ) (r : DepositRow)
    → r.wallet_id ≡ w
    → r.txid ≡ t
    → r.action_index ≡ i
    → is_deposit w t i r ≡ true
unfolding is_deposit
is_deposit_self w t i r a b c = rw (a, b, c) (rw (eq_text_refl w, eq_text_refl t) (ground arith))

-- Where nothing changes, the switch gives no delta.
balance_deltas_same : (s : DepositStatus) (x : Text) (v : ℤ) → balance_deltas s x v s x v ≡ []
unfolding balance_deltas eq_ℤ
balance_deltas_same s x v = elim (Bool-cases (is_confirmed s)) [
  | inl e ↦ rw e (rw (eq_text_refl x) (ground arith))
  | inr e ↦ rw e
]

kept_account_again :
    (recipient prev found : Text)
    → kept_account recipient (kept_account recipient prev found) found
      ≡ kept_account recipient prev found
unfolding kept_account
kept_account_again recipient prev found =
    elim (Bool-cases (is_empty recipient && not (is_empty prev))) [
      | inl e ↦ rw e (rw e)
      | inr e ↦ rw e (elim (Bool-cases (is_empty recipient && not (is_empty found))) [
        | inl f ↦ rw f
        | inr f ↦ rw f
      ])
    ]

-- The row that a deposit has written, as the next call finds it.
module _ (d : Deposit) (x : Text) (now : ℤ) where
  written_row : (prev : Option DepositRow) → DepositRow
  written_row none = deposit_row d x now
  written_row (some r) = updated_row d x now r

  select-write_deposit :
      (prev : Option DepositRow) (db : Db)
      → select_first (is_deposit d.wallet_id d.txid d.action_index) db.deposits ≡ prev
      → select_first
          (is_deposit d.wallet_id d.txid d.action_index)
          (write_deposit d x now prev db).deposits
        ≡ some (written_row prev)
  unfolding write_deposit written_row
  select-write_deposit none db h =
      select_first-append (is_deposit d.wallet_id d.txid d.action_index) (deposit_row d x now)
        db.deposits h
        (is_deposit_self d.wallet_id d.txid d.action_index (deposit_row d x now)
          (unfold deposit_row in refl) (unfold deposit_row in refl) (unfold deposit_row in refl))
  select-write_deposit (some r) db h =
      select_first-update_where (is_deposit d.wallet_id d.txid d.action_index) (updated_row d x now)
        r db.deposits h (λ y. unfold is_deposit updated_row in refl)

  -- Found again, the row has the status, the account and the amount of the deposit.
  written_row-prev :
      (prev : Option DepositRow)
      → trim_space x ≡ x
      → (prev_status (some (written_row prev)) ≡ d.status)
        × (prev_account (some (written_row prev)) ≡ x)
        × (prev_amount (some (written_row prev)) ≡ d.amount_zat)
  unfolding written_row prev_account deposit_row updated_row
  written_row-prev none t = (refl, rw (null_if_empty-text x) (rw t t), refl)
  written_row-prev (some r) t = (refl, rw (null_if_empty-text x) (rw t t), refl)

-- The lookups see the addresses alone.
mapped_account_anywhere :
    (o : Option AddressRow) (db db' : Db) → (mapped_account o db').0 ≡ (mapped_account o db).0
unfolding mapped_account
mapped_account_anywhere o db db' = ground arith

resolve_account_again :
    (d : Deposit) (db db' : Db)
    → db'.addresses ≡ db.addresses
    → (resolve_account d db').0 ≡ (resolve_account d db).0
unfolding resolve_account account_for_diversifier_index account_for_recipient_address mapped_account
resolve_account_again d db db' h = ground arith

-- A call that finds its own row applies no delta.
apply_deposit_tx_same :
    (d : Deposit) (found x : Text) (now : ℤ) (r : DepositRow) (db : Db)
    → select_first (is_deposit d.wallet_id d.txid d.action_index) db.deposits ≡ some r
    → r.status ≡ d.status
    → prev_account (some r) ≡ x
    → r.amount_zat ≡ d.amount_zat
    → kept_account d.recipient_address x found ≡ x
    → apply_deposit_tx d found now db
      ≡ (ok (record { account_id = x; delta_zat = pos 0 }), write_deposit d x now (some r) db)
unfolding apply_deposit_tx
apply_deposit_tx_same d found x now r db h hs ha hv hk = rw h (
    rw ha (
      rw hk (
        rw hs (
          rw hv (rw (balance_deltas_same d.status x d.amount_zat) (unfold apply_deltas in refl))))))

write_deposit-balances :
    (d : Deposit) (x : Text) (now : ℤ) (r : DepositRow) (db : Db)
    → (write_deposit d x now (some r) db).balances ≡ db.balances
unfolding write_deposit
write_deposit-balances d x now r db = refl

written_db-located :
    (d : Deposit) (found : Text) (now : ℤ) (db : Db)
    → select_first
        (is_deposit d.wallet_id d.txid d.action_index)
        (written_db d now found db).deposits
      ≡ some (written_row d (chosen_account d found db) now (found_row d db))
unfolding written_db
written_db-located d found now db =
    select-write_deposit d (chosen_account d found db) now (found_row d db) db refl

abbrev pub NothingMore : Db → DepositApplyResult → Result DepositApplyResult × Db → Type 0
NothingMore db res r =
    (r.0 ≡ ok (record { account_id = res.account_id; delta_zat = pos 0 }))
    × (r.1.balances ≡ db.balances)

apply_deposit_tx_again :
    (d : Deposit) (found : Text) (now now' : ℤ) (db db' : Db) (res : DepositApplyResult)
    → IsInt64 d.amount_zat
    → trim_space found ≡ found
    → IsConsistent db
    → apply_deposit_tx d found now db ≡ (ok res, db')
    → NothingMore db' res (apply_deposit_tx d found now' db')
apply_deposit_tx_again d found now now' db db' res fits trimmed c h =
    let prev = found_row d db in
    let x = chosen_account d found db in
    let (change, account) = apply_deposit_tx_change d now found db trimmed c db' res fits h in
    let (hs, ha, hv) =
      written_row-prev d x now prev (chosen_account-trimmed d now found db trimmed c) in
    let row = written_row d x now prev in
    let same_deposits = ap (λ (s : Db). s.deposits) change.others in
    let located : select_first (is_deposit d.wallet_id d.txid d.action_index) db'.deposits
        ≡ some row =
      ap (select_first (is_deposit d.wallet_id d.txid d.action_index)) same_deposits
      ∙ written_db-located d found now db in
    let result =
      apply_deposit_tx_same d found x now' row db' located hs ha hv
        (kept_account_again d.recipient_address (prev_account prev) found) in
    rw (result, account) (refl, write_deposit-balances d x now' row db')

-- The guards of `ApplyDeposit`, as one call sees them.
abbrev PassesGuards : Deposit → Type 0
PassesGuards d =
    ((is_empty d.wallet_id || is_empty d.txid) ≡ false)
    × (not (ltb_ℤ (pos 0) d.amount_zat) ≡ false)
    × (ltb_ℤ d.height (pos 0) ≡ false)
    × (not (is_known d.status) ≡ false)

module _ (d : Deposit) (now : ℤ) where
  apply_trimmed_ok :
      (db db' : Db) (res : DepositApplyResult)
      → apply_trimmed d now db ≡ (ok res, db')
      → PassesGuards d
        × ((found : Text) × (resolve_account d db ≡ (ok found, db))
            × (apply_deposit_tx d found now db ≡ (ok res, db')))
  unfolding apply_trimmed
  apply_trimmed_ok db db' res h =
      let (g, h') = raise_if_passed (is_empty d.wallet_id || is_empty d.txid) _ _ db h in
      let (g', h'') = raise_if_passed (not (ltb_ℤ (pos 0) d.amount_zat)) _ _ db h' in
      let (g'', h3) = raise_if_passed (ltb_ℤ d.height (pos 0)) _ _ db h'' in
      let (g3, h4) = raise_if_passed (not (is_known d.status)) _ _ db h3 in
      let (found, mid, resolved, rest) =
        >>=_ok (resolve_account d) (λ f. transaction (apply_deposit_tx d f now)) db h4 in
      let same : mid ≡ db =
        sym (ap (λ (r : Result Text × Db). r.1) resolved) ∙ (resolve_account_reads d db).0 in
      let rest' =
        subst (λ m. transaction (apply_deposit_tx d found now) m ≡ (ok res, db')) same rest in
      (
        (g, g', g'', g3),
        (
          found,
          subst (λ m. resolve_account d db ≡ (ok found, m)) same resolved,
          transaction_ok (apply_deposit_tx d found now) db rest',
        ),
      )

  apply_trimmed_runs :
      (found : Text) (db : Db)
      → PassesGuards d
      → resolve_account d db ≡ (ok found, db)
      → apply_trimmed d now db ≡ transaction (apply_deposit_tx d found now) db
  unfolding apply_trimmed
  apply_trimmed_runs found db (a, b, c, e) h = rw a (rw b (rw c (rw e (rw h))))

written_db-addresses :
    (d : Deposit) (now : ℤ) (found : Text) (db : Db)
    → (written_db d now found db).addresses ≡ db.addresses
unfolding written_db
written_db-addresses d now found db =
    (write_deposit-others d now (chosen_account d found db) (found_row d db) db).2

apply_trimmed_again :
    (d : Deposit) (now now' : ℤ) (db db' : Db) (res : DepositApplyResult)
    → IsInt64 d.amount_zat
    → IsConsistent db
    → apply_trimmed d now db ≡ (ok res, db')
    → NothingMore db' res (apply_trimmed d now' db')
apply_trimmed_again d now now' db db' res fits c h =
    let (guards, (found, resolved, tx)) = apply_trimmed_ok d now db db' res h in
    let trimmed =
      (resolve_account_reads d db).1 found (ap (λ (r : Result Text × Db). r.0) resolved) in
    let (change, _) = apply_deposit_tx_change d now found db trimmed c db' res fits tx in
    let addresses =
      ap (λ (s : Db). s.addresses) change.others ∙ written_db-addresses d now found db in
    let resolved' =
      outcome_of_parts (resolve_account d db') found db'
        (resolve_account_again d db db' addresses ∙ ap (λ (r : Result Text × Db). r.0) resolved)
        (resolve_account_reads d db').0 in
    let again = apply_deposit_tx_again d found now now' db db' res fits trimmed c tx in
    let runs =
      apply_trimmed_runs d now' found db' guards resolved'
      ∙ transaction_same (apply_deposit_tx d found now') db' _ again.0 in
    subst (NothingMore db' res) (sym runs) again

-- A deposit event of an int64 amount that was applied to a store whose books are right is delivered
-- once more, before any other call and at any time: the call succeeds with the same account, reports a
-- delta of 0 and changes no balance.
pub apply_deposit_again :
    (d : Deposit) (now now' : ℤ) (db db' : Db) (res : DepositApplyResult)
    → IsInt64 d.amount_zat
    → IsConsistent db
    → apply_deposit d now db ≡ (ok res, db')
    → NothingMore db' res (apply_deposit d now' db')
unfolding apply_deposit
apply_deposit_again d now now' db db' res fits c h =
    apply_trimmed_again (trim_deposit d) now now' db db' res fits c h
