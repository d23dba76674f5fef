-- ===== src/Store/Ledger/Pending.antt =====
-- What `PendingDepositsSummary` counts.
use juno_exchange_kit.Base.{
  ◌≡◌, ◌⊎◌, refl, ap, ◌∙◌, inl, inr, true, Option, none, some, List, [], ◌∷◌, length, arith,
  Bool-cases,
}
use juno_exchange_kit.Base.Int.{pos, ltb_ℤ}
use juno_exchange_kit.Base.Text.{Text, eq_text_iff, eq_text_refl, trim_space}
use juno_exchange_kit.Base.Table.{select_where, sum_of}
use juno_exchange_kit.Store.Schema.{
  DepositRow, DepositStatus, detected, unconfirmed, confirmed, orphaned, other_status, Db,
}
use juno_exchange_kit.Store.Exec.{
  ok, raise_if_passed, account_id_required, sum_overflow, invalid_pending_summary,
}
use juno_exchange_kit.Store.DepositQueries.{
  DepositsSummary, is_pending_row, is_pending_status, has_account, beyond_int64, trimmed_account,
  lacks_account, pending_deposits_summary,
}

-- The deposit is stored under the account, trimmed, or under some account if none is asked for.
abbrev pub IsUnder : Option Text → DepositRow → Type 0
IsUnder none r = (a : Text) × (r.account_id ≡ some a)
IsUnder (some x) r = r.account_id ≡ some (trim_space x)

-- Seen, and not confirmed or orphaned.
abbrev pub IsPendingFor : Option Text → DepositRow → Type 0
IsPendingFor account r = IsUnder account r × ((r.status ≡ detected) ⊎ (r.status ≡ unconfirmed))

-- `Parts P rows taken`: of the rows, in order, exactly those that satisfy `P` are taken.
pub data Parts (P : DepositRow → Type 0) : List DepositRow → List DepositRow → Type 0 where
  parts_end : Parts P [] []
  parts_in :
      {r : DepositRow} {rows taken : List DepositRow}
      → P r
      → Parts P rows taken
      → Parts P (r ∷ rows) (r ∷ taken)
  parts_out :
      {r : DepositRow} {rows taken : List DepositRow}
      → ¬ P r
      → Parts P rows taken
      → Parts P (r ∷ rows) taken

status_pending :
    (s : DepositStatus) → is_pending_status s ≡ true → (s ≡ detected) ⊎ (s ≡ unconfirmed)
unfolding is_pending_status
status_pending detected h = inl refl
status_pending unconfirmed h = inr refl
status_pending confirmed h = absurd (ground arith)
status_pending orphaned h = absurd (ground arith)
status_pending (other_status s) h = absurd (ground arith)

pending_status :
    (s : DepositStatus) → (s ≡ detected) ⊎ (s ≡ unconfirmed) → is_pending_status s ≡ true
unfolding is_pending_status
pending_status s (inl e) = rw e refl
pending_status s (inr e) = rw e refl

under_has :
    (account : Option Text) (r : DepositRow)
    → IsUnder account r
    → has_account r.account_id (trimmed_account account) ≡ true
unfolding has_account trimmed_account
under_has none r (a, e) = rw e refl
under_has (some x) r e = rw e (eq_text_refl (trim_space x))

has-IsUnder :
    (account stored : Option Text) (r : DepositRow)
    → r.account_id ≡ stored
    → has_account stored (trimmed_account account) ≡ true
    → IsUnder account r
unfolding has_account trimmed_account
has-IsUnder account none r e h = absurd (ground arith)
has-IsUnder none (some a) r e h = (a, e)
has-IsUnder (some x) (some a) r e h = e ∙ ap some ((eq_text_iff a (trim_space x)).0 h)

row-IsPendingFor :
    (account : Option Text) (r : DepositRow)
    → is_pending_row (trimmed_account account) r ≡ true
    → IsPendingFor account r
unfolding is_pending_row
row-IsPendingFor account r h =
    (has-IsUnder account r.account_id r refl (ground arith), status_pending r.status (ground arith))

pending-row :
    (account : Option Text) (r : DepositRow)
    → IsPendingFor account r
    → is_pending_row (trimmed_account account) r ≡ true
unfolding is_pending_row
pending-row account r k = rw (under_has account r k.0, pending_status r.status k.1) refl

select_where-Parts :
    (account : Option Text) (rows : List DepositRow)
    → Parts
        (IsPendingFor account)
        rows
        (select_where (is_pending_row (trimmed_account account)) rows)
unfolding select_where
select_where-Parts account [] = parts_end
select_where-Parts account (r ∷ rows) =
    elim (Bool-cases (is_pending_row (trimmed_account account) r)) [
      | inl e ↦ rw e (parts_in (row-IsPendingFor account r e) (select_where-Parts account rows))
      | inr e ↦ rw e (
          parts_out (λ k. absurd (let yes = pending-row account r k in ground arith))
            (select_where-Parts account rows))
    ]

-- What a summary says: of the deposits exactly those that are pending for the account are counted, and the
-- amount is the exact sum of theirs.
pub record Summarizes (account : Option Text) (db : Db) (s : DepositsSummary) : Type 0 where
  pub rows : List DepositRow
  pub pending : Parts (IsPendingFor account) db.deposits rows
  pub number : s.count ≡ length rows
  pub amount : s.amount_zat ≡ sum_of (λ (r : DepositRow). r.amount_zat) rows

-- A summary that is returned counts exactly the deposits of the account, trimmed, or of any account if none
-- is asked for, that are detected or unconfirmed, and its amount is their sum in exact integers; the query
-- has changed nothing.
pub pending_deposits_summary-Summarizes :
    (account : Option Text) (db db' : Db) (s : DepositsSummary)
    → pending_deposits_summary account db ≡ (ok s, db')
    → Summarizes account db s × (db' ≡ db)
unfolding pending_deposits_summary
pending_deposits_summary-Summarizes account db db' s h =
    let a = trimmed_account account in
    let (_, h1) = raise_if_passed (lacks_account a) account_id_required _ db h in
    let rows = select_where (is_pending_row a) db.deposits in
    let total = sum_of (λ (r : DepositRow). r.amount_zat) rows in
    let (_, h2) = raise_if_passed (beyond_int64 total) sum_overflow _ db h1 in
    let (_, h3) = raise_if_passed (ltb_ℤ total (pos 0)) invalid_pending_summary _ db h2 in
    (
      record {
        rows = rows;
        pending = select_where-Parts account db.deposits;
        number = ground arith;
        amount = ground arith;
      },
      ground arith,
    )
