-- ===== src/Store/DepositQueries.antt =====
-- The queries on deposits of internal/store/deposits.go.
use juno_exchange_kit.Base.{
  ℕ, ◌-◌, length, Bool, true, false, not, ◌&&◌, ◌||◌, Option, none, some, List, [], ◌∷◌, ltb,
  if◌then◌else◌,
}
use juno_exchange_kit.Base.Int.{ℤ, pos, pos_part, neg_part, ltb_ℤ}
use juno_exchange_kit.Base.Word.{max_int64, max_uint32}
use juno_exchange_kit.Base.Text.{Text, codes, is_empty, eq_text, lt_text, trim_space, to_lower}
use juno_exchange_kit.Base.Table.{select_where, sum_of, sort_by, page_of}
use juno_exchange_kit.Store.Schema.{
  DepositStatus, detected, confirmed, unconfirmed, orphaned, other_status, DepositRow, is_known,
}
use juno_exchange_kit.Store.Exec.{
  Result, ok, err, Exec, pure, gets, lift, raise_if, ◌>>=◌, ◌>>◌, account_id_required, sum_overflow,
  invalid_pending_summary, invalid_row, invalid_index, invalid_deposit_status, invalid_timestamp,
}
use juno_exchange_kit.Store.Deposits.{null_if_empty, text_or_empty}

pub record DepositsSummary : Type 0 where
  pub count : ℕ
  pub amount_zat : ℤ

-- status IN ('detected','unconfirmed')
unfoldable pub is_pending_status : DepositStatus → Bool
is_pending_status detected = true
is_pending_status confirmed = false
is_pending_status unconfirmed = true
is_pending_status orphaned = false
is_pending_status (other_status s) = false

unfoldable pub has_account : Option Text → Option Text → Bool
has_account none r = false
has_account (some x) none = true
has_account (some x) (some a) = eq_text x a

-- The WHERE clause: with an account if one is asked for.
unfoldable pub is_pending_row : Option Text → DepositRow → Bool
is_pending_row account r = has_account r.account_id account && is_pending_status r.status

-- SUM fails in SQLite where it leaves the int64 range.
abbrev pub beyond_int64 : ℤ → Bool
beyond_int64 s = ltb_ℤ (pos max_int64) s || ltb max_int64 (neg_part s - 1)

unfoldable pub trimmed_account : Option Text → Option Text
trimmed_account none = none
trimmed_account (some a) = some (trim_space a)

unfoldable pub lacks_account : Option Text → Bool
lacks_account none = false
lacks_account (some a) = is_empty a

-- `PendingDepositsSummary`
unfoldable pub pending_deposits_summary : Option Text → Exec DepositsSummary
pending_deposits_summary account =
    let a = trimmed_account account in
    do
      raise_if (lacks_account a) account_id_required
      rows ← gets (λ db. select_where (is_pending_row a) db.deposits)
      let sum = sum_of (λ (r : DepositRow). r.amount_zat) rows
      raise_if (beyond_int64 sum) sum_overflow
      raise_if (ltb_ℤ sum (pos 0)) invalid_pending_summary
      pure (record { count = length rows; amount_zat = sum })

-- WHERE account_id=? AND updated_at >= ?
unfoldable pub is_account_row : Text → ℤ → DepositRow → Bool
is_account_row a since r = has_account r.account_id (some a) && not (ltb_ℤ r.updated_at since)

-- ORDER BY updated_at, wallet_id, txid, action_index
unfoldable pub deposit_before : DepositRow → DepositRow → Bool
deposit_before r s =
    if ltb_ℤ r.updated_at s.updated_at
    then true
    else if ltb_ℤ s.updated_at r.updated_at
    then false
    else if not (eq_text r.wallet_id s.wallet_id)
    then lt_text r.wallet_id s.wallet_id
    else if not (eq_text r.txid s.txid)
    then lt_text r.txid s.txid
    else ltb r.action_index s.action_index

-- A status of another text that is one of the four with spaces around it.
unfoldable pub read_status : DepositStatus → DepositStatus
read_status detected = detected
read_status confirmed = confirmed
read_status unconfirmed = unconfirmed
read_status orphaned = orphaned
read_status (other_status s) =
    let t = trim_space s in
    if eq_text t (codes "detected")
    then detected
    else if eq_text t (codes "confirmed")
    then confirmed
    else if eq_text t (codes "unconfirmed")
    then unconfirmed
    else if eq_text t (codes "orphaned")
    then orphaned
    else other_status t

-- The checks on a row that was read.
unfoldable pub read_deposit : DepositRow → Result DepositRow
read_deposit r =
    let w = trim_space r.wallet_id in
    let t = to_lower (trim_space r.txid) in
    if is_empty w || is_empty t
    then err invalid_row
    else if ltb max_uint32 r.action_index || ltb max_uint32 r.diversifier_index
    then err invalid_index
    else if not (is_known (read_status r.status))
    then err invalid_deposit_status
    else if ltb_ℤ r.created_at (pos 0) || ltb_ℤ r.updated_at (pos 0)
    then err invalid_timestamp
    else ok (record r {
      wallet_id = w;
      txid = t;
      account_id = null_if_empty (text_or_empty r.account_id);
      status = read_status r.status;
    })

unfoldable pub read_deposits : List DepositRow → Result (List DepositRow)
read_deposits [] = ok []
read_deposits (r ∷ rest) = elim (read_deposit r) [
  | err e ↦ err e
  | ok t ↦ elim (read_deposits rest) [ err e ↦ err e | ok ts ↦ ok (t ∷ ts) ]
]

unfoldable pub deposit_limit : ℤ → ℕ
deposit_limit limit =
    if not (ltb_ℤ (pos 0) limit)
    then 200
    else if ltb_ℤ (pos 1000) limit
    then 1000
    else pos_part limit

-- `ListAccountDepositsSince`
unfoldable pub list_account_deposits_since : Text → ℤ → ℤ → Exec (List DepositRow)
list_account_deposits_since account_id since limit =
    let a = trim_space account_id in
    let from = if ltb_ℤ since (pos 0) then pos 0 else since in
    do
      raise_if (is_empty a) account_id_required
      found ← gets (λ db. select_where (is_account_row a from) db.deposits)
      lift (read_deposits (page_of (deposit_limit limit) 0 (sort_by deposit_before found)))
