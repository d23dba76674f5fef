-- ===== src/Store/Accounts.antt =====
-- Accounts and their balances: internal/store/store.go (`CreateAccount`, `AccountBalance`, `randomHex`)
-- and internal/store/accounts.go.
use juno_exchange_kit.Base.{
  ℕ, ◌+◌, ◌-◌, ◌/◌, ◌%◌, Bool, true, false, not, map, ◌||◌, Option, none, some, List, [], ◌∷◌, ◌++◌,
  ltb, if◌then◌else◌,
}
use juno_exchange_kit.Base.Int.{ℤ, pos, pos_part, ltb_ℤ}
use juno_exchange_kit.Base.Text.{Text, is_empty, trim_space}
use juno_exchange_kit.Base.Table.{select_first, select_where, count_where, sum_of, sort_by, page_of}
use juno_exchange_kit.Store.Schema.{AccountRow, BalanceRow, is_account, is_balance}
use juno_exchange_kit.Store.Exec.{
  Error, Result, ok, err, Exec, pure, gets, lift, or_raise, transaction, raise_if, modify, ◌>>=◌,
  ◌>>◌, account_id_required, invalid_random_len, random_failed, no_rows, unique, negative_offset,
  negative_min_balance, invalid_row, invalid_timestamp, invalid_balances_sum, sum_overflow,
}
use juno_exchange_kit.Base.Word.{max_int64}

hex_digit : ℕ → ℕ
hex_digit d = if ltb d 10 then b'0' + d else b'a' + (d - 10)

-- hex.EncodeToString
unfoldable pub hex_encode : List ℕ → Text
unfolding hex_digit
hex_encode [] = []
hex_encode (b ∷ bs) = hex_digit (b / 16) ∷ hex_digit (b % 16) ∷ hex_encode bs

-- `rand n` is what rand.Read fills n bytes with, or its failure.
unfoldable pub random_hex : ℤ → (ℕ → Option (List ℕ)) → Result Text
random_hex n rand =
    if ltb_ℤ n (pos 1) || ltb_ℤ (pos 64) n
    then err invalid_random_len
    else elim (rand (pos_part n)) [ none ↦ err random_failed | some b ↦ ok (hex_encode b) ]

-- INSERT INTO accounts, whose key is account_id.
unfoldable pub insert_account : AccountRow → Exec (Unit {0})
insert_account r = do
  rows ← gets (λ db. db.accounts)
  raise_if (ltb 0 (count_where (is_account r.account_id) rows)) unique
  modify (λ db. record db { accounts = db.accounts ++ r ∷ [] })

-- INSERT INTO account_balances, whose key is account_id.
unfoldable pub insert_balance : BalanceRow → Exec (Unit {0})
insert_balance r = do
  rows ← gets (λ db. db.balances)
  raise_if (ltb 0 (count_where (is_balance r.account_id) rows)) unique
  modify (λ db. record db { balances = db.balances ++ r ∷ [] })

-- The transaction of `CreateAccount`.
unfoldable pub create_account_tx : Text → ℤ → Exec Text
create_account_tx account_id now = do
  insert_account (record { account_id = account_id; created_at = now })
  insert_balance (record { account_id = account_id; balance_zat = pos 0; updated_at = now })
  pure account_id

unfoldable pub create_account : (ℕ → Option (List ℕ)) → ℤ → Exec Text
create_account rand now = do
  account_id ← lift (random_hex (pos 16) rand)
  transaction (create_account_tx account_id now)

-- SELECT balance_zat FROM account_balances WHERE account_id=?
unfoldable pub select_balance : Text → Error → Exec ℤ
select_balance account_id e = do
  row ← gets (λ db. select_first (is_balance account_id) db.balances)
  r ← or_raise row e
  pure r.balance_zat

unfoldable pub account_balance : Text → Exec ℤ
account_balance account_id =
    let id = trim_space account_id in
    do raise_if (is_empty id) account_id_required; select_balance id no_rows

pub record AccountSummary : Type 0 where
  pub account_id : Text
  pub balance_zat : ℤ
  pub created_at : ℤ
  pub updated_at : ℤ

-- A limit below 1 is 100, and a limit above 1000 is 1000.
unfoldable pub page_limit : ℤ → ℕ
page_limit limit =
    if ltb_ℤ limit (pos 1) then 100 else if ltb_ℤ (pos 1000) limit then 1000 else pos_part limit

summary_of : AccountRow → BalanceRow → AccountSummary
summary_of a b = record {
  account_id = a.account_id;
  balance_zat = b.balance_zat;
  created_at = a.created_at;
  updated_at = b.updated_at;
}

-- accounts a JOIN account_balances b ON b.account_id = a.account_id
unfoldable pub join_balances : List BalanceRow → List AccountRow → List AccountSummary
unfolding summary_of
join_balances bs [] = []
join_balances bs (a ∷ rest) =
    map (summary_of a) (select_where (is_balance a.account_id) bs) ++ join_balances bs rest

-- The WHERE clause that a minimum adds.
unfoldable pub has_min_balance : Option ℤ → AccountSummary → Bool
has_min_balance none s = true
has_min_balance (some m) s = not (ltb_ℤ s.balance_zat m)

abbrev pub created_before : AccountSummary → AccountSummary → Bool
created_before s t = ltb_ℤ s.created_at t.created_at

-- What the loop over the rows makes of one row.
unfoldable pub read_summary : AccountSummary → Result AccountSummary
read_summary s =
    let id = trim_space s.account_id in
    if is_empty id
    then err invalid_row
    else if ltb_ℤ s.created_at (pos 0) || ltb_ℤ s.updated_at (pos 0)
    then err invalid_timestamp
    else ok (record s { account_id = id })

unfoldable pub read_summaries : List AccountSummary → Result (List AccountSummary)
read_summaries [] = ok []
read_summaries (s ∷ rest) = elim (read_summary s) [
  | err e ↦ err e
  | ok t ↦ elim (read_summaries rest) [ err e ↦ err e | ok ts ↦ ok (t ∷ ts) ]
]

is_negative : Option ℤ → Bool
is_negative none = false
is_negative (some m) = ltb_ℤ m (pos 0)

unfoldable pub list_accounts : ℤ → ℤ → Option ℤ → Exec (List AccountSummary)
unfolding is_negative
list_accounts limit offset min_balance = do
  raise_if (ltb_ℤ offset (pos 0)) negative_offset
  raise_if (is_negative min_balance) negative_min_balance
  joined ← gets (λ db. join_balances db.balances db.accounts)
  let rows = sort_by created_before (select_where (has_min_balance min_balance) joined)
  lift (read_summaries (page_of (page_limit limit) (pos_part offset) rows))

-- SUM over no rows is NULL, which the source reads as 0; SQLite fails where it leaves int64.
unfoldable pub sum_account_balances : Exec ℤ
sum_account_balances = do
  sum ← gets (λ db. sum_of (λ (r : BalanceRow). r.balance_zat) db.balances)
  raise_if (ltb_ℤ (pos max_int64) sum) sum_overflow
  raise_if (ltb_ℤ sum (pos 0)) invalid_balances_sum
  pure sum
