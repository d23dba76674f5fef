-- ===== src/Cli/Init/Settings.antt =====
-- The settings that `init` stores are those that the commands read.
use juno_exchange_kit.Base.{
  ℕ, ◌≤◌, ◌<◌, ◌≡◌, refl, ap, sym, inl, inr, ◌∙◌, true, false, ◌&&◌, Option, none, some, List, [],
  ◌∷◌, ◌++◌, arith, ltb, ◌==◌, if◌then◌else◌, Bool-cases, Option-cases,
}
use juno_exchange_kit.Base.Text.{
  Text, is_empty, eq_text, eq_text_iff, eq_text_refl, trim_space, trim_left, trim_right,
  cons_trimmed, is_space,
}
use juno_exchange_kit.Base.Word.{max_uint32}
use juno_exchange_kit.Base.Decimal.{
  format_uint, is_digit, all_digits, all_digits-format_uint, parse_uint, parse_uint-format_uint,
}
use juno_exchange_kit.Cli.Setup.{unless_zero, parse_coin_type}
use juno_exchange_kit.Base.Table.{select_first, update_where, count_where}
use juno_exchange_kit.Store.Schema.{MetaRow, Db, is_meta}
use juno_exchange_kit.Store.Exec.{ok}
use juno_exchange_kit.Store.Wallets.{put_meta, meta}

-- The value under a key.
unfoldable pub read_meta : Text → List MetaRow → Option Text
read_meta k [] = none
read_meta k (r ∷ rows) = if is_meta k r then some r.value else read_meta k rows

update_reads :
    (k j v : Text) (rows : List MetaRow)
    → read_meta k (update_where (is_meta j) (λ r. record r { value = v }) rows)
      ≡ (if eq_text j k && ltb 0 (count_where (is_meta j) rows) then some v else read_meta k rows)
unfolding read_meta update_where count_where is_meta
update_reads k j v [] = ground arith
update_reads k j v (r ∷ rows) = ground (
  arith,
  update_reads k j v rows,
  eq_text_iff j k,
  eq_text_iff r.key j,
  eq_text_iff r.key k,
  eq_text_refl k,
)

append_reads :
    (k j v : Text) (rows : List MetaRow)
    → count_where (is_meta j) rows ≡ 0
    → read_meta k (rows ++ record { key = j; value = v } ∷ [])
      ≡ (if eq_text j k then some v else read_meta k rows)
unfolding read_meta count_where is_meta
append_reads k j v [] h = ground arith
append_reads k j v (r ∷ rows) h =
    ground
      (arith, append_reads k j v rows, eq_text_iff j k, eq_text_iff r.key j, eq_text_iff r.key k)

-- A key reads what was put under it last.
pub read_meta-put_meta :
    (k j v : Text) (rows : List MetaRow)
    → read_meta k (put_meta j v rows) ≡ (if eq_text j k then some v else read_meta k rows)
unfolding put_meta
read_meta-put_meta k j v rows = elim (Bool-cases (ltb 0 (count_where (is_meta j) rows))) [
  | inl e ↦ rw e (update_reads k j v rows ∙ rw e (ground arith))
  | inr e ↦ rw e (append_reads k j v rows (ground arith))
]

digit_solid : (c : ℕ) → is_digit c ≡ true → is_space c ≡ false
unfolding is_digit is_space
digit_solid c h = ground arith

cons_trimmed-digit : (c : ℕ) (s : Text) → is_space c ≡ false → cons_trimmed c s ≡ c ∷ s
cons_trimmed-digit c [] h = rw h refl
cons_trimmed-digit c (d ∷ s) h = refl

trim_right-digits : (s : Text) → all_digits s ≡ true → trim_right s ≡ s
unfolding trim_right all_digits
trim_right-digits [] h = refl
trim_right-digits (c ∷ s) h =
    ap (cons_trimmed c) (trim_right-digits s (ground arith))
    ∙ cons_trimmed-digit c s (digit_solid c (ground arith))

trim_space-digits : (s : Text) → all_digits s ≡ true → trim_space s ≡ s
unfolding trim_space trim_left all_digits
trim_space-digits [] h = trim_right-digits [] refl
trim_space-digits (c ∷ s) h =
    let solid = digit_solid c (ground arith) in
    let first : trim_left (c ∷ s) ≡ c ∷ s = rw (trim_left, solid) refl in
    ap trim_right first ∙ trim_right-digits (c ∷ s) h

pub parse_coin_type-format_uint :
    (n : ℕ) → 0 < n → n ≤ max_uint32 → parse_coin_type (format_uint n) ≡ some n
unfolding parse_coin_type
parse_coin_type-format_uint n filled small =
    let trimmed = trim_space-digits (format_uint n) (all_digits-format_uint n) in
    let parsed = parse_uint-format_uint max_uint32 n small (omega arith) in
    let more : (n == 0) ≡ false = ground arith in
    ap (λ t. unless_zero (parse_uint max_uint32 t)) trimmed ∙ ap unless_zero parsed ∙ rw more refl

value_of_row : Option MetaRow → Option Text
value_of_row none = none
value_of_row (some r) = some r.value

value_of_first :
    (k : Text) (rows : List MetaRow)
    → value_of_row (select_first (is_meta k) rows) ≡ read_meta k rows
unfolding select_first read_meta value_of_row
value_of_first k [] = refl
value_of_first k (r ∷ rows) = elim (Bool-cases (is_meta k r)) [
  | inl e ↦ rw e refl
  | inr e ↦ rw e (value_of_first k rows)
]

-- `Meta` of a key that is trimmed.
pub meta_read :
    (k : Text) (db : Db)
    → trim_space k ≡ k
    → is_empty k ≡ false
    → meta k db ≡ (ok (read_meta k db.meta), db)
unfolding meta value_of_row
meta_read k db trimmed filled = elim (Option-cases (select_first (is_meta k) db.meta)) [
  | inl e ↦
      let value : none ≡ read_meta k db.meta = sym (ap value_of_row e) ∙ value_of_first k db.meta in
      rw (trimmed, filled, e, ← value) refl
  | inr (r, e) ↦
      let value : some r.value ≡ read_meta k db.meta =
        sym (ap value_of_row e) ∙ value_of_first k db.meta in
      rw (trimmed, filled, e, ← value) refl
]
