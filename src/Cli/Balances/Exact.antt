-- ===== src/Cli/Balances/Exact.antt =====
-- The sums of a wallet's notes are exact, and the two loops agree.
use juno_exchange_kit.Base.{
  ℕ, suc, ◌+◌, ◌-◌, ◌≤◌, ◌<◌, ◌≡◌, refl, ap, inl, inr, ◌∙◌, Bool, true, false, not, ◌&&◌, ◌||◌,
  some, List, [], ◌∷◌, arith, ltb, leb, if◌then◌else◌, Bool-cases,
}
use juno_exchange_kit.Base.Int.{ℤ, pos, negsuc, pos_part, ltb_ℤ, ◌+ℤ◌, ◌-ℤ◌}
use juno_exchange_kit.Base.Word.{
  IsInt64, max_int64, half_word, add_int64, sub_int64, add_int64_exact, sub_int64_exact,
}
use juno_exchange_kit.Base.Text.{Text, trim_space}
use mathlib.Core.Path.{fun_ext}
use juno_exchange_kit.Store.Addresses.{eq_ℤ}
use juno_exchange_kit.Txplan.Services.{WalletNote, Scan}
use juno_exchange_kit.Txplan.Actions.{confirmations}
use juno_exchange_kit.Cli.Balances.{
  WalletBalance, Balanced, counted, stopped, balance_overflow, overflows, is_deep, add_unspent,
  add_spendable, add_checked, summary_turn, wallet_turn, bind_balanced, loop_notes, balance_notes,
  wallet_balance_summary, wallet_balance,
}

-- A value that is not positive does not count.
abbrev pub value_of : WalletNote → ℕ
value_of n = pos_part n.value_zat

abbrev pub is_unspent : WalletNote → Bool
is_unspent n = ltb 0 (value_of n)

-- In exact integers: no confirmation is wanted, or the note stands in a block from 1 to the tip, and the
-- blocks from its own to the tip are as many as wanted.
unfoldable pub is_spendable : ℤ → ℤ → WalletNote → Bool
is_spendable tip minconf n =
    is_unspent n
    && (eq_ℤ minconf (pos 0)
        || (ltb 0 (pos_part n.height)
            && leb (pos_part n.height) (pos_part tip)
            && not (ltb_ℤ (pos (pos_part tip - pos_part n.height + 1)) minconf)))

-- The sum of the values, and the number, of the notes that satisfy a test.
unfoldable pub sum_where : (WalletNote → Bool) → List WalletNote → ℕ
sum_where p [] = 0
sum_where p (n ∷ ns) = (if p n then value_of n else 0) + sum_where p ns

unfoldable pub number_where : (WalletNote → Bool) → List WalletNote → ℕ
number_where p [] = 0
number_where p (n ∷ ns) = (if p n then 1 else 0) + number_where p ns

abbrev balance : ℕ → ℕ → ℕ → ℕ → WalletBalance
balance t s u k = record {
  total_unspent_zat = pos t;
  spendable_zat = pos s;
  unspent_notes = u;
  spendable_notes = k;
}

overflows_exact :
    (v : ℤ) (t : ℕ) → t ≤ max_int64 → overflows v (pos t) ≡ ltb_ℤ (pos (max_int64 - t)) v
unfolding overflows
overflows_exact v t h =
    let e : sub_int64 (pos max_int64) (pos t) ≡ pos (max_int64 - t) =
      sub_int64_exact (pos max_int64) (pos t) (unfold ◌-ℤ◌ in ground arith)
      ∙ unfold ◌-ℤ◌ in ground arith in
    ap (λ x. ltb_ℤ x v) e

pub add_exact : (t v : ℕ) → t + v ≤ max_int64 → add_int64 (pos t) (pos v) ≡ pos (t + v)
unfolding ◌+ℤ◌
add_exact t v h = add_int64_exact (pos t) (pos v) (ground arith) ∙ ground arith

pub sub_exact : (t h : ℕ) → h ≤ t → t < half_word → sub_int64 (pos t) (pos h) ≡ pos (t - h)
unfolding ◌-ℤ◌
sub_exact t h le small = sub_int64_exact (pos t) (pos h) (ground arith) ∙ ground arith

conf_exact :
    (t h : ℕ)
    → 0 < h
    → h ≤ t
    → t < half_word
    → add_int64 (sub_int64 (pos t) (pos h)) (pos 1) ≡ pos (t - h + 1)
conf_exact t h p le small = rw (sub_exact t h le small) (add_exact (t - h) 1 (omega arith))

-- The tests of the loop on a height and a tip that are positive, or not.
pos_of : (a : ℤ) → ltb_ℤ (pos 0) a ≡ true → a ≡ pos (pos_part a)
pos_of a h = ground arith

deep_at :
    (tip minconf height : ℤ)
    → IsInt64 tip
    → (if ltb_ℤ (pos 0) height && ltb_ℤ (pos 0) tip && not (ltb_ℤ tip height)
        then not (ltb_ℤ (add_int64 (sub_int64 tip height) (pos 1)) minconf)
        else false)
      ≡ (ltb 0 (pos_part height)
          && leb (pos_part height) (pos_part tip)
          && not (ltb_ℤ (pos (pos_part tip - pos_part height + 1)) minconf))
deep_at (pos t) minconf (pos h) fits = elim (Bool-cases (ltb 0 h && leb h t)) [
  | inl e ↦ let conf = conf_exact t h (ground arith) (ground arith) fits.0 in rw conf (ground arith)
  | inr e ↦ ground arith
]
deep_at (pos t) minconf (negsuc h) fits = ground arith
deep_at (negsuc t) minconf (pos h) fits = ground arith
deep_at (negsuc t) minconf (negsuc h) fits = ground arith

-- The test of the loop, for a tip that is an int64.
is_deep_exact :
    (tip minconf : ℤ) (n : WalletNote)
    → IsInt64 tip
    → is_deep tip minconf n ≡ (
        ltb 0 (pos_part n.height)
        && leb (pos_part n.height) (pos_part tip)
        && not (ltb_ℤ (pos (pos_part tip - pos_part n.height + 1)) minconf))
unfolding is_deep confirmations
is_deep_exact tip minconf n fits = deep_at tip minconf n.height fits

-- What a turn does to exact sums that fit, by the value and the two tests.
abbrev turned : ℤ → Bool → Bool → ℕ → ℕ → ℕ → ℕ → Balanced WalletBalance
turned value z d t s u k =
    let v = pos_part value in
    if not (ltb 0 v)
    then counted (balance t s u k)
    else if ltb (max_int64 - t) v
    then stopped balance_overflow
    else if z || d
    then counted (balance (t + v) (s + v) (suc u) (suc k))
    else counted (balance (t + v) s (suc u) k)

add_unspent_exact :
    (v t s u k : ℕ)
    → t + v ≤ max_int64
    → add_unspent (pos v) (balance t s u k) ≡ balance (t + v) s (suc u) k
add_unspent_exact v t s u k h = rw (add_exact t v h) refl

add_spendable_exact :
    (v t s u k : ℕ)
    → s + v ≤ max_int64
    → add_spendable (pos v) (balance t s u k) ≡ balance t (s + v) u (suc k)
add_spendable_exact v t s u k h = rw (add_exact s v h) refl

-- Below the whole, the spendable sum does not overflow.
add_checked_exact :
    (v t s u k : ℕ)
    → s + v ≤ max_int64
    → add_checked (pos v) (balance t s u k) ≡ counted (balance t (s + v) u (suc k))
unfolding add_checked
add_checked_exact v t s u k h =
    let small : ltb_ℤ (pos (max_int64 - s)) (pos v) ≡ false = ground arith in
    rw (overflows_exact (pos v) s (omega arith), small)
      (ap counted (add_spendable_exact v t s u k h))

module _ (t s u k : ℕ) (le : s ≤ t) (small : t ≤ max_int64) where
  summary_at :
      (value : ℤ) (z d : Bool)
      → (if not (ltb_ℤ (pos 0) value)
          then counted (balance t s u k)
          else if overflows value (pos t)
          then stopped balance_overflow
          else if z
          then add_checked value (add_unspent value (balance t s u k))
          else if d
          then add_checked value (add_unspent value (balance t s u k))
          else counted (add_unspent value (balance t s u k)))
        ≡ turned value z d t s u k
  summary_at (negsuc v) z d = ground arith
  summary_at (pos v) z d =
      let over = overflows_exact (pos v) t small in
      elim (Bool-cases (ltb (max_int64 - t) v)) [
        | inl e ↦ ground arith
        | inr e ↦
            let unspent = add_unspent_exact v t s u k (ground arith) in
            let checked =
              ap (add_checked (pos v)) unspent
              ∙ add_checked_exact v (t + v) s (suc u) k (ground arith) in
            ground arith
      ]

  wallet_at :
      (value : ℤ) (z d : Bool)
      → (if not (ltb_ℤ (pos 0) value)
          then counted (balance t s u k)
          else if overflows value (pos t)
          then stopped balance_overflow
          else if z
          then counted (add_spendable value (add_unspent value (balance t s u k)))
          else if d
          then add_checked value (add_unspent value (balance t s u k))
          else counted (add_unspent value (balance t s u k)))
        ≡ turned value z d t s u k
  wallet_at (negsuc v) z d = ground arith
  wallet_at (pos v) z d =
      let over = overflows_exact (pos v) t small in
      elim (Bool-cases (ltb (max_int64 - t) v)) [
        | inl e ↦ ground arith
        | inr e ↦
            let unspent = add_unspent_exact v t s u k (ground arith) in
            let checked =
              ap (add_checked (pos v)) unspent
              ∙ add_checked_exact v (t + v) s (suc u) k (ground arith) in
            let spendable =
              ap (add_spendable (pos v)) unspent
              ∙ add_spendable_exact v (t + v) s (suc u) k (ground arith) in
            ground arith
      ]

-- The notes that the turns count as spendable.
abbrev counts : ℤ → ℤ → WalletNote → Bool
counts tip minconf n = is_unspent n && (eq_ℤ minconf (pos 0) || is_deep tip minconf n)

-- The exact sums, if the whole is an int64.
abbrev outcome : ℤ → ℤ → List WalletNote → ℕ → ℕ → ℕ → ℕ → Balanced WalletBalance
outcome tip minconf ns t s u k =
    if leb (t + sum_where is_unspent ns) max_int64
    then counted (
        balance (t + sum_where is_unspent ns) (s + sum_where (counts tip minconf) ns)
          (u + number_where is_unspent ns) (k + number_where (counts tip minconf) ns))
    else stopped balance_overflow

module _ (tip minconf : ℤ) (turn : WalletNote → WalletBalance → Balanced WalletBalance)
    (exact : (n : WalletNote) (t s u k : ℕ)
      → s ≤ t
      → t ≤ max_int64
      → turn n (balance t s u k)
        ≡ turned n.value_zat (eq_ℤ minconf (pos 0)) (is_deep tip minconf n) t s u k) where
  loop_exact :
      (ns : List WalletNote) (t s u k : ℕ)
      → s ≤ t
      → t ≤ max_int64
      → loop_notes turn ns (balance t s u k) ≡ outcome tip minconf ns t s u k
  unfolding loop_notes sum_where number_where
  loop_exact [] t s u k le small = ground arith
  loop_exact (n ∷ ns) t s u k le small =
      let v = value_of n in
      let done = ap (λ r. bind_balanced r (loop_notes turn ns)) (exact n t s u k le small) in
      done ∙ elim (Bool-cases (ltb 0 v)) [
        | inr f ↦ ground (arith, loop_exact ns t s u k le small)
        | inl f ↦ elim (Bool-cases (ltb (max_int64 - t) v)) [
          | inl e ↦ ground arith
          | inr e ↦
              let whole : t + v ≤ max_int64 = ground arith in
              elim (Bool-cases (eq_ℤ minconf (pos 0) || is_deep tip minconf n)) [
                | inl d ↦
                    ground
                      (arith, loop_exact ns (t + v) (s + v) (suc u) (suc k) (omega arith) whole)
                | inr d ↦ ground (arith, loop_exact ns (t + v) s (suc u) k (omega arith) whole)
              ]
        ]
      ]

-- What a wallet's balance is in exact numbers: the sums and counts of its notes of a positive value, and of
-- those of them that are spendable; an overflow if the whole sum is not an int64.
unfoldable pub exact_balance : ℤ → ℤ → List WalletNote → Balanced WalletBalance
exact_balance tip minconf ns =
    if leb (sum_where is_unspent ns) max_int64
    then counted (record {
      total_unspent_zat = pos (sum_where is_unspent ns);
      spendable_zat = pos (sum_where (is_spendable tip minconf) ns);
      unspent_notes = number_where is_unspent ns;
      spendable_notes = number_where (is_spendable tip minconf) ns;
    })
    else stopped balance_overflow

counts_exact : (tip minconf : ℤ) → IsInt64 tip → counts tip minconf ≡ is_spendable tip minconf
unfolding is_spendable
counts_exact tip minconf fits =
    fun_ext (λ n.
      ap (λ d. is_unspent n && (eq_ℤ minconf (pos 0) || d)) (is_deep_exact tip minconf n fits))

outcome_exact :
    (tip minconf : ℤ) (ns : List WalletNote)
    → IsInt64 tip
    → outcome tip minconf ns 0 0 0 0 ≡ exact_balance tip minconf ns
unfolding exact_balance
outcome_exact tip minconf ns fits = rw (counts_exact tip minconf fits) (ground arith)

module _ (tip minconf : ℤ) where
  summary_turn_exact :
      (n : WalletNote) (t s u k : ℕ)
      → s ≤ t
      → t ≤ max_int64
      → summary_turn tip minconf n (balance t s u k)
        ≡ turned n.value_zat (eq_ℤ minconf (pos 0)) (is_deep tip minconf n) t s u k
  unfolding summary_turn
  summary_turn_exact n t s u k le small =
      summary_at t s u k le small n.value_zat (eq_ℤ minconf (pos 0)) (is_deep tip minconf n)

  wallet_turn_exact :
      (n : WalletNote) (t s u k : ℕ)
      → s ≤ t
      → t ≤ max_int64
      → wallet_turn tip minconf n (balance t s u k)
        ≡ turned n.value_zat (eq_ℤ minconf (pos 0)) (is_deep tip minconf n) t s u k
  unfolding wallet_turn
  wallet_turn_exact n t s u k le small =
      wallet_at t s u k le small n.value_zat (eq_ℤ minconf (pos 0)) (is_deep tip minconf n)

-- At a tip that is an int64 and for notes that the scanner lists, the balance of `balances` and the balance
-- of `wallet balance` are both the exact one: the loop that adds without a test does not overflow either.
pub balances_exact :
    (scan : Scan) (wallet : Text) (tip minconf : ℤ) (notes : List WalletNote)
    → IsInt64 tip
    → scan.wallet_notes (trim_space wallet) ≡ some notes
    → (wallet_balance_summary scan wallet tip minconf ≡ exact_balance tip minconf notes)
      × (wallet_balance scan wallet tip minconf ≡ exact_balance tip minconf notes)
unfolding wallet_balance_summary wallet_balance balance_notes
balances_exact scan wallet tip minconf notes fits listed =
    let result = outcome_exact tip minconf notes fits in
    rw listed (
      loop_exact tip minconf (summary_turn tip minconf) (summary_turn_exact tip minconf) notes 0 0 0
            0 (omega arith) (omega arith)
          ∙ result,
      loop_exact tip minconf (wallet_turn tip minconf) (wallet_turn_exact tip minconf) notes 0 0 0 0
            (omega arith) (omega arith)
          ∙ result,
    )
