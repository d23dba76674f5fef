-- ===== src/Store/Ledger/Gains.antt =====
-- The switch of `ApplyDeposit` moves every account by the change of its confirmed deposits.
use juno_exchange_kit.Base.{
  ◌≡◌, subst, sym, inl, inr, false, not, ◌||◌, List, ◌++◌, arith, Bool-cases, if◌then◌else◌,
}
use juno_exchange_kit.Base.Int.{ℤ, pos, ◌+ℤ◌, ◌-ℤ◌, ◌≤ℤ◌, int_laws, parts_of_eq}
use juno_exchange_kit.Base.Word.{IsInt64, sub_int64, sub_int64_exact}
use juno_exchange_kit.Base.Text.{Text, is_empty, eq_text, eq_text_iff, trim_space}
use juno_exchange_kit.Base.Table.{sum_of, sum_of-append, All, All-append}
use juno_exchange_kit.Store.Schema.{DepositStatus, is_confirmed}
use juno_exchange_kit.Store.Addresses.{eq_ℤ}
use juno_exchange_kit.Store.Deposits.{BalanceDelta, delta_of, balance_deltas}
use juno_exchange_kit.Store.Ledger.{amount_at, share_of}
use juno_exchange_kit.Store.Ledger.Deltas.{gain_of, IsGoodDelta, eq_ℤ-eq}

-- What a deposit of a status is worth to account `a`.
abbrev pub worth : Text → DepositStatus → Text → ℤ → ℤ
worth a s x v = if is_confirmed s then share_of a x v else pos 0

gain_of-delta_of : (a x : Text) (v : ℤ) → gain_of a (delta_of x v) ≡ share_of a x v
unfolding gain_of delta_of share_of sum_of
gain_of-delta_of a x v = elim (Bool-cases (is_empty x)) [
  | inl e ↦ rw e
  | inr e ↦ rw e (omega int_laws)
]

gain_of-append :
    (a : Text) (ds es : List BalanceDelta) → gain_of a (ds ++ es) ≡ gain_of a ds +ℤ gain_of a es
unfolding gain_of
gain_of-append a ds es = sum_of-append _ ds es

share_of-cancel : (a x : Text) (v : ℤ) → share_of a x (pos 0 -ℤ v) +ℤ share_of a x v ≡ pos 0
unfolding share_of amount_at
share_of-cancel a x v = elim (Bool-cases (is_empty x)) [
  | inl e ↦ rw e (omega int_laws)
  | inr e ↦ elim (Bool-cases (eq_text x a)) [
    | inl f ↦ rw (e, f) (omega int_laws)
    | inr f ↦ rw (e, f) (omega int_laws)
  ]
]

module _ (a p x : Text) (m v : ℤ) (s t : DepositStatus)
    (exact : sub_int64 (pos 0) m ≡ pos 0 -ℤ m) where
  debit_gain : gain_of a (delta_of p (sub_int64 (pos 0) m)) +ℤ share_of a p m ≡ pos 0
  debit_gain = rw exact (rw (gain_of-delta_of a p (pos 0 -ℤ m)) (share_of-cancel a p m))

  both_gain :
      gain_of a (delta_of p (sub_int64 (pos 0) m) ++ delta_of x v) +ℤ share_of a p m
      ≡ share_of a x v
  both_gain =
      rw (gain_of-append a (delta_of p (sub_int64 (pos 0) m)) (delta_of x v))
        (rw (gain_of-delta_of a x v) (omega (int_laws, parts_of_eq debit_gain)))

  same_gain :
      (not (eq_text p x) || not (eq_ℤ m v)) ≡ false → pos 0 +ℤ share_of a p m ≡ share_of a x v
  same_gain h =
      let e : p ≡ x = (eq_text_iff p x).0 (ground arith) in
      let f : m ≡ v = eq_ℤ-eq m v (ground arith) in rw (e, f) (omega int_laws)

  -- The deltas add what the deposit is worth now, and take back what it was worth before.
  pub balance_deltas_gain : gain_of a (balance_deltas s p m t x v) +ℤ worth a s p m ≡ worth a t x v
  balance_deltas_gain = elim (Bool-cases (is_confirmed s)) [
    | inl was ↦ elim (Bool-cases (is_confirmed t)) [
      | inl now ↦ elim (Bool-cases (not (eq_text p x) || not (eq_ℤ m v))) [
        | inl changed ↦ unfold balance_deltas in rw (was, now, changed) both_gain
        | inr same ↦
            unfold balance_deltas in rw (was, now, same) (unfold gain_of sum_of in same_gain same)
      ]
      | inr now ↦ unfold balance_deltas in rw (was, now) debit_gain
    ]
    | inr was ↦ elim (Bool-cases (is_confirmed t)) [
      | inl now ↦
          unfold balance_deltas in rw (was, now) (rw (gain_of-delta_of a x v) (omega int_laws))
      | inr now ↦ unfold balance_deltas in rw (was, now) (unfold gain_of sum_of in omega int_laws)
    ]
  ]

delta_of-good : (x : Text) (v : ℤ) → trim_space x ≡ x → IsInt64 v → All IsGoodDelta (delta_of x v)
unfolding delta_of
delta_of-good x v h k = elim (Bool-cases (is_empty x)) [
  | inl e ↦ rw e tt
  | inr e ↦ rw e ((h, e, k), tt)
]

-- The deltas name trimmed accounts, and are int64 values.
pub balance_deltas-good :
    (s t : DepositStatus) (p x : Text) (m v : ℤ)
    → trim_space p ≡ p
    → trim_space x ≡ x
    → IsInt64 (sub_int64 (pos 0) m)
    → IsInt64 v
    → All IsGoodDelta (balance_deltas s p m t x v)
balance_deltas-good s t p x m v hp hx fm fv =
    let debit = delta_of-good p (sub_int64 (pos 0) m) hp fm in
    let credit = delta_of-good x v hx fv in
    elim (Bool-cases (is_confirmed s)) [
      | inl was ↦ elim (Bool-cases (is_confirmed t)) [
        | inl now ↦ elim (Bool-cases (not (eq_text p x) || not (eq_ℤ m v))) [
          | inl changed ↦
              unfold balance_deltas in
              rw (was, now, changed) (All-append IsGoodDelta _ (delta_of x v) debit credit)
          | inr same ↦ unfold balance_deltas in rw (was, now, same) tt
        ]
        | inr now ↦ unfold balance_deltas in rw (was, now) debit
      ]
      | inr was ↦ elim (Bool-cases (is_confirmed t)) [
        | inl now ↦ unfold balance_deltas in rw (was, now) credit
        | inr now ↦ unfold balance_deltas in rw (was, now) tt
      ]
    ]

-- Taking an amount of at least 1 back is exact.
pub debit_exact :
    (m : ℤ)
    → IsInt64 m
    → pos 0 ≤ℤ m
    → (sub_int64 (pos 0) m ≡ pos 0 -ℤ m) × IsInt64 (sub_int64 (pos 0) m)
debit_exact m h k =
    let fits : IsInt64 (pos 0 -ℤ m) = unfold ◌-ℤ◌ in ground arith in
    let e = sub_int64_exact (pos 0) m fits in (e, subst IsInt64 (sym e) fits)
