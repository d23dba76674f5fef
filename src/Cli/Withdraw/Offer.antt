-- ===== src/Cli/Withdraw/Offer.antt =====
-- The test of `runWithdraw` on the planned fee, and what its message offers.
use juno_exchange_kit.Base.{
  ℕ, ◌+◌, ◌≤◌, ◌<◌, ◌≡◌, ◌⊎◌, refl, inl, inr, true, false, arith, ltb, Bool-cases,
}
use juno_exchange_kit.Base.Int.{ℤ, pos, ltb_ℤ, ◌+ℤ◌, ◌-ℤ◌, ◌≤ℤ◌, int_laws}
use juno_exchange_kit.Base.Word.{
  IsInt64, IsNat, max_int64, half_word, word, of_word, wrap_int64, add_int64, sub_int64_exact,
}
use juno_exchange_kit.Cli.Command.{returned, exited, amount_overflow, insufficient_for_fee}
use juno_exchange_kit.Cli.Withdraw.{max_amount, check_total}

-- Two numbers below 2 ^ 63 added as int64.
add_numbers : (a f : ℕ) → a + f < word → add_int64 (pos a) (pos f) ≡ of_word (a + f)
unfolding add_int64 wrap_int64 ◌+ℤ◌
add_numbers a f h = ground arith

-- What is offered with the fee is the balance, or nothing is left of it.
abbrev pub IsBest : ℤ → ℤ → ℤ → Type 0
IsBest balance fee m = ((m ≡ pos 0) × (balance ≤ℤ fee)) ⊎ ((m +ℤ fee ≡ balance) × (pos 1 ≤ℤ m))

best_of_sub : (balance fee : ℤ) → ltb_ℤ fee balance ≡ true → pos 1 ≤ℤ balance -ℤ fee
unfolding ◌-ℤ◌
best_of_sub balance fee h = ground arith

sub_fits :
    (balance fee : ℤ)
    → IsInt64 balance
    → IsNat fee
    → ltb_ℤ fee balance ≡ true
    → IsInt64 (balance -ℤ fee)
unfolding ◌-ℤ◌
sub_fits balance fee fits nonneg h = ground arith

max_amount-IsBest :
    (balance fee : ℤ) → IsInt64 balance → IsNat fee → IsBest balance fee (max_amount balance fee)
unfolding max_amount
max_amount-IsBest balance fee fits nonneg = elim (Bool-cases (ltb_ℤ fee balance)) [
  | inr e ↦ elim (Bool-cases (ltb_ℤ (pos 0) balance)) [
    | inl d ↦ rw (d, e) (inl (refl, ground arith))
    | inr d ↦ rw d (inl (refl, ground arith))
  ]
  | inl e ↦
      let d : ltb_ℤ (pos 0) balance ≡ true = ground arith in
      let exact = sub_int64_exact balance fee (sub_fits balance fee fits nonneg e) in
      rw (d, e, exact) (inr (omega int_laws, best_of_sub balance fee e))
]

-- A number of 63 bits is itself as an int64.
of_word_small : (n : ℕ) → n < half_word → of_word n ≡ pos n
of_word_small n h = ground arith

module _ (balance : ℤ) (amount fee : ℕ) (fits : IsInt64 balance) (small : amount ≤ max_int64)
    (fee_small : fee < half_word) where
  -- For an amount and a fee of 63 bits: if in exact integers the balance covers their sum, the test
  -- passes. If not, it stops with an overflow, or with a message whose largest amount is what the fee
  -- leaves of the balance, and 0 if it leaves nothing.
  pub check_total_covers :
      ((pos amount +ℤ pos fee ≤ℤ balance) × (check_total balance amount fee ≡ returned tt))
      ⊎ ((balance +ℤ pos 1 ≤ℤ pos amount +ℤ pos fee)
          × ((check_total balance amount fee ≡ exited amount_overflow)
              ⊎ ((m : ℤ) × IsBest balance (pos fee) m
                  × (check_total balance amount fee
                      ≡ exited (insufficient_for_fee balance (pos amount) (pos fee) m)))))
  unfolding check_total
  check_total_covers =
      let sum : pos amount +ℤ pos fee ≡ pos (amount + fee) = unfold ◌+ℤ◌ in ground arith in
      let fee_same = of_word_small fee fee_small in
      let total = add_numbers amount fee (omega arith) in
      rw (fee_same, total)
        (elim (Bool-cases (ltb (amount + fee) half_word)) [
          | inr big ↦
              let wraps : ltb_ℤ (of_word (amount + fee)) (pos amount) ≡ true = ground arith in
              inr (unfold ◌+ℤ◌ in ground arith, inl (rw wraps refl))
          | inl fine ↦
              let whole = of_word_small (amount + fee) (ground arith) in
              let least : ltb_ℤ (pos (amount + fee)) (pos amount) ≡ false = ground arith in
              rw whole (elim (Bool-cases (ltb_ℤ balance (pos (amount + fee)))) [
                | inl short ↦ inr (
                  unfold ◌+ℤ◌ in ground arith,
                  inr (
                    max_amount balance (pos fee),
                    max_amount-IsBest balance (pos fee) fits refl,
                    rw (least, short) refl,
                  ),
                )
                | inr covered ↦ inl (unfold ◌+ℤ◌ in ground arith, rw (least, covered) refl)
              ])
        ])
