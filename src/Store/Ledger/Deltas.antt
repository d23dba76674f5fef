-- ===== src/Store/Ledger/Deltas.antt =====
-- The signed changes that `ApplyDeposit` computes, and the loop that applies them.
use juno_exchange_kit.Base.{
  ◌≡◌, refl, ap, ◌∙◌, subst, sym, inl, inr, true, false, ◌||◌, List, [], ◌∷◌, arith, Bool-cases,
}
use juno_exchange_kit.Base.Int.{ℤ, pos, ◌+ℤ◌, int_laws}
use juno_exchange_kit.Base.Word.{IsInt64, add_int64}
use juno_exchange_kit.Base.Text.{Text, is_empty, trim_space}
use juno_exchange_kit.Base.Table.{sum_of, All}
use juno_exchange_kit.Store.Schema.{Db}
use juno_exchange_kit.Store.Exec.{ok, >>=_ok}
use juno_exchange_kit.Store.Addresses.{eq_ℤ}
use juno_exchange_kit.Store.Deposits.{BalanceDelta, apply_account_balance_delta, apply_deltas}
use juno_exchange_kit.Store.Ledger.{amount_at, GoodBalances}
use juno_exchange_kit.Store.Ledger.Balances.{BalanceChange, apply_account_balance_delta_moves}

unfoldable pub gain_of : Text → List BalanceDelta → ℤ
gain_of a ds = sum_of (λ (d : BalanceDelta). amount_at a d.account_id d.delta_zat) ds

abbrev pub IsGoodDelta : BalanceDelta → Type 0
IsGoodDelta d =
    (trim_space d.account_id ≡ d.account_id) × (is_empty d.account_id ≡ false) × IsInt64 d.delta_zat

pub eq_ℤ-eq : (a b : ℤ) → eq_ℤ a b ≡ true → a ≡ b
unfolding eq_ℤ
eq_ℤ-eq a b h = ground arith

amount_at-zero : (a x : Text) → amount_at a x (pos 0) ≡ pos 0
unfolding amount_at
amount_at-zero a x = ground arith

BalanceChange-none :
    (db : Db) (gain : Text → ℤ)
    → GoodBalances db.balances
    → ((a : Text) → gain a ≡ pos 0)
    → BalanceChange db db gain
BalanceChange-none db gain g z = record {
  others = refl;
  good = g;
  moved = λ a. rw (z a) (omega int_laws);
}

BalanceChange-trans :
    (d e f : Db) (gain more both : Text → ℤ)
    → BalanceChange d e gain
    → BalanceChange e f more
    → ((a : Text) → both a ≡ gain a +ℤ more a)
    → BalanceChange d f both
BalanceChange-trans d e f gain more both p q s = record {
  others = q.others ∙ ap (λ (x : Db). record x { balances = f.balances }) p.others;
  good = q.good;
  moved = λ a. rw (q.moved a, p.moved a, s a) (omega int_laws);
}

-- A delta of zero, or of no account, is skipped; none that is good is of no account.
gain-skipped :
    (a : Text) (d : BalanceDelta)
    → (eq_ℤ d.delta_zat (pos 0) || is_empty (trim_space d.account_id)) ≡ true
    → IsGoodDelta d
    → amount_at a d.account_id d.delta_zat ≡ pos 0
gain-skipped a d h (trimmed, named, fits) =
    let named' : is_empty (trim_space d.account_id) ≡ false = rw trimmed named in
    let zero_delta : d.delta_zat ≡ pos 0 = eq_ℤ-eq d.delta_zat (pos 0) (ground arith) in
    subst (λ v. amount_at a d.account_id v ≡ pos 0) (sym zero_delta) (amount_at-zero a d.account_id)

-- The loop moves every balance by the deltas of its account.
pub apply_deltas_moves :
    (ds : List BalanceDelta) (sum now s : ℤ) (db db' : Db)
    → apply_deltas ds sum now db ≡ (ok s, db')
    → GoodBalances db.balances
    → All IsGoodDelta ds
    → BalanceChange db db' (λ a. gain_of a ds)
unfolding apply_deltas gain_of sum_of
apply_deltas_moves [] sum now s db db' h g all =
    let e : db ≡ db' = ground arith in
    subst (λ d. BalanceChange db d (λ a. pos 0)) e (BalanceChange-none db _ g (λ a. refl))
apply_deltas_moves (d ∷ ds) sum now s db db' h g all =
    elim (Bool-cases (eq_ℤ d.delta_zat (pos 0) || is_empty (trim_space d.account_id))) [
      | inl skip ↦
          BalanceChange-trans db db db' (λ a. pos 0) (λ a. gain_of a ds) _
            (BalanceChange-none db _ g (λ a. refl))
            (apply_deltas_moves ds sum now s db db' (rw skip at h) g all.1)
            (λ a. rw (gain-skipped a d skip all.0) refl)
      | inr apply ↦
          let (u, mid, first, rest) =
            >>=_ok (apply_account_balance_delta d.account_id d.delta_zat now)
              (λ _. apply_deltas ds (add_int64 sum d.delta_zat) now) db (rw apply at h) in
          let moved =
            apply_account_balance_delta_moves d.account_id d.delta_zat now db mid first g all.0.2
              all.0.0 in
          BalanceChange-trans db mid db' _ (λ a. gain_of a ds) _ moved
            (apply_deltas_moves ds (add_int64 sum d.delta_zat) now s mid db' rest moved.good all.1)
            (λ a. refl)
    ]
