-- ===== src/Cli/Account/Wait.antt =====
-- The wait for a deposit ends with the balance that it waited for, and keeps the books.
use juno_exchange_kit.Base.{
  ℕ, zero, suc, ◌≡◌, ap, sym, subst, inl, inr, ◌∙◌, false, List, arith, Bool-cases,
}
use juno_exchange_kit.Base.Int.{ℤ, ltb_ℤ, ◌≤ℤ◌}
use juno_exchange_kit.Base.Text.{Text}
use juno_exchange_kit.Store.Schema.{Db}
use juno_exchange_kit.Store.Exec.{ok, Result}
use juno_exchange_kit.Store.Accounts.{account_balance}
use juno_exchange_kit.Store.Ledger.{IsConsistent}
use juno_exchange_kit.Cli.Command.{
  World, returned, from_store, report, >>=_returned, from_store_returned, returned_inj,
}
use juno_exchange_kit.Cli.Setup.{hot}
use juno_exchange_kit.Cli.Quiet.{account_balance_reads}
use juno_exchange_kit.Cli.Sync.Kept.{sync_wallet-IsConsistent}
use juno_exchange_kit.Cli.Account.{Seen, Waiting, Waited, sync_hot, wait_loop}

module _ (c : Waiting) where
  -- A balance at or above the target, which the account has, on books that are right.
  abbrev pub Reached : Waited → World → Type 0
  Reached out w =
      (c.target ≤ℤ out.0)
      × (account_balance c.account_id w.db ≡ (ok out.0, w.db))
      × IsConsistent w.db

  read_balance :
      (w v : World) (balance : ℤ)
      → from_store (account_balance c.account_id) w ≡ (returned balance, v)
      → (v ≡ w) × (account_balance c.account_id w.db ≡ (ok balance, w.db))
  read_balance w v balance h =
      let (db, ran, at) = from_store_returned (account_balance c.account_id) w h in
      let same : db ≡ w.db =
        sym (ap (λ (r : Result ℤ × Db). r.1) ran) ∙ account_balance_reads c.account_id w.db in
      (
        at ∙ ap (λ d. record w { db = d }) same,
        subst (λ d. account_balance c.account_id w.db ≡ (ok balance, d)) same ran,
      )

  report-Reached :
      (balance : ℤ) (lines : List Text) (w v w' : World) (out : Waited)
      → ltb_ℤ balance c.target ≡ false
      → v ≡ w
      → account_balance c.account_id w.db ≡ (ok balance, w.db)
      → IsConsistent w.db
      → report (balance, lines) v ≡ (returned out, w')
      → Reached out w'
  report-Reached balance lines w v w' out e at read books h =
      let (same, stays) = returned_inj h in
      let there : w ≡ w' = sym at ∙ stays in
      let done : Reached (balance, lines) w = (ground arith, read, books) in
      subst (λ o. Reached o w') same (subst (Reached (balance, lines)) there done)

  -- A wait that returns has found a balance that is at least the target, which the account then has; the
  -- synchronisations on the way have kept the books right.
  pub wait_loop-Reached :
      (rounds : ℕ) (seen : Seen) (lines : List Text) (w w' : World) (out : Waited)
      → IsConsistent w.db
      → wait_loop c rounds seen lines w ≡ (returned out, w')
      → Reached out w'
  unfolding wait_loop sync_hot
  wait_loop-Reached zero seen lines w w' out books h = absurd (ground arith)
  wait_loop-Reached (suc rounds) seen lines w w' out books h =
      let (balance, v, e1, h1) =
        >>=_returned (from_store (account_balance c.account_id)) (λ x. _) w h in
      let (at, read) = read_balance w v balance e1 in
      elim (Bool-cases (ltb_ℤ balance c.target)) [
        | inr e ↦ report-Reached balance lines w v w' out e at read books (rw e at h1)
        | inl e ↦
            wait_loop-Reached rounds _ _ (sync_hot c rounds v).1 w' out
              (sync_wallet-IsConsistent (c.scanners rounds) hot c.now c.fuel v.db
                (subst (λ (x : World). IsConsistent x.db) (sym at) books))
              (rw e at h1)
      ]
