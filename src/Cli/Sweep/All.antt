-- ===== src/Cli/Sweep/All.antt =====
-- A sweep that returns has sent every transaction of its plans; no sweep touches the books.
use juno_exchange_kit.Base.{sym, subst, inl, inr, true, false, List, map, if◌then◌else◌}
use juno_exchange_kit.Base.Int.{ℤ}
use juno_exchange_kit.Base.Text.{Text, codes}
use juno_exchange_kit.Store.Wallets.{next_internal_address}
use juno_exchange_kit.Store.Ledger.Untouched.{SameBooks, next_internal_address-SameBooks}
use juno_exchange_kit.Txplan.Prepare.{TxPlan}
use juno_exchange_kit.Cli.Command.{
  World, Ended, returned, exited, Cmd, ◌>>=◌, from_store, After, After-exit_if, After-or_exit,
  After-settle, After-bind, After-then, missing_config, no_data_dir, keys_failed,
}
use juno_exchange_kit.Cli.Config.{Host, resolved_data_dir}
use juno_exchange_kit.Cli.Setup.{hot, cold, stored_hrp, stored_coin_type, stored_wallet, connect}
use juno_exchange_kit.Cli.Quiet.{
  Quiet, Quiet-refl, from_store-Quiet, stored_hrp-Quiet, stored_coin_type-Quiet,
  stored_wallet-Quiet, connect-Quiet,
}
use juno_exchange_kit.Cli.Sweep.{
  SweepFlags, SweepDeps, Signed, as_missing, load_deps, load_sweep_deps, plans_to, sweep_plans,
  run_sweep_consolidate, run_sweep_to_cold,
}
use juno_exchange_kit.Cli.Sweep.Batch.{sweep_plans-SendsSigned}

abbrev pub fees : List Signed → List ℤ
fees = map (λ (s : Signed). s.1)

as_missing-After :
    {A : Type 0} (P : World → Type 0) (r : Ended A × World) → P r.1 → P (as_missing r).1
as_missing-After P (returned a, w) p = p
as_missing-After P (exited e, w) p = p

module _ (host : Host) (flags : SweepFlags) (w : World) where
  load_sweep_deps-Quiet :
      (dir : Text) (v : World) → Quiet w v → After (Quiet w) (load_sweep_deps host flags dir) v
  unfolding load_sweep_deps load_deps
  load_sweep_deps-Quiet dir v q =
      let P = Quiet w in
      as_missing-After P (load_deps host flags dir v) (
        After-exit_if P (if host.opens dir then false else true) _ _ v q λ _.
          After-bind P stored_hrp _ v (stored_hrp-Quiet w v q) λ hrp v1 _ q1.
            After-bind P stored_coin_type _ v1 (stored_coin_type-Quiet w v1 q1) λ coin v2 _ q2.
              After-bind P (stored_wallet hot missing_config) _ v2
                (stored_wallet-Quiet w hot missing_config v2 q2)
                λ row v3 _ q3.
                  After-bind P (stored_wallet cold missing_config) _ v3
                    (stored_wallet-Quiet w cold missing_config v3 q3)
                    λ row' v4 _ q4.
                      After-bind P (connect host flags.rpc flags.services) _ v4
                        (connect-Quiet w host flags.rpc flags.services v4 q4) λ _ v5 _ q5. q5)

  sweep_plans-SameBooks :
      (d : SweepDeps) (plans : List TxPlan) (v : World)
      → SameBooks w.db v.db
      → SameBooks w.db (sweep_plans host flags d plans v).1.db
  sweep_plans-SameBooks d plans v s = elim (sweep_plans-SendsSigned host flags d plans v) [
    | inl e ↦ subst (λ (x : World). SameBooks w.db x.db) (sym e) s
    | inr (signed, all, f) ↦ subst (SameBooks w.db) (sym f.same_db) s
  ]

  after_deps :
      {A : Type 0} (dir : Text) (f : SweepDeps → Cmd A)
      → ((d : SweepDeps) (v : World) → Quiet w v → SameBooks w.db (f d v).1.db)
      → SameBooks w.db ((load_sweep_deps host flags dir >>= f) w).1.db
  after_deps dir f h =
      After-then (Quiet w) (λ v. SameBooks w.db v.db) (load_sweep_deps host flags dir) f w
        (load_sweep_deps-Quiet dir w (Quiet-refl w)) (λ v q. q.books) λ d v _ q. h d v q

-- Neither sweep, however it ends, changes a balance, a deposit or a withdrawal.
pub run_sweeps-SameBooks :
    (host : Host) (flags : SweepFlags) (w : World)
    → SameBooks w.db (run_sweep_consolidate host flags w).1.db
      × SameBooks w.db (run_sweep_to_cold host flags w).1.db
unfolding run_sweep_consolidate run_sweep_to_cold
run_sweeps-SameBooks host flags w =
    let P = λ (v : World). SameBooks w.db v.db in
    let dir = resolved_data_dir host flags.data_dir in
    let start = (Quiet-refl w).books in
    (
      After-or_exit P dir no_data_dir _ w start λ dir _. after_deps host flags w dir _ λ d v q.
          let call =
            next_internal_address hot
              (host.address_from_ufvk d.hot_wallet_ufvk d.ua_hrp (codes "internal")) in
          After-then (Quiet w) P (from_store call) _ v
            (from_store-Quiet w call v q (next_internal_address-SameBooks hot _ v.db))
            (λ x k. k.books)
            λ to v1 _ q1.
              After-settle P (plans_to flags d to) _ v1 q1.books
                λ plans _. sweep_plans-SameBooks host flags w d plans v1 q1.books,
      After-or_exit P dir no_data_dir _ w start λ dir _. after_deps host flags w dir _ λ d v q.
          After-or_exit P (host.address_from_ufvk d.cold_wallet_ufvk d.ua_hrp (codes "external") 0)
            keys_failed _ v q.books
            λ to _.
              After-settle P (plans_to flags d to) _ v q.books
                λ plans _. sweep_plans-SameBooks host flags w d plans v q.books,
    )
