-- ===== src/Cli/Sweep/Batch.antt =====
-- A sweep signs every transaction before it sends the first, sends them in order, and leaves the books.
use juno_exchange_kit.Base.{◌≡◌, ◌⊎◌, refl, ap, sym, inl, inr, ◌∙◌, List, [], ◌∷◌, ◌++◌, map}
use juno_exchange_kit.Base.Text.{Text}
use mathlib.Core.List.{append_assoc, append-nil}
use juno_exchange_kit.Txplan.Prepare.{TxPlan}
use juno_exchange_kit.Cli.Command.{World, returned, After-settle, After-bind}
use juno_exchange_kit.Cli.Config.{Host, Broadcaster}
use juno_exchange_kit.Cli.Withdraw.Sent.{After-submit}
use juno_exchange_kit.Cli.Sweep.{
  SweepFlags, SweepDeps, Signed, sign_all, submit_all, wait_all, sweep_plans,
}

abbrev pub raws : List Signed → List Text
raws = map (λ (s : Signed). s.0)

-- The transactions sent are a front of `all`, which stand behind those sent before.
pub record SentFront (w w' : World) (all : List Text) : Type 0 where
  pub sent : List Text
  pub rest : List Text
  pub front : all ≡ sent ++ rest
  pub behind : w'.submitted ≡ w.submitted ++ sent
  pub same_db : w'.db ≡ w.db

SentFront-none : (w : World) (all : List Text) → SentFront w w all
SentFront-none w all = record {
  sent = [];
  rest = all;
  front = refl;
  behind = sym (append-nil w.submitted);
  same_db = refl;
}

SentFront-more :
    (w : World) (raw : Text) (v : World) (all : List Text)
    → SentFront (record w { submitted = w.submitted ++ raw ∷ [] }) v all
    → SentFront w v (raw ∷ all)
SentFront-more w raw v all f = record {
  sent = raw ∷ f.sent;
  rest = f.rest;
  front = ap (λ xs. raw ∷ xs) f.front;
  behind = f.behind ∙ append_assoc w.submitted (raw ∷ []) f.sent;
  same_db = f.same_db;
}

-- However the loop ends, what it sent is a front of the signed transactions.
submit_all-SentFront :
    (b : Broadcaster) (signed : List Signed) (w : World)
    → SentFront w (submit_all b signed w).1 (raws signed)
unfolding submit_all
submit_all-SentFront b [] w = SentFront-none w []
submit_all-SentFront b ((raw, fee) ∷ signed) w =
    After-submit (λ v. SentFront w v (raw ∷ raws signed)) b raw _ w (SentFront-none w _)
      λ txid.
        let out : World = record w { submitted = w.submitted ++ raw ∷ [] } in
        After-bind (λ v. SentFront w v (raw ∷ raws signed)) (submit_all b signed) _ out
          (SentFront-more w raw _ (raws signed) (submit_all-SentFront b signed out)) λ rest v _ k. k

-- What a sweep of some plans may do: nothing, or send a front of the signed transactions, when all plans
-- are signed.
abbrev pub SendsSigned : Host → SweepDeps → List TxPlan → World → World → Type 0
SendsSigned host d plans w w' =
    (w' ≡ w)
    ⊎ ((signed : List Signed) × (sign_all host d.txsign_bin d.hot_seed_path plans ≡ returned signed)
        × SentFront w w' (raws signed))

pub sweep_plans-SendsSigned :
    (host : Host) (flags : SweepFlags) (d : SweepDeps) (plans : List TxPlan) (w : World)
    → SendsSigned host d plans w (sweep_plans host flags d plans w).1
unfolding sweep_plans
sweep_plans-SendsSigned host flags d plans w =
    let P = SendsSigned host d plans w in
    let b = d.services.broadcaster in
    After-settle P (sign_all host d.txsign_bin d.hot_seed_path plans) _ w (inl refl) λ signed e.
      After-bind P (submit_all b signed) _ w (inr (signed, e, submit_all-SentFront b signed w))
        λ sent v _ k. After-settle P (wait_all b flags.wait_confirmations sent) _ v k λ _ _. k
