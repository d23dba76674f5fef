-- ===== src/Txplan/Outcome.antt =====
-- What planning a transaction returns: a value, or one of the errors of internal/txplan and
-- internal/chain.
use juno_exchange_kit.Base.{◌≡◌, refl, subst, Bool, true, false, Option, none, some, arith}

-- Named after their messages; `service_failed` is an error that a remote service returned.
pub data PlanError : Type 0 where
  services_required wallet_required to_address_required : PlanError
  change_address_required outputs_required invalid_output : PlanError
  missing_chain missing_chaintip invalid_chaintip unknown_chain : PlanError
  invalid_chain_height expiry_overflow : PlanError
  no_spendable_notes insufficient_funds notes_required : PlanError
  notes_sum_overflow outputs_sum_overflow fee_overflow amount_overflow : PlanError
  selected_note_missing value_too_large position_too_large : PlanError
  action_out_of_range invalid_action tx_not_found : PlanError
  invalid_witness invalid_anchor_height witness_path_missing : PlanError
  service_failed : PlanError

pub data Outcome {ℓ} (A : Type ℓ) : Type ℓ where
  done : A → Outcome A
  failed : PlanError → Outcome A

infixl 5 ◌>>=◌ ◌>>◌
abbrev pub ◌>>=◌ : {A B : Type 0} → Outcome A → (A → Outcome B) → Outcome B
◌>>=◌ (done a) f = f a
◌>>=◌ (failed e) f = failed e

abbrev pub ◌>>◌ : {A B : Type 0} → Outcome A → Outcome B → Outcome B
m >> k = m >>= λ _. k

abbrev pub fail_if : Bool → PlanError → Outcome (Unit {0})
fail_if true e = failed e
fail_if false e = done tt

abbrev pub or_fail : {A : Type 0} → Option A → PlanError → Outcome A
or_fail none e = failed e
or_fail (some a) e = done a

module _ {A B : Type 0} where
  -- A sequence that returns has returned from both of its parts.
  pub >>=_done :
      (m : Outcome A) (f : A → Outcome B) {b : B}
      → (m >>= f) ≡ done b
      → (a : A) × (m ≡ done a) × (f a ≡ done b)
  >>=_done (done a) f h = (a, refl, h)
  >>=_done (failed e) f h = absurd (ground arith)

module _ {B : Type 0} where
  pub fail_if_done :
      (c : Bool) (e : PlanError) (k : Outcome B) {b : B}
      → (fail_if c e >> k) ≡ done b
      → (c ≡ false) × (k ≡ done b)
  fail_if_done true e k h = absurd (ground arith)
  fail_if_done false e k h = (refl, h)

  pub or_fail_done : (o : Option B) (e : PlanError) {b : B} → or_fail o e ≡ done b → o ≡ some b
  or_fail_done none e h = absurd (ground arith)
  or_fail_done (some a) e h = ground arith

module _ {A B : Type 0} where
  -- What follows a call that is known to return.
  pub >>=_from :
      (m : Outcome A) (f : A → Outcome B) (a : A) (r : Outcome B)
      → m ≡ done a
      → (m >>= f) ≡ r
      → f a ≡ r
  >>=_from (done b) f a r h k = let same : b ≡ a = ground arith in subst (λ x. f x ≡ r) same k
  >>=_from (failed e) f a r h k = absurd (ground arith)
