-- ===== src/Policy/Version.antt =====
-- The constructors of src/investment_os/domain/policy.py against what they accept.
use jz_investment_os.Base.{
  ◌≡◌, ◌≢◌, ◌↔◌, ◌≤◌, refl, true, Option, none, some, List, [], ◌∷◌, ok, ◌⊎◌, arith, All, all,
}
use jz_investment_os.Base.Decimal.{pos, d1, ◌+ℤ◌, ◌≤ℤ◌, eq_of_parts}
use jz_investment_os.Enums.{ActorType, PolicyStatus, ThesisState}
use jz_investment_os.Lifecycle.Transition.{UtcTimestamp}
use jz_investment_os.Lifecycle.Decision.{is_named}
use jz_investment_os.Policy.{
  PositionPolicy, position_policy, EntryPolicy, entry_policy, may_enter, PolicyVersion,
  policy_version,
}

-- Who put an ACTIVE policy into force, and when.
pub record HumanActivation (v : PolicyVersion) : Type 0 where
  pub named : is_named v.approved_by ≡ true
  pub by_human : v.approved_by_actor ≡ some ActorType.human
  pub approved : UtcTimestamp
  pub approved_then : v.approved_at ≡ some approved
  pub effective : UtcTimestamp
  pub effective_then : v.effective_from ≡ some effective
  pub in_order : approved ≤ effective

activation_cases :
    (v : PolicyVersion) (f g : Option UtcTimestamp)
    → v.approved_at ≡ f
    → v.effective_from ≡ g
    → policy_version v ≡ ok v
    → v.policy.status ≡ PolicyStatus.active
    → HumanActivation v
unfolding policy_version
activation_cases v none g e f h s = absurd (ground arith)
activation_cases v (some a) none e f h s = absurd (ground arith)
activation_cases v (some a) (some b) e f h s = record {
  named = ground arith;
  by_human = ground arith;
  approved = a;
  approved_then = e;
  effective = b;
  effective_then = f;
  in_order = ground arith;
}

version_cases :
    (p : PolicyStatus) (v : PolicyVersion)
    → v.policy.status ≡ p
    → ¬ (v.version ≤ℤ pos 0)
    → (v.policy.status ≡ PolicyStatus.active → HumanActivation v)
    → policy_version v ≡ ok v
unfolding policy_version
version_cases PolicyStatus.active v e n h = ground (arith, h e)
version_cases _ v e n h = ground arith

-- A policy version is accepted exactly if its number is positive and, where its policy is ACTIVE,
-- a named human approved it at a recorded time and it takes effect no earlier than that.
pub policy_version_iff :
    (v : PolicyVersion)
    → (policy_version v ≡ ok v)
      ↔ (¬ (v.version ≤ℤ pos 0) × (v.policy.status ≡ PolicyStatus.active → HumanActivation v))
unfolding policy_version
policy_version_iff v = (
  λ h. (ground arith, activation_cases v v.approved_at v.effective_from refl refl h),
  λ h. version_cases v.policy.status v refl h.0 h.1,
)

-- A position policy is accepted exactly if the instrument limit is within the sector limit, the
-- sector limit within the gross limit, and the Core and Tactical ratios sum to one.
position_policy_iff :
    (p : PositionPolicy)
    → (position_policy p ≡ ok p) ↔ (
        (p.single_instrument_max.value ≤ℤ p.sector_max.value)
        × (p.sector_max.value ≤ℤ p.gross_exposure_max.value)
        × (p.core_ratio_target.value +ℤ p.tactical_ratio_target.value ≡ d1))
unfolding position_policy
position_policy_iff p = (
  λ h. ground (arith, eq_of_parts (p.core_ratio_target.value +ℤ p.tactical_ratio_target.value) d1),
  λ h. ground arith,
)

may_enter-all :
    (ss : List ThesisState)
    → (all may_enter ss ≡ true)
      ↔ All (λ s. (s ≡ ThesisState.valid) ⊎ (s ≡ ThesisState.strengthening)) ss
may_enter-all [] = (λ h. tt, λ h. refl)
may_enter-all (s ∷ ss) =
    let (to, from) = may_enter-all ss in (λ h. ground (arith, to), λ h. ground (arith, from h.1))

-- An entry policy is accepted exactly if it names thesis states, only VALID and STRENGTHENING ones,
-- and wants a Risk PASS and portfolio capacity.
entry_policy_iff :
    (p : EntryPolicy)
    → (entry_policy p ≡ ok p) ↔ (
        (p.require_thesis_states ≢ [])
        × All
            (λ s. (s ≡ ThesisState.valid) ⊎ (s ≡ ThesisState.strengthening))
            p.require_thesis_states
        × (p.require_risk_pass ≡ true)
        × (p.require_portfolio_capacity ≡ true))
unfolding entry_policy
entry_policy_iff p =
    let (to, from) = may_enter-all p.require_thesis_states in
    (λ h. ground (arith, to), λ h. ground (arith, from))
