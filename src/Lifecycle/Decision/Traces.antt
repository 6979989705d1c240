-- ===== src/Lifecycle/Decision/Traces.antt =====
-- Histories of the Decision machine: what must have happened on the way to a state, and how long
-- a history can be.
use jz_investment_os.Base.{
  ℕ, ◌+◌, ◌-◌, ◌≤◌, ◌<◌, ◌≡◌, refl, Bool, true, false, subst, sym, ◌∙◌, List, Outcome, ok, ◌>>=◌,
  >>=-eq-ok, arith, length, Any,
}
use jz_investment_os.Enums.{DecisionState, DomainErrorCode}
use jz_investment_os.Lifecycle.Machine.{Request, run, run_crossing, run_climb}
use jz_investment_os.Lifecycle.Decision.{DecisionTransitionContext, transition_decision}
use jz_investment_os.Lifecycle.Decision.Rules.{
  HumanApproval, DecisionRule, transition_decision_sound, transition_decision_target, validate,
  approve, release,
}

abbrev pub DecisionRequest : Type 0
DecisionRequest = Request DecisionState DecisionTransitionContext

unfoldable pub decision_step :
    DecisionState → DecisionRequest → Outcome DomainErrorCode DecisionState
decision_step s r = do
  x ← transition_decision s r.target r.context r.reason_codes r.occurred_at
  ok x.to_state

-- An accepted step obeys a rule.
decision_step-rule :
    (s : DecisionState) (r : DecisionRequest) (t : DecisionState)
    → decision_step s r ≡ ok t
    → DecisionRule r.context s t
unfolding decision_step
decision_step-rule s r t h =
    let (x, e, f) = >>=-eq-ok (transition_decision s r.target r.context r.reason_codes _) _ h in
    let (reasons, rule) = transition_decision_sound s r.target r.context r.reason_codes _ e in
    subst (DecisionRule r.context s)
      (cc (transition_decision_target s r.target r.context r.reason_codes _ e)) rule

-- An accepted step goes to its target.
decision_step-target :
    (s : DecisionState) (r : DecisionRequest) (t : DecisionState)
    → decision_step s r ≡ ok t
    → t ≡ r.target
unfolding decision_step
decision_step-target s r t h =
    let (x, e, f) = >>=-eq-ok (transition_decision s r.target r.context r.reason_codes _) _ h in
    cc (transition_decision_target s r.target r.context r.reason_codes _ e)

-- The states behind the approval gate.
abbrev pub is_past_approval : DecisionState → Bool
is_past_approval DecisionState.approved = true
is_past_approval DecisionState.execution_pending = true
is_past_approval DecisionState.partially_executed = true
is_past_approval DecisionState.executed = true
is_past_approval DecisionState.cancelled = true
is_past_approval DecisionState.review_due = true
is_past_approval DecisionState.reviewed = true
is_past_approval _ = false

approval_border :
    {c : DecisionTransitionContext} {s t : DecisionState}
    → DecisionRule c s t
    → is_past_approval s ≡ false
    → is_past_approval t ≡ true
    → HumanApproval c
approval_border (approve a) o i = a
approval_border (validate _ _ _) o i = cc
approval_border _ o i = cc

-- A Decision that starts as a draft and ends approved, in or behind execution, cancelled or in
-- review was on the way approved by a named human, by a recorded approval that had not expired.
pub past_approval_needs_human :
    (rs : List DecisionRequest) (u : DecisionState)
    → run decision_step DecisionState.draft rs ≡ ok u
    → is_past_approval u ≡ true
    → Any (λ r. HumanApproval r.context) rs
past_approval_needs_human rs u h i =
    run_crossing decision_step is_past_approval (λ r. HumanApproval r.context)
      (λ s r t e o p. approval_border (decision_step-rule s r t e) o p) rs DecisionState.draft u h
      refl i

-- The states that an execution can reach and nothing else can.
abbrev pub is_released : DecisionState → Bool
is_released DecisionState.execution_pending = true
is_released DecisionState.partially_executed = true
is_released DecisionState.executed = true
is_released DecisionState.review_due = true
is_released DecisionState.reviewed = true
is_released _ = false

-- What was checked again when an approved Decision was handed over for execution.
pub record ReleaseChecks (c : DecisionTransitionContext) : Type 0 where
  pub unexpired : c.approval_unexpired ≡ true
  pub unrevoked : c.approval_revoked ≡ false
  pub same_inputs : c.input_snapshot_matches ≡ true
  pub same_price : c.price_within_tolerance ≡ true

release_border :
    {c : DecisionTransitionContext} {s t : DecisionState}
    → DecisionRule c s t
    → is_released s ≡ false
    → is_released t ≡ true
    → (t ≡ DecisionState.execution_pending) × ReleaseChecks c
release_border (release a b d e) o i =
    (refl, record { unexpired = a; unrevoked = b; same_inputs = d; same_price = e })
release_border (validate _ _ _) o i = cc
release_border _ o i = cc

-- A Decision that has not been released, in whatever state that is, and that is released at the end
-- was asked on the way to become EXECUTION_PENDING by a request that states itself that the approval
-- is neither expired nor revoked, that the inputs are the approved ones and that the price is within
-- the tolerance.
pub released_needs_checks :
    (rs : List DecisionRequest) (s u : DecisionState)
    → run decision_step s rs ≡ ok u
    → is_released s ≡ false
    → is_released u ≡ true
    → Any (λ r. (r.target ≡ DecisionState.execution_pending) × ReleaseChecks r.context) rs
released_needs_checks rs s u h o i =
    run_crossing decision_step is_released
      (λ r. (r.target ≡ DecisionState.execution_pending) × ReleaseChecks r.context)
      (λ v r t e p q.
        let (pending, checks) = release_border (decision_step-rule v r t e) p q in
        (sym (decision_step-target v r t e) ∙ pending, checks))
      rs s u h o i

-- How far a state is along the workflow.
abbrev pub progress : DecisionState → ℕ
progress DecisionState.draft = 0
progress DecisionState.validated = 1
progress DecisionState.pending_approval = 2
progress DecisionState.risk_vetoed = 8
progress DecisionState.approved = 3
progress DecisionState.rejected = 8
progress DecisionState.expired = 8
progress DecisionState.execution_pending = 4
progress DecisionState.partially_executed = 5
progress DecisionState.executed = 6
progress DecisionState.cancelled = 8
progress DecisionState.review_due = 7
progress DecisionState.reviewed = 8

rule_climbs :
    {c : DecisionTransitionContext} {s t : DecisionState}
    → DecisionRule c s t
    → progress s < progress t
rule_climbs (validate _ _ _) = omega arith
rule_climbs _ = omega arith

progress-le : (s : DecisionState) → progress s ≤ 8
progress-le DecisionState.draft = omega arith
progress-le _ = omega arith

-- Every accepted transition moves a Decision forward, so that from a state `s` at most
-- `8 - progress s` more are accepted: a Decision never returns to a state, and the four final
-- outcomes and `REVIEWED` (progress 8) are left by none.
pub run_decision_bounded :
    (s u : DecisionState) (rs : List DecisionRequest)
    → run decision_step s rs ≡ ok u
    → (progress s + length rs ≤ progress u) × (length rs ≤ 8 - progress s)
run_decision_bounded s u rs h =
    let climb : progress s + length rs ≤ progress u =
      run_climb decision_step progress (λ v r t e. rule_climbs (decision_step-rule v r t e)) rs s u
        h in
    (climb, omega (arith, climb, progress-le u))
