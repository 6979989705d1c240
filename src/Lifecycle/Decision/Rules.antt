-- ===== src/Lifecycle/Decision/Rules.antt =====
-- The Decision machine against its rules: which steps are accepted, and on what evidence.
use jz_investment_os.Base.{◌≡◌, ◌↔◌, true, false, some, List, ok, sym, ap, arith}
use jz_investment_os.Base.Text.{Text}
use jz_investment_os.Enums.{DecisionState, RiskGateState, ActorType, is_reduction}
use jz_investment_os.Lifecycle.Transition.{
  StateTransition, UtcTimestamp, state_transition, HasReasons, HasReasons-test, test-HasReasons,
  start_transition, checked_result,
}
use jz_investment_os.Lifecycle.Decision.{
  DecisionTransitionContext, transition_decision, decision_transitions, decision_guards, is_named,
}

-- A human with a name approved, and the approval still runs.
pub record HumanApproval (c : DecisionTransitionContext) : Type 0 where
  pub recorded : c.approval_recorded ≡ true
  pub by_human : c.approval_actor_type ≡ some ActorType.human
  pub named : is_named c.approval_actor_id ≡ true
  pub unexpired : c.approval_unexpired ≡ true

-- The workflow, as a relation.
pub data DecisionRule (c : DecisionTransitionContext) : DecisionState → DecisionState → Type 0 where
  validate :
      c.schema_valid ≡ true
      → c.policy_passed ≡ true
      → c.data_sufficient ≡ true
      → DecisionRule c DecisionState.draft DecisionState.validated
  veto :
      c.risk_gate ≡ RiskGateState.veto
      → DecisionRule c DecisionState.validated DecisionState.risk_vetoed
  submit :
      c.risk_gate ≡ RiskGateState.pass
      → DecisionRule c DecisionState.validated DecisionState.pending_approval
  submit_reduction :
      c.risk_gate ≡ RiskGateState.veto
      → is_reduction c.action ≡ true
      → c.risk_reduction_exception_recorded ≡ true
      → DecisionRule c DecisionState.validated DecisionState.pending_approval
  approve : HumanApproval c → DecisionRule c DecisionState.pending_approval DecisionState.approved
  reject :
      c.approval_rejected ≡ true
      → DecisionRule c DecisionState.pending_approval DecisionState.rejected
  expire :
      c.approval_expired ≡ true
      → DecisionRule c DecisionState.pending_approval DecisionState.expired
  release :
      c.approval_unexpired ≡ true
      → c.approval_revoked ≡ false
      → c.input_snapshot_matches ≡ true
      → c.price_within_tolerance ≡ true
      → DecisionRule c DecisionState.approved DecisionState.execution_pending
  withdraw :
      c.approval_revoked ≡ true → DecisionRule c DecisionState.approved DecisionState.cancelled
  fill_part :
      c.execution_recorded ≡ true
      → DecisionRule c DecisionState.execution_pending DecisionState.partially_executed
  fill :
      c.execution_recorded ≡ true
      → DecisionRule c DecisionState.execution_pending DecisionState.executed
  fill_rest :
      c.execution_recorded ≡ true
      → DecisionRule c DecisionState.partially_executed DecisionState.executed
  drop : DecisionRule c DecisionState.execution_pending DecisionState.cancelled
  drop_rest : DecisionRule c DecisionState.partially_executed DecisionState.cancelled
  mature : c.review_due ≡ true → DecisionRule c DecisionState.executed DecisionState.review_due
  review : c.review_recorded ≡ true → DecisionRule c DecisionState.review_due DecisionState.reviewed

ruleset decision_rules = (
  validate, veto, submit, submit_reduction, approve, reject, expire, release, withdraw, fill_part,
  fill, fill_rest, drop, drop_rest, mature, review,
)

pub transition_decision_sound :
    (s t : DecisionState) (c : DecisionTransitionContext) (rs : List Text) (at : UtcTimestamp)
    {x : StateTransition DecisionState}
    → transition_decision s t c rs at ≡ ok x
    → HasReasons rs × DecisionRule c s t
unfolding transition_decision is_reduction
transition_decision_sound s t c rs at h = grind (arith, test-HasReasons rs, decision_rules)

pub transition_decision_target :
    (s t : DecisionState) (c : DecisionTransitionContext) (rs : List Text) (at : UtcTimestamp)
    {x : StateTransition DecisionState}
    → transition_decision s t c rs at ≡ ok x
    → x.to_state ≡ t
unfolding transition_decision
transition_decision_target s t c rs at h = sym (
    ap (λ y. y.to_state)
      (checked_result (start_transition (decision_transitions s t) rs) (decision_guards s t c)
        (state_transition s t rs at) h))

pub transition_decision_complete :
    (s t : DecisionState) (c : DecisionTransitionContext) (rs : List Text) (at : UtcTimestamp)
    → HasReasons rs
    → DecisionRule c s t
    → transition_decision s t c rs at ≡ ok (state_transition s t rs at)
unfolding transition_decision is_reduction
transition_decision_complete s t c rs at h (validate x y z) = ground (arith, HasReasons-test rs h)
transition_decision_complete s t c rs at h (veto x) = ground (arith, HasReasons-test rs h)
transition_decision_complete s t c rs at h (submit x) = ground (arith, HasReasons-test rs h)
transition_decision_complete s t c rs at h (submit_reduction x y z) =
    ground (arith, HasReasons-test rs h)
transition_decision_complete s t c rs at h (approve a) = ground (arith, HasReasons-test rs h)
transition_decision_complete s t c rs at h (reject x) = ground (arith, HasReasons-test rs h)
transition_decision_complete s t c rs at h (expire x) = ground (arith, HasReasons-test rs h)
transition_decision_complete s t c rs at h (release x y z w) = ground (arith, HasReasons-test rs h)
transition_decision_complete s t c rs at h (withdraw x) = ground (arith, HasReasons-test rs h)
transition_decision_complete s t c rs at h (fill_part x) = ground (arith, HasReasons-test rs h)
transition_decision_complete s t c rs at h (fill x) = ground (arith, HasReasons-test rs h)
transition_decision_complete s t c rs at h (fill_rest x) = ground (arith, HasReasons-test rs h)
transition_decision_complete s t c rs at h drop = ground (arith, HasReasons-test rs h)
transition_decision_complete s t c rs at h drop_rest = ground (arith, HasReasons-test rs h)
transition_decision_complete s t c rs at h (mature x) = ground (arith, HasReasons-test rs h)
transition_decision_complete s t c rs at h (review x) = ground (arith, HasReasons-test rs h)

-- A Decision transition is accepted, with the record of exactly that step, if and only if it is
-- explained by reasons of which none is blank and the context meets a rule of the workflow for
-- that pair of states.
pub transition_decision_iff :
    (s t : DecisionState) (c : DecisionTransitionContext) (rs : List Text) (at : UtcTimestamp)
    → (transition_decision s t c rs at ≡ ok (state_transition s t rs at))
      ↔ (HasReasons rs × DecisionRule c s t)
transition_decision_iff s t c rs at = (
  λ h. transition_decision_sound s t c rs at h,
  λ h. transition_decision_complete s t c rs at h.0 h.1,
)
