-- ===== src/Lifecycle/Decision.antt =====
-- The Decision machine of src/investment_os/domain/state_machines.py.
pub mod Rules
pub mod Traces
use jz_investment_os.Base.{
  Bool, true, false, not, ◌&&◌, Option, none, some, List, Outcome, ok, ◌>>◌,
}
use jz_investment_os.Base.Text.{Text, is_blank}
use jz_investment_os.Enums.{
  Action, DecisionState, RiskGateState, ActorType, DomainErrorCode, is_reduction,
}
use jz_investment_os.Lifecycle.Transition.{
  StateTransition, UtcTimestamp, state_transition, guard, guard_as, start_transition,
}

pub record DecisionTransitionContext : Type 0 where
  pub action : Action
  pub schema_valid : Bool
  pub policy_passed : Bool
  pub data_sufficient : Bool
  pub risk_gate : RiskGateState
  pub risk_reduction_exception_recorded : Bool
  pub approval_actor_type : Option ActorType
  pub approval_actor_id : Option Text
  pub approval_recorded : Bool
  pub approval_unexpired : Bool
  pub approval_revoked : Bool
  pub approval_rejected : Bool
  pub approval_expired : Bool
  pub input_snapshot_matches : Bool
  pub price_within_tolerance : Bool
  pub execution_recorded : Bool
  pub review_due : Bool
  pub review_recorded : Bool

-- The context in which only `action` is given.
abbrev pub decision_context : Action → DecisionTransitionContext
decision_context action = record {
  action = action;
  schema_valid = false;
  policy_passed = false;
  data_sufficient = false;
  risk_gate = RiskGateState.unknown;
  risk_reduction_exception_recorded = false;
  approval_actor_type = none;
  approval_actor_id = none;
  approval_recorded = false;
  approval_unexpired = false;
  approval_revoked = false;
  approval_rejected = false;
  approval_expired = false;
  input_snapshot_matches = false;
  price_within_tolerance = false;
  execution_recorded = false;
  review_due = false;
  review_recorded = false;
}

-- `target in DECISION_TRANSITIONS.get(current, frozenset())`
decision_transitions : DecisionState → DecisionState → Bool
decision_transitions DecisionState.draft DecisionState.validated = true
decision_transitions DecisionState.validated DecisionState.risk_vetoed = true
decision_transitions DecisionState.validated DecisionState.pending_approval = true
decision_transitions DecisionState.pending_approval DecisionState.approved = true
decision_transitions DecisionState.pending_approval DecisionState.rejected = true
decision_transitions DecisionState.pending_approval DecisionState.expired = true
decision_transitions DecisionState.approved DecisionState.execution_pending = true
decision_transitions DecisionState.approved DecisionState.cancelled = true
decision_transitions DecisionState.execution_pending DecisionState.partially_executed = true
decision_transitions DecisionState.execution_pending DecisionState.executed = true
decision_transitions DecisionState.execution_pending DecisionState.cancelled = true
decision_transitions DecisionState.partially_executed DecisionState.executed = true
decision_transitions DecisionState.partially_executed DecisionState.cancelled = true
decision_transitions DecisionState.executed DecisionState.review_due = true
decision_transitions DecisionState.review_due DecisionState.reviewed = true
decision_transitions _ _ = false

-- `context.risk_gate is RiskGateState.VETO`, and `is not RiskGateState.UNKNOWN`.
abbrev pub is_veto : RiskGateState → Bool
is_veto RiskGateState.veto = true
is_veto _ = false

abbrev pub is_assessed : RiskGateState → Bool
is_assessed RiskGateState.unknown = false
is_assessed _ = true

-- `context.approval_actor_type is ActorType.HUMAN`
abbrev pub is_human : Option ActorType → Bool
is_human (some ActorType.human) = true
is_human _ = false

-- `bool(actor_id and actor_id.strip())`
abbrev pub is_named : Option Text → Bool
is_named none = false
is_named (some actor_id) = not (is_blank actor_id)

-- The guard of the risk gate on the way to approval.
veto_guard : RiskGateState → Action → Bool → Outcome DomainErrorCode (Unit {0})
unfolding is_reduction
veto_guard RiskGateState.veto action exception_recorded =
    guard_as DomainErrorCode.risk_veto_blocked (is_reduction action && exception_recorded)
veto_guard _ action exception_recorded = ok tt

-- The `if`/`elif` chain of `transition_decision`.
decision_guards :
    DecisionState → DecisionState → DecisionTransitionContext → Outcome DomainErrorCode (Unit {0})
unfolding veto_guard
decision_guards DecisionState.draft DecisionState.validated c = do
  guard c.schema_valid
  guard c.policy_passed
  guard c.data_sufficient
decision_guards DecisionState.validated DecisionState.risk_vetoed c = guard (is_veto c.risk_gate)
decision_guards DecisionState.validated DecisionState.pending_approval c = do
  guard_as DomainErrorCode.risk_assessment_required (is_assessed c.risk_gate)
  veto_guard c.risk_gate c.action c.risk_reduction_exception_recorded
decision_guards DecisionState.pending_approval DecisionState.approved c =
    guard_as DomainErrorCode.approval_invalid (
      c.approval_recorded
      && is_human c.approval_actor_type
      && is_named c.approval_actor_id
      && c.approval_unexpired)
decision_guards DecisionState.pending_approval DecisionState.rejected c =
    guard_as DomainErrorCode.approval_invalid c.approval_rejected
decision_guards DecisionState.pending_approval DecisionState.expired c =
    guard_as DomainErrorCode.approval_invalid c.approval_expired
decision_guards DecisionState.approved DecisionState.execution_pending c = do
  guard_as DomainErrorCode.approval_invalid c.approval_unexpired
  guard_as DomainErrorCode.approval_invalid (not c.approval_revoked)
  guard c.input_snapshot_matches
  guard c.price_within_tolerance
decision_guards DecisionState.approved DecisionState.cancelled c = guard c.approval_revoked
decision_guards _ DecisionState.partially_executed c = guard c.execution_recorded
decision_guards _ DecisionState.executed c = guard c.execution_recorded
decision_guards DecisionState.executed DecisionState.review_due c = guard c.review_due
decision_guards DecisionState.review_due DecisionState.reviewed c = guard c.review_recorded
decision_guards _ _ c = ok tt

unfoldable pub transition_decision :
    DecisionState
    → DecisionState
    → DecisionTransitionContext
    → List Text
    → UtcTimestamp
    → Outcome DomainErrorCode (StateTransition DecisionState)
unfolding start_transition decision_transitions decision_guards
transition_decision current target context reason_codes occurred_at = do
  start_transition (decision_transitions current target) reason_codes
  decision_guards current target context
  ok (state_transition current target reason_codes occurred_at)
