-- ===== src/Tests/Decisions.antt =====
-- A Decision that is approved and executed, and the rules and gates around it.
use jz_investment_os.Base.{
  ◌+◌, ◌-◌, ◌≤◌, ◌≡◌, ◌≢◌, ◌↔◌, ◌⊎◌, refl, true, false, some, List, [], ◌∷◌, ok, err, length, Any,
}
use jz_investment_os.Base.Text.{Text, codes, is_blank}
use jz_investment_os.Enums.{
  Action, ActorType, DecisionState, DomainErrorCode, RiskGateState, ThesisState, is_increase,
  is_reduction,
}
use jz_investment_os.Lifecycle.Transition.{state_transition, HasReasons}
use jz_investment_os.Lifecycle.Machine.{run}
use jz_investment_os.Lifecycle.Decision.{
  DecisionTransitionContext, decision_context, transition_decision,
}
use jz_investment_os.Lifecycle.Decision.Rules.{HumanApproval, DecisionRule, transition_decision_iff}
use jz_investment_os.Lifecycle.Decision.Traces.{
  DecisionRequest, ReleaseChecks, decision_step, past_approval_needs_human, released_needs_checks,
  run_decision_bounded, progress,
}
use jz_investment_os.Cio.{
  GateOutcome, CioAggregationInput, aggregate_cio_recommendation, thesis_outcome,
}
use jz_investment_os.Cio.Gates.{AllPassed, InputsPass, increase_iff, fallback_action}
use jz_investment_os.Risk.{
  RiskFlag, RiskFlagKind, RiskSeverity, RiskAssessment, gate, permits_action,
}
use jz_investment_os.Base.Decimal.{pos}
use jz_investment_os.Risk.Gate.{OnlySoft, permits_action_iff}

abbrev passing : DecisionTransitionContext
passing = record (decision_context Action.buy) {
  schema_valid = true;
  policy_passed = true;
  data_sufficient = true;
  risk_gate = RiskGateState.pass;
  approval_actor_type = some ActorType.human;
  approval_actor_id = some (codes "anna");
  approval_recorded = true;
  approval_unexpired = true;
  input_snapshot_matches = true;
  price_within_tolerance = true;
  execution_recorded = true;
}

abbrev reasons : List Text
reasons = codes "IC_APPROVED" ∷ []

abbrev request : DecisionState → DecisionRequest
request target = record {
  target = target;
  context = passing;
  reason_codes = reasons;
  occurred_at = 7;
}

abbrev requests : List DecisionRequest
requests =
    request DecisionState.validated
    ∷ request DecisionState.pending_approval
    ∷ request DecisionState.approved
    ∷ request DecisionState.execution_pending
    ∷ request DecisionState.executed
    ∷ []

executed_run : run decision_step DecisionState.draft requests ≡ ok DecisionState.executed
unfolding run decision_step transition_decision is_blank
executed_run = refl

blank_reason_test :
    transition_decision DecisionState.draft DecisionState.validated passing (codes "  " ∷ []) 7
    ≡ err DomainErrorCode.reason_required
unfolding transition_decision is_blank
blank_reason_test = refl

past_approval_needs_human_example : Any (λ r. HumanApproval r.context) requests
past_approval_needs_human_example =
    past_approval_needs_human requests DecisionState.executed executed_run refl

released_needs_checks_example :
    Any (λ r. (r.target ≡ DecisionState.execution_pending) × ReleaseChecks r.context) requests
released_needs_checks_example =
    released_needs_checks requests DecisionState.draft DecisionState.executed executed_run refl refl

run_decision_bounded_example :
    (progress DecisionState.draft + length requests ≤ progress DecisionState.executed)
    × (length requests ≤ 8 - progress DecisionState.draft)
run_decision_bounded_example =
    run_decision_bounded DecisionState.draft DecisionState.executed requests executed_run

transition_decision_iff_example :
    (transition_decision DecisionState.pending_approval DecisionState.approved passing reasons 7
      ≡ ok (state_transition DecisionState.pending_approval DecisionState.approved reasons 7))
    ↔ (HasReasons reasons
        × DecisionRule passing DecisionState.pending_approval DecisionState.approved)
transition_decision_iff_example =
    transition_decision_iff DecisionState.pending_approval DecisionState.approved passing reasons 7

abbrev buying : CioAggregationInput
buying = record {
  proposed_action = Action.buy;
  investment_quality = GateOutcome.pass;
  thesis_state = ThesisState.strengthening;
  timing = GateOutcome.pass;
  portfolio_fit = GateOutcome.unknown;
  risk_gate = RiskGateState.pass;
  policy_passed = true;
  data_sufficient = true;
}

buying_test : (aggregate_cio_recommendation buying).action ≡ Action.watch
unfolding aggregate_cio_recommendation
buying_test = refl

increase_iff_example :
    let r = aggregate_cio_recommendation buying in
    ((is_increase r.action ≡ true) ↔ ((is_increase Action.buy ≡ true) × InputsPass buying))
    × (InputsPass buying → r.action ≡ Action.buy)
    × (AllPassed r ↔ InputsPass buying)
increase_iff_example = increase_iff buying

fallback_action_example :
    let r = aggregate_cio_recommendation buying in
    (is_increase Action.buy ≡ false → r.action ≡ Action.buy)
    × (is_increase Action.buy ≡ true
        → (GateOutcome.pass ≢ GateOutcome.pass)
          ⊎ (thesis_outcome ThesisState.strengthening ≢ GateOutcome.pass)
        → r.action ≡ Action.avoid)
    × (is_increase Action.buy ≡ true
        → GateOutcome.pass ≡ GateOutcome.pass
        → thesis_outcome ThesisState.strengthening ≡ GateOutcome.pass
        → ¬ AllPassed r
        → r.action ≡ Action.watch)
fallback_action_example = fallback_action buying

abbrev flag : RiskFlagKind → RiskFlag
flag kind = record {
  code = codes "LEVERAGE";
  kind = kind;
  severity = RiskSeverity.high;
  evidence_ids = 4 ∷ [];
  release_condition = codes "DEBT_BELOW_LIMIT";
}

abbrev assessment : RiskAssessment
assessment = record {
  id = 1;
  version = pos 1;
  as_of = 5;
  expires_at = 9;
  flags = flag RiskFlagKind.soft ∷ flag RiskFlagKind.hard ∷ [];
}

vetoed_test : gate assessment ≡ RiskGateState.veto
unfolding gate
vetoed_test = refl

permits_action_iff_example :
    (permits_action assessment Action.exit ≡ true)
    ↔ (OnlySoft assessment.flags ⊎ (is_reduction Action.exit ≡ true))
permits_action_iff_example = permits_action_iff assessment Action.exit
