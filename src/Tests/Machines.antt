-- ===== src/Tests/Machines.antt =====
-- Runs of the Thesis machine, the instrument life cycle and the strategy proposals.
use jz_investment_os.Base.{◌≡◌, ◌↔◌, refl, true, List, [], ◌∷◌, ok, Any}
use jz_investment_os.Base.Text.{Text, codes, is_blank}
use jz_investment_os.Enums.{ActorType, InstrumentLifecycleState, StrategyProposalState, ThesisState}
use jz_investment_os.Lifecycle.Transition.{state_transition, HasReasons}
use jz_investment_os.Lifecycle.Machine.{run}
use jz_investment_os.Lifecycle.Thesis.{ThesisTransitionContext, transition_thesis}
use jz_investment_os.Lifecycle.Thesis.Rules.{
  ThesisRequest, ThesisRule, RecoveryEvidence, thesis_step, transition_thesis_iff,
  recovery_needs_review,
}
use jz_investment_os.Lifecycle.Instrument.{InstrumentTransitionContext, transition_instrument}
use jz_investment_os.Lifecycle.Instrument.Rules.{InstrumentRule, transition_instrument_iff}
use jz_investment_os.Lifecycle.Instrument.Traces.{
  InstrumentRequest, EntryApproval, EntryChecks, instrument_step, position_needs_approval,
  entry_needs_checks,
}
use jz_investment_os.Lifecycle.Strategy.{
  StrategyTransitionContext, needs_authority, transition_strategy_proposal,
}
use jz_investment_os.Lifecycle.Strategy.Rules.{
  StrategyRequest, StrategyRule, HumanDecision, strategy_step, transition_strategy_proposal_iff,
  strategy_needs_human,
}

abbrev explained : List Text
explained = codes "QUARTERLY_REVIEW" ∷ []

abbrev reviewed_evidence : ThesisTransitionContext
reviewed_evidence = record {
  evidence_supports_change = true;
  creates_new_version = true;
  major_new_evidence = true;
  full_review_completed = true;
}

abbrev thesis_request : ThesisState → ThesisRequest
thesis_request target = record {
  target = target;
  context = reviewed_evidence;
  reason_codes = explained;
  occurred_at = 3;
}

abbrev thesis_requests : List ThesisRequest
thesis_requests = thesis_request ThesisState.valid ∷ thesis_request ThesisState.strengthening ∷ []

recovered_run : run thesis_step ThesisState.broken thesis_requests ≡ ok ThesisState.strengthening
unfolding run thesis_step transition_thesis is_blank
recovered_run = refl

recovery_needs_review_example : Any (λ r. RecoveryEvidence r.context) thesis_requests
recovery_needs_review_example =
    recovery_needs_review thesis_requests ThesisState.strengthening recovered_run refl

transition_thesis_iff_example :
    (transition_thesis ThesisState.broken ThesisState.valid reviewed_evidence explained 3
      ≡ ok (state_transition ThesisState.broken ThesisState.valid explained 3))
    ↔ (HasReasons explained × ThesisRule reviewed_evidence ThesisState.broken ThesisState.valid)
transition_thesis_iff_example =
    transition_thesis_iff ThesisState.broken ThesisState.valid reviewed_evidence explained 3

abbrev cleared : InstrumentTransitionContext
cleared = record {
  screening_passed = true;
  data_sufficient = true;
  risk_passed = true;
  thesis_state = ThesisState.valid;
  observable_entry_condition = true;
  timing_confirmed = true;
  portfolio_capacity = true;
  policy_passed = true;
  human_approved = true;
  execution_recorded = true;
  reduction_justified = true;
  exit_justified = true;
  position_snapshot_updated = true;
  position_is_zero = true;
  review_date_recorded = true;
  cooldown_elapsed = true;
  new_evidence_or_thesis = true;
  archival_approved = true;
}

abbrev instrument_request : InstrumentLifecycleState → InstrumentRequest
instrument_request target = record {
  target = target;
  context = cleared;
  reason_codes = explained;
  occurred_at = 4;
}

abbrev instrument_requests : List InstrumentRequest
instrument_requests =
    instrument_request InstrumentLifecycleState.watch
    ∷ instrument_request InstrumentLifecycleState.setup
    ∷ instrument_request InstrumentLifecycleState.buyable
    ∷ instrument_request InstrumentLifecycleState.hold
    ∷ instrument_request InstrumentLifecycleState.add
    ∷ []

added_run :
    run instrument_step InstrumentLifecycleState.discover instrument_requests
    ≡ ok InstrumentLifecycleState.add
unfolding run instrument_step transition_instrument is_blank
added_run = refl

position_needs_approval_example : Any (λ r. EntryApproval r.context) instrument_requests
position_needs_approval_example =
    position_needs_approval instrument_requests InstrumentLifecycleState.discover
      InstrumentLifecycleState.add added_run refl refl

entry_needs_checks_example : Any (λ r. EntryChecks r.context) instrument_requests
entry_needs_checks_example =
    entry_needs_checks instrument_requests InstrumentLifecycleState.discover
      InstrumentLifecycleState.add added_run refl refl

transition_instrument_iff_example :
    (transition_instrument InstrumentLifecycleState.hold InstrumentLifecycleState.add cleared
        explained 4
      ≡ ok
          (state_transition InstrumentLifecycleState.hold InstrumentLifecycleState.add explained 4))
    ↔ (HasReasons explained
        × InstrumentRule cleared InstrumentLifecycleState.hold InstrumentLifecycleState.add)
transition_instrument_iff_example =
    transition_instrument_iff InstrumentLifecycleState.hold InstrumentLifecycleState.add cleared
      explained 4

abbrev signed : StrategyTransitionContext
signed = record {
  actor_type = ActorType.human;
  backtest_recorded = true;
  shadow_result_recorded = true;
  human_decision_recorded = true;
  activation_scheduled = true;
  activation_due = true;
  retirement_approved = true;
}

abbrev strategy_request : StrategyProposalState → StrategyRequest
strategy_request target = record {
  target = target;
  context = signed;
  reason_codes = explained;
  occurred_at = 5;
}

abbrev strategy_requests : List StrategyRequest
strategy_requests =
    strategy_request StrategyProposalState.backtest_pending
    ∷ strategy_request StrategyProposalState.backtested
    ∷ strategy_request StrategyProposalState.shadow_pending
    ∷ strategy_request StrategyProposalState.shadow_validated
    ∷ strategy_request StrategyProposalState.human_review
    ∷ strategy_request StrategyProposalState.approved
    ∷ []

approved_run :
    run strategy_step StrategyProposalState.draft strategy_requests
    ≡ ok StrategyProposalState.approved
unfolding run strategy_step transition_strategy_proposal is_blank
approved_run = refl

strategy_needs_human_example :
    Any (λ r. (needs_authority r.target ≡ true) × HumanDecision r.context) strategy_requests
strategy_needs_human_example =
    strategy_needs_human strategy_requests StrategyProposalState.draft
      StrategyProposalState.approved approved_run refl refl

transition_strategy_proposal_iff_example :
    (transition_strategy_proposal StrategyProposalState.human_review StrategyProposalState.rejected
        signed explained 5
      ≡ ok (
          state_transition StrategyProposalState.human_review StrategyProposalState.rejected
            explained 5))
    ↔ (HasReasons explained
        × StrategyRule signed StrategyProposalState.human_review StrategyProposalState.rejected)
transition_strategy_proposal_iff_example =
    transition_strategy_proposal_iff StrategyProposalState.human_review
      StrategyProposalState.rejected signed explained 5
