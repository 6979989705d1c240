-- ===== src/Lifecycle/Instrument.antt =====
-- The instrument life cycle of src/investment_os/domain/state_machines.py.
pub mod Rules
pub mod Traces
use jz_investment_os.Base.{Bool, true, false, not, List, Outcome, ok, ◌>>◌}
use jz_investment_os.Base.Text.{Text}
use jz_investment_os.Enums.{InstrumentLifecycleState, ThesisState, DomainErrorCode}
use jz_investment_os.Lifecycle.Transition.{
  StateTransition, UtcTimestamp, state_transition, guard, guard_as, start_transition,
}

pub record InstrumentTransitionContext : Type 0 where
  pub screening_passed : Bool
  pub data_sufficient : Bool
  pub risk_passed : Bool
  pub thesis_state : ThesisState
  pub observable_entry_condition : Bool
  pub timing_confirmed : Bool
  pub portfolio_capacity : Bool
  pub policy_passed : Bool
  pub human_approved : Bool
  pub execution_recorded : Bool
  pub reduction_justified : Bool
  pub exit_justified : Bool
  pub position_snapshot_updated : Bool
  pub position_is_zero : Bool
  pub review_date_recorded : Bool
  pub cooldown_elapsed : Bool
  pub new_evidence_or_thesis : Bool
  pub archival_approved : Bool

-- `target in INSTRUMENT_TRANSITIONS.get(current, frozenset())`
instrument_transitions : InstrumentLifecycleState → InstrumentLifecycleState → Bool
instrument_transitions InstrumentLifecycleState.discover InstrumentLifecycleState.watch = true
instrument_transitions InstrumentLifecycleState.watch InstrumentLifecycleState.setup = true
instrument_transitions InstrumentLifecycleState.setup InstrumentLifecycleState.buyable = true
instrument_transitions InstrumentLifecycleState.buyable InstrumentLifecycleState.hold = true
instrument_transitions InstrumentLifecycleState.hold InstrumentLifecycleState.add = true
instrument_transitions InstrumentLifecycleState.hold InstrumentLifecycleState.reduce = true
instrument_transitions InstrumentLifecycleState.hold InstrumentLifecycleState.exit = true
instrument_transitions InstrumentLifecycleState.add InstrumentLifecycleState.hold = true
instrument_transitions InstrumentLifecycleState.add InstrumentLifecycleState.exit = true
instrument_transitions InstrumentLifecycleState.reduce InstrumentLifecycleState.hold = true
instrument_transitions InstrumentLifecycleState.reduce InstrumentLifecycleState.exit = true
instrument_transitions InstrumentLifecycleState.exit InstrumentLifecycleState.cooldown = true
instrument_transitions InstrumentLifecycleState.cooldown InstrumentLifecycleState.watch = true
instrument_transitions InstrumentLifecycleState.cooldown InstrumentLifecycleState.archived = true
instrument_transitions _ _ = false

-- `thesis_state in {VALID, STRENGTHENING}`, and `not in {WEAKENING, BROKEN}`.
abbrev pub is_entry_thesis : ThesisState → Bool
is_entry_thesis ThesisState.valid = true
is_entry_thesis ThesisState.strengthening = true
is_entry_thesis _ = false

abbrev pub is_not_failing : ThesisState → Bool
is_not_failing ThesisState.weakening = false
is_not_failing ThesisState.broken = false
is_not_failing _ = true

-- The `if`/`elif` chain of `transition_instrument`.
instrument_guards :
    InstrumentLifecycleState
    → InstrumentLifecycleState
    → InstrumentTransitionContext
    → Outcome DomainErrorCode (Unit {0})
instrument_guards InstrumentLifecycleState.discover InstrumentLifecycleState.watch c = do
  guard c.screening_passed
  guard c.data_sufficient
  guard c.risk_passed
instrument_guards InstrumentLifecycleState.watch InstrumentLifecycleState.setup c = do
  guard (is_entry_thesis c.thesis_state)
  guard c.observable_entry_condition
instrument_guards InstrumentLifecycleState.setup InstrumentLifecycleState.buyable c = do
  guard c.timing_confirmed
  guard c.portfolio_capacity
  guard c.risk_passed
  guard c.policy_passed
instrument_guards InstrumentLifecycleState.buyable InstrumentLifecycleState.hold c = do
  guard_as DomainErrorCode.human_approval_required c.human_approved
  guard c.execution_recorded
instrument_guards InstrumentLifecycleState.hold InstrumentLifecycleState.add c = do
  guard (is_not_failing c.thesis_state)
  guard c.risk_passed
  guard c.policy_passed
  guard c.portfolio_capacity
instrument_guards InstrumentLifecycleState.hold InstrumentLifecycleState.reduce c =
    guard c.reduction_justified
instrument_guards InstrumentLifecycleState.add InstrumentLifecycleState.hold c = do
  guard c.execution_recorded
  guard c.position_snapshot_updated
instrument_guards InstrumentLifecycleState.reduce InstrumentLifecycleState.hold c = do
  guard c.execution_recorded
  guard c.position_snapshot_updated
instrument_guards _ InstrumentLifecycleState.exit c = guard c.exit_justified
instrument_guards InstrumentLifecycleState.exit InstrumentLifecycleState.cooldown c = do
  guard c.position_is_zero
  guard c.review_date_recorded
instrument_guards InstrumentLifecycleState.cooldown InstrumentLifecycleState.watch c = do
  guard c.cooldown_elapsed
  guard c.new_evidence_or_thesis
instrument_guards InstrumentLifecycleState.cooldown InstrumentLifecycleState.archived c =
    guard c.archival_approved
instrument_guards _ _ c = ok tt

unfoldable pub transition_instrument :
    InstrumentLifecycleState
    → InstrumentLifecycleState
    → InstrumentTransitionContext
    → List Text
    → UtcTimestamp
    → Outcome DomainErrorCode (StateTransition InstrumentLifecycleState)
unfolding start_transition instrument_transitions instrument_guards
transition_instrument current target context reason_codes occurred_at = do
  start_transition (instrument_transitions current target) reason_codes
  instrument_guards current target context
  ok (state_transition current target reason_codes occurred_at)
