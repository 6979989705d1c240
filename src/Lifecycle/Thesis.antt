-- ===== src/Lifecycle/Thesis.antt =====
-- The Thesis machine of src/investment_os/domain/state_machines.py.
pub mod Rules
use jz_investment_os.Base.{Bool, true, false, List, Outcome, ok, ◌>>◌}
use jz_investment_os.Base.Text.{Text}
use jz_investment_os.Enums.{ThesisState, DomainErrorCode}
use jz_investment_os.Lifecycle.Transition.{
  StateTransition, UtcTimestamp, state_transition, guard, start_transition,
}

pub record ThesisTransitionContext : Type 0 where
  pub evidence_supports_change : Bool
  pub creates_new_version : Bool
  pub major_new_evidence : Bool
  pub full_review_completed : Bool

-- `target in THESIS_TRANSITIONS.get(current, frozenset())`
thesis_transitions : ThesisState → ThesisState → Bool
thesis_transitions ThesisState.unknown ThesisState.valid = true
thesis_transitions ThesisState.valid ThesisState.strengthening = true
thesis_transitions ThesisState.valid ThesisState.weakening = true
thesis_transitions ThesisState.strengthening ThesisState.valid = true
thesis_transitions ThesisState.strengthening ThesisState.weakening = true
thesis_transitions ThesisState.weakening ThesisState.broken = true
thesis_transitions ThesisState.broken ThesisState.valid = true
thesis_transitions _ _ = false

-- The guards of `transition_thesis`; the last two are those of a recovery.
recovery_guards :
    ThesisState → ThesisState → ThesisTransitionContext → Outcome DomainErrorCode (Unit {0})
recovery_guards ThesisState.broken ThesisState.valid c = do
  guard c.major_new_evidence
  guard c.full_review_completed
recovery_guards _ _ c = ok tt

thesis_guards :
    ThesisState → ThesisState → ThesisTransitionContext → Outcome DomainErrorCode (Unit {0})
unfolding recovery_guards
thesis_guards current target c = do
  guard c.creates_new_version
  guard c.evidence_supports_change
  recovery_guards current target c

unfoldable pub transition_thesis :
    ThesisState
    → ThesisState
    → ThesisTransitionContext
    → List Text
    → UtcTimestamp
    → Outcome DomainErrorCode (StateTransition ThesisState)
unfolding start_transition thesis_transitions thesis_guards
transition_thesis current target context reason_codes occurred_at = do
  start_transition (thesis_transitions current target) reason_codes
  thesis_guards current target context
  ok (state_transition current target reason_codes occurred_at)
