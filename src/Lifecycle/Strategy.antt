-- ===== src/Lifecycle/Strategy.antt =====
-- The strategy proposals of src/investment_os/domain/state_machines.py.
pub mod Rules
use jz_investment_os.Base.{Bool, true, false, ◌&&◌, List, Outcome, ok, ◌>>◌, reject_if}
use jz_investment_os.Base.Text.{Text}
use jz_investment_os.Enums.{StrategyProposalState, ActorType, DomainErrorCode}
use jz_investment_os.Lifecycle.Transition.{
  StateTransition, UtcTimestamp, state_transition, guard, guard_as, start_transition,
}

pub record StrategyTransitionContext : Type 0 where
  pub actor_type : ActorType
  pub backtest_recorded : Bool
  pub shadow_result_recorded : Bool
  pub human_decision_recorded : Bool
  pub activation_scheduled : Bool
  pub activation_due : Bool
  pub retirement_approved : Bool

-- `target in STRATEGY_TRANSITIONS.get(current, frozenset())`
strategy_transitions : StrategyProposalState → StrategyProposalState → Bool
strategy_transitions StrategyProposalState.draft StrategyProposalState.backtest_pending = true
strategy_transitions StrategyProposalState.backtest_pending StrategyProposalState.backtested = true
strategy_transitions StrategyProposalState.backtested StrategyProposalState.shadow_pending = true
strategy_transitions StrategyProposalState.shadow_pending StrategyProposalState.shadow_validated =
    true
strategy_transitions StrategyProposalState.shadow_validated StrategyProposalState.human_review =
    true
strategy_transitions StrategyProposalState.human_review StrategyProposalState.approved = true
strategy_transitions StrategyProposalState.human_review StrategyProposalState.rejected = true
strategy_transitions StrategyProposalState.approved StrategyProposalState.scheduled_activation =
    true
strategy_transitions StrategyProposalState.scheduled_activation StrategyProposalState.active = true
strategy_transitions StrategyProposalState.active StrategyProposalState.retired = true
strategy_transitions _ _ = false

abbrev pub is_learning_engine : ActorType → Bool
is_learning_engine ActorType.learning_engine = true
is_learning_engine _ = false

-- `context.actor_type is ActorType.HUMAN`
abbrev pub is_human_actor : ActorType → Bool
is_human_actor ActorType.human = true
is_human_actor _ = false

-- The targets that the Learning Engine has no authority for.
abbrev pub needs_authority : StrategyProposalState → Bool
needs_authority StrategyProposalState.approved = true
needs_authority StrategyProposalState.rejected = true
needs_authority StrategyProposalState.scheduled_activation = true
needs_authority StrategyProposalState.active = true
needs_authority StrategyProposalState.retired = true
needs_authority _ = false

-- The `if`/`elif` chain of `transition_strategy_proposal`, which tests the target first for two
-- states, then the current state, then the target again.
strategy_target_guards :
    StrategyProposalState → StrategyTransitionContext → Outcome DomainErrorCode (Unit {0})
strategy_target_guards StrategyProposalState.scheduled_activation c = do
  guard_as DomainErrorCode.human_approval_required (is_human_actor c.actor_type)
  guard c.activation_scheduled
strategy_target_guards StrategyProposalState.active c = do
  guard_as DomainErrorCode.human_approval_required (is_human_actor c.actor_type)
  guard c.activation_due
strategy_target_guards StrategyProposalState.retired c = do
  guard_as DomainErrorCode.human_approval_required (is_human_actor c.actor_type)
  guard c.retirement_approved
strategy_target_guards _ c = ok tt

strategy_current_guards :
    StrategyProposalState
    → StrategyProposalState
    → StrategyTransitionContext
    → Outcome DomainErrorCode (Unit {0})
unfolding strategy_target_guards
strategy_current_guards StrategyProposalState.human_review target c = do
  guard_as DomainErrorCode.human_approval_required (is_human_actor c.actor_type)
  guard c.human_decision_recorded
strategy_current_guards _ target c = strategy_target_guards target c

strategy_guards :
    StrategyProposalState
    → StrategyProposalState
    → StrategyTransitionContext
    → Outcome DomainErrorCode (Unit {0})
unfolding strategy_current_guards
strategy_guards current StrategyProposalState.backtested c = guard c.backtest_recorded
strategy_guards current StrategyProposalState.shadow_validated c = guard c.shadow_result_recorded
strategy_guards current target c = strategy_current_guards current target c

-- The authority test, then the chain.
strategy_checks :
    StrategyProposalState
    → StrategyProposalState
    → StrategyTransitionContext
    → Outcome DomainErrorCode (Unit {0})
unfolding strategy_guards
strategy_checks current target c = do
  reject_if (is_learning_engine c.actor_type && needs_authority target)
      DomainErrorCode.learning_authority_exceeded
  strategy_guards current target c

unfoldable pub transition_strategy_proposal :
    StrategyProposalState
    → StrategyProposalState
    → StrategyTransitionContext
    → List Text
    → UtcTimestamp
    → Outcome DomainErrorCode (StateTransition StrategyProposalState)
unfolding start_transition strategy_transitions strategy_checks
transition_strategy_proposal current target context reason_codes occurred_at = do
  start_transition (strategy_transitions current target) reason_codes
  strategy_checks current target context
  ok (state_transition current target reason_codes occurred_at)
