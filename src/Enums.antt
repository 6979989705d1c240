-- ===== src/Enums.antt =====
-- The closed vocabularies of src/investment_os/domain/enums.py, and the error codes of
-- src/investment_os/domain/errors.py. An error is its code; messages and details are left out.
use jz_investment_os.Base.{Bool, true, false}

pub data Action : Type 0 where
  watch buy add hold reduce exit avoid : Action

pub data RiskIntent : Type 0 where
  none tiny small normal high exit : RiskIntent

pub data RiskGateState : Type 0 where
  unknown pass veto : RiskGateState

pub data PositionBucket : Type 0 where
  core tactical : PositionBucket

pub data InstrumentLifecycleState : Type 0 where
  discover watch setup buyable hold add reduce exit cooldown archived : InstrumentLifecycleState

pub data ThesisState : Type 0 where
  unknown valid strengthening weakening broken : ThesisState

pub data DecisionState : Type 0 where
  draft validated risk_vetoed pending_approval approved rejected expired : DecisionState
  execution_pending partially_executed executed cancelled review_due reviewed : DecisionState

pub data ApprovalAction : Type 0 where
  approve reject revoke : ApprovalAction

pub data BucketAction : Type 0 where
  none buy add hold reduce exit : BucketAction

pub data ExecutionMode : Type 0 where
  paper manual : ExecutionMode

pub data ExecutionStatus : Type 0 where
  pending partial filled cancelled : ExecutionStatus

pub data StrategyProposalState : Type 0 where
  draft backtest_pending backtested shadow_pending shadow_validated : StrategyProposalState
  human_review approved rejected scheduled_activation active retired : StrategyProposalState

pub data ActorType : Type 0 where
  human system learning_engine : ActorType

pub data PolicyStatus : Type 0 where
  test_default draft active retired : PolicyStatus

pub data ReviewCadence : Type 0 where
  daily weekly monthly quarterly : ReviewCadence

pub data DomainErrorCode : Type 0 where
  invalid_transition transition_guard_failed invalid_policy : DomainErrorCode
  invariant_violation float_not_allowed non_finite_decimal out_of_range : DomainErrorCode
  timezone_required reason_required risk_assessment_required risk_veto_blocked : DomainErrorCode
  human_approval_required approval_invalid live_execution_disabled : DomainErrorCode
  learning_authority_exceeded : DomainErrorCode

-- `action in {Action.BUY, Action.ADD}`
unfoldable pub is_increase : Action → Bool
is_increase Action.buy = true
is_increase Action.add = true
is_increase _ = false

-- `action in {Action.REDUCE, Action.EXIT}`
unfoldable pub is_reduction : Action → Bool
is_reduction Action.reduce = true
is_reduction Action.exit = true
is_reduction _ = false
