-- ===== src/Policy.antt =====
-- src/investment_os/domain/policy.py: the Investment Policy and its versions. Each constructor's
-- `__post_init__` is a function on the record with the given fields.
pub mod Version
use jz_investment_os.Base.{
  ℕ, Bool, true, false, not, ◌&&◌, Option, none, some, List, Outcome, ok, ◌>>◌, ensure, is_empty,
  all, is_some,
}
use jz_investment_os.Base.Text.{Text, is_blank, codes}
use jz_investment_os.Base.Sort.{eqb_list}
use jz_investment_os.Base.Decimal.{ℤ, pos, d1, ◌+ℤ◌, leb_ℤ, ltb_ℤ, eqb_ℤ}
use jz_investment_os.Base.{leb}
use jz_investment_os.Enums.{ActorType, PolicyStatus, ReviewCadence, ThesisState, DomainErrorCode}
use jz_investment_os.Lifecycle.Transition.{UtcTimestamp}
use jz_investment_os.Lifecycle.Decision.{is_human, is_named}
use jz_investment_os.Values.{Weight}

-- `_require`
abbrev pub require : Bool → Outcome DomainErrorCode (Unit {0})
require condition = ensure condition DomainErrorCode.invalid_policy

pub record StrategyPolicy : Type 0 where
  pub primary_style : Text
  pub tactical_style : Text

unfoldable pub strategy_policy : StrategyPolicy → Outcome DomainErrorCode StrategyPolicy
strategy_policy p = do
  require (not (is_blank p.primary_style))
  require (not (is_blank p.tactical_style))
  ok p

-- A `timedelta` is a signed number of microseconds.
pub record HoldingPeriod : Type 0 where
  pub minimum : ℤ
  pub maximum : ℤ

unfoldable pub holding_period : HoldingPeriod → Outcome DomainErrorCode HoldingPeriod
holding_period p = do require (ltb_ℤ (pos 0) p.minimum); require (leb_ℤ p.minimum p.maximum); ok p

pub record HorizonPolicy : Type 0 where
  pub core : HoldingPeriod
  pub tactical : HoldingPeriod

pub record BehaviorPolicy : Type 0 where
  pub chase_high : Bool
  pub frequent_trading : Bool
  pub buy_only_because_price_fell : Bool
  pub sell_only_because_position_is_profitable : Bool
  pub average_down_without_thesis_check : Bool
  pub reason_required_for_every_action : Bool

unfoldable pub behavior_policy : BehaviorPolicy → Outcome DomainErrorCode BehaviorPolicy
behavior_policy p = require p.reason_required_for_every_action >> ok p

pub record PositionPolicy : Type 0 where
  pub single_instrument_max : Weight
  pub sector_max : Weight
  pub gross_exposure_max : Weight
  pub minimum_cash : Weight
  pub core_ratio_target : Weight
  pub tactical_ratio_target : Weight

unfoldable pub position_policy : PositionPolicy → Outcome DomainErrorCode PositionPolicy
position_policy p = do
  require (leb_ℤ p.single_instrument_max.value p.sector_max.value)
  require (leb_ℤ p.sector_max.value p.gross_exposure_max.value)
  require (eqb_ℤ (p.core_ratio_target.value +ℤ p.tactical_ratio_target.value) d1)
  ok p

pub record EntryPolicy : Type 0 where
  pub require_thesis_states : List ThesisState
  pub require_timing_confirmation : Bool
  pub require_portfolio_capacity : Bool
  pub require_risk_pass : Bool

-- `state in {ThesisState.VALID, ThesisState.STRENGTHENING}`
abbrev pub may_enter : ThesisState → Bool
may_enter ThesisState.valid = true
may_enter ThesisState.strengthening = true
may_enter _ = false

unfoldable pub entry_policy : EntryPolicy → Outcome DomainErrorCode EntryPolicy
entry_policy p = do
  require (not (is_empty p.require_thesis_states))
  require (all may_enter p.require_thesis_states)
  require p.require_risk_pass
  require p.require_portfolio_capacity
  ok p

pub record ExitPolicy : Type 0 where
  pub thesis_broken : Text
  pub hard_risk_veto : Text

unfoldable pub exit_policy : ExitPolicy → Outcome DomainErrorCode ExitPolicy
exit_policy p = do
  require (eqb_list p.thesis_broken (codes "MANDATORY_REVIEW"))
  require (eqb_list p.hard_risk_veto (codes "NO_NEW_OR_ADDITIONAL_EXPOSURE"))
  ok p

pub record ExecutionPolicy : Type 0 where
  pub auto_trade : Bool
  pub human_approval_required : Bool
  pub approval_ttl : ℤ

unfoldable pub execution_policy : ExecutionPolicy → Outcome DomainErrorCode ExecutionPolicy
execution_policy p = do
  require (not p.auto_trade)
  require p.human_approval_required
  require (ltb_ℤ (pos 0) p.approval_ttl)
  ok p

pub record ReviewFrequencyPolicy : Type 0 where
  pub holdings : ReviewCadence
  pub watchlist : ReviewCadence
  pub screening : ReviewCadence
  pub portfolio : ReviewCadence
  pub strategy : ReviewCadence

pub record InvestmentPolicy : Type 0 where
  pub name : Text
  pub status : PolicyStatus
  pub strategy : StrategyPolicy
  pub horizon : HorizonPolicy
  pub behavior : BehaviorPolicy
  pub position : PositionPolicy
  pub entry : EntryPolicy
  pub exit : ExitPolicy
  pub execution : ExecutionPolicy
  pub review_frequency : ReviewFrequencyPolicy

unfoldable pub investment_policy : InvestmentPolicy → Outcome DomainErrorCode InvestmentPolicy
investment_policy p = require (not (is_blank p.name)) >> ok p

pub record PolicyVersion : Type 0 where
  pub id : ℕ
  pub version : ℤ
  pub policy : InvestmentPolicy
  pub created_at : UtcTimestamp
  pub effective_from : Option UtcTimestamp
  pub approved_by : Option Text
  pub approved_by_actor : Option ActorType
  pub approved_at : Option UtcTimestamp

-- `effective_from >= approved_at`, where both are there.
effective_after : Option UtcTimestamp → Option UtcTimestamp → Bool
effective_after (some effective_from) (some approved_at) = leb approved_at effective_from
effective_after _ _ = true

active_checks : PolicyStatus → PolicyVersion → Outcome DomainErrorCode (Unit {0})
unfolding effective_after
active_checks PolicyStatus.active v = do
  require (is_named v.approved_by)
  require (is_human v.approved_by_actor)
  require (is_some v.approved_at)
  require (is_some v.effective_from)
  require (effective_after v.effective_from v.approved_at)
active_checks _ v = ok tt

unfoldable pub policy_version : PolicyVersion → Outcome DomainErrorCode PolicyVersion
unfolding active_checks
policy_version v = do require (ltb_ℤ (pos 0) v.version); active_checks v.policy.status v; ok v
