-- ===== src/Cio.antt =====
-- src/investment_os/application/decision_engine.py: the CIO recommendation from ordered gates.
pub mod Gates
use jz_investment_os.Base.{
  Bool, true, false, not, ◌&&◌, ◌||◌, Option, none, some, List, [], ◌∷◌, any, if◌then◌else◌,
}
use Prim.Native.String.{String, ◌++◌}
use jz_investment_os.Enums.{Action, RiskGateState, ThesisState, is_increase, is_reduction}

pub data GateOutcome : Type 0 where
  pass fail unknown : GateOutcome

pub data CioGate : Type 0 where
  investment_quality thesis timing portfolio_fit risk policy data_sufficiency : CioGate

pub record CioGateResult : Type 0 where
  pub gate : CioGate
  pub outcome : GateOutcome
  pub reason_code : String

pub record CioAggregationInput : Type 0 where
  pub proposed_action : Action
  pub investment_quality : GateOutcome
  pub thesis_state : ThesisState
  pub timing : GateOutcome
  pub portfolio_fit : GateOutcome
  pub risk_gate : RiskGateState
  pub policy_passed : Bool
  pub data_sufficient : Bool

pub record CioRecommendation : Type 0 where
  pub action : Action
  pub gates : List CioGateResult

-- The `value` of the enums that the reason codes show.
outcome_value : GateOutcome → String
outcome_value GateOutcome.pass = "PASS"
outcome_value GateOutcome.fail = "FAIL"
outcome_value GateOutcome.unknown = "UNKNOWN"

thesis_value : ThesisState → String
thesis_value ThesisState.unknown = "UNKNOWN"
thesis_value ThesisState.valid = "VALID"
thesis_value ThesisState.strengthening = "STRENGTHENING"
thesis_value ThesisState.weakening = "WEAKENING"
thesis_value ThesisState.broken = "BROKEN"

risk_value : RiskGateState → String
risk_value RiskGateState.unknown = "UNKNOWN"
risk_value RiskGateState.pass = "PASS"
risk_value RiskGateState.veto = "VETO"

-- `_thesis_outcome` and `_risk_outcome`
unfoldable pub thesis_outcome : ThesisState → GateOutcome
thesis_outcome ThesisState.valid = GateOutcome.pass
thesis_outcome ThesisState.strengthening = GateOutcome.pass
thesis_outcome ThesisState.weakening = GateOutcome.fail
thesis_outcome ThesisState.broken = GateOutcome.fail
thesis_outcome ThesisState.unknown = GateOutcome.unknown

unfoldable pub risk_outcome : RiskGateState → GateOutcome
risk_outcome RiskGateState.pass = GateOutcome.pass
risk_outcome RiskGateState.veto = GateOutcome.fail
risk_outcome RiskGateState.unknown = GateOutcome.unknown

abbrev result : CioGate → GateOutcome → String → CioGateResult
result gate outcome reason_code = record {
  gate = gate;
  outcome = outcome;
  reason_code = reason_code;
}

-- `_gate_results`
unfoldable pub gate_results : CioAggregationInput → List CioGateResult
unfolding outcome_value thesis_value risk_value thesis_outcome risk_outcome
gate_results i =
    result CioGate.investment_quality i.investment_quality
      ("CIO_INVESTMENT_QUALITY_" ++ outcome_value i.investment_quality)
    ∷ result CioGate.thesis (thesis_outcome i.thesis_state)
        ("CIO_THESIS_" ++ thesis_value i.thesis_state)
    ∷ result CioGate.timing i.timing ("CIO_TIMING_" ++ outcome_value i.timing)
    ∷ result CioGate.portfolio_fit i.portfolio_fit
        ("CIO_PORTFOLIO_FIT_" ++ outcome_value i.portfolio_fit)
    ∷ result CioGate.risk (risk_outcome i.risk_gate) ("CIO_RISK_" ++ risk_value i.risk_gate)
    ∷ result CioGate.policy (if i.policy_passed then GateOutcome.pass else GateOutcome.fail)
        (if i.policy_passed then "CIO_POLICY_PASS" else "CIO_POLICY_FAIL")
    ∷ result CioGate.data_sufficiency
        (if i.data_sufficient then GateOutcome.pass else GateOutcome.unknown)
        (if i.data_sufficient then "CIO_DATA_SUFFICIENT" else "CIO_DATA_INSUFFICIENT")
    ∷ []

-- `result.gate is gate`
abbrev same_gate : CioGate → CioGate → Bool
same_gate CioGate.investment_quality CioGate.investment_quality = true
same_gate CioGate.thesis CioGate.thesis = true
same_gate CioGate.timing CioGate.timing = true
same_gate CioGate.portfolio_fit CioGate.portfolio_fit = true
same_gate CioGate.risk CioGate.risk = true
same_gate CioGate.policy CioGate.policy = true
same_gate CioGate.data_sufficiency CioGate.data_sufficiency = true
same_gate _ _ = false

-- `outcomes[gate]`; `none` stands for the missing key.
unfoldable pub outcome_for : CioGate → List CioGateResult → Option GateOutcome
outcome_for gate [] = none
outcome_for gate (r ∷ rs) =
    let rest = outcome_for gate rs in if same_gate r.gate gate then some r.outcome else rest

-- `outcomes[gate] is not GateOutcome.PASS`
abbrev pub not_passed : Option GateOutcome → Bool
not_passed (some GateOutcome.pass) = false
not_passed _ = true

-- The action of an exposure increase, behind the ordered gates.
increase_action : Action → List CioGateResult → Action
unfolding outcome_for
increase_action proposed gates =
    if not_passed (outcome_for CioGate.investment_quality gates)
    then Action.avoid
    else if not_passed (outcome_for CioGate.thesis gates)
    then Action.avoid
    else if not_passed (outcome_for CioGate.timing gates)
    then Action.watch
    else if any (λ gate. not_passed (outcome_for gate gates))
        (CioGate.portfolio_fit ∷ CioGate.risk ∷ CioGate.policy ∷ CioGate.data_sufficiency ∷ [])
    then Action.watch
    else proposed

unfoldable pub aggregate_cio_recommendation : CioAggregationInput → CioRecommendation
unfolding gate_results is_reduction is_increase increase_action
aggregate_cio_recommendation i =
    let gates = gate_results i in
    if is_reduction i.proposed_action
    then record { action = i.proposed_action; gates = gates }
    else if not (is_increase i.proposed_action)
    then record { action = i.proposed_action; gates = gates }
    else record { action = increase_action i.proposed_action gates; gates = gates }
