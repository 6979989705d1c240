-- ===== src/Cio/Gates.antt =====
-- `aggregate_cio_recommendation` of src/investment_os/application/decision_engine.py by its gates.
use jz_investment_os.Base.{◌≡◌, ◌≢◌, ◌↔◌, ◌⊎◌, true, false, All, arith}
use jz_investment_os.Enums.{Action, RiskGateState, ThesisState, is_increase}
use jz_investment_os.Cio.{
  GateOutcome, risk_outcome, CioAggregationInput, CioRecommendation, aggregate_cio_recommendation,
  thesis_outcome,
}

-- Every gate that the recommendation lists has passed.
abbrev pub AllPassed : CioRecommendation → Type 0
AllPassed r = All (λ g. g.outcome ≡ GateOutcome.pass) r.gates

-- The inputs of the aggregation let every gate pass.
pub record InputsPass (i : CioAggregationInput) : Type 0 where
  pub quality : i.investment_quality ≡ GateOutcome.pass
  pub thesis : (i.thesis_state ≡ ThesisState.valid) ⊎ (i.thesis_state ≡ ThesisState.strengthening)
  pub timing : i.timing ≡ GateOutcome.pass
  pub fit : i.portfolio_fit ≡ GateOutcome.pass
  pub risk : i.risk_gate ≡ RiskGateState.pass
  pub policy : i.policy_passed ≡ true
  pub data_sufficient : i.data_sufficient ≡ true

-- The recommendation increases exposure (BUY or ADD) exactly if that was proposed and the inputs let
-- all seven gates pass: quality, timing and portfolio fit are PASS, the Thesis is VALID or
-- STRENGTHENING, the risk gate is PASS, the policy has passed and the data suffice. Inputs that let
-- the gates pass bring every proposal back as it is, and they are exactly those for which every gate
-- that the recommendation reports has passed.
pub increase_iff :
    (i : CioAggregationInput)
    → let r = aggregate_cio_recommendation i in
      ((is_increase r.action ≡ true) ↔ ((is_increase i.proposed_action ≡ true) × InputsPass i))
      × (InputsPass i → r.action ≡ i.proposed_action)
      × (AllPassed r ↔ InputsPass i)
unfolding aggregate_cio_recommendation thesis_outcome risk_outcome
increase_iff i = (
  (λ h. ground arith, λ h. ground arith),
  λ h. ground arith,
  (λ h. ground arith, λ h. ground arith),
)

-- Every other proposal comes back as it is, whatever the gates say; a BUY or ADD that fails
-- becomes AVOID if quality or thesis has not passed, and WATCH if those two have.
pub fallback_action :
    (i : CioAggregationInput)
    → let r = aggregate_cio_recommendation i in
      (is_increase i.proposed_action ≡ false → r.action ≡ i.proposed_action)
      × (is_increase i.proposed_action ≡ true
          → (i.investment_quality ≢ GateOutcome.pass)
            ⊎ (thesis_outcome i.thesis_state ≢ GateOutcome.pass)
          → r.action ≡ Action.avoid)
      × (is_increase i.proposed_action ≡ true
          → i.investment_quality ≡ GateOutcome.pass
          → thesis_outcome i.thesis_state ≡ GateOutcome.pass
          → ¬ AllPassed r
          → r.action ≡ Action.watch)
unfolding aggregate_cio_recommendation
fallback_action i = (ground arith, ground arith, ground arith)
