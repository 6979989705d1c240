-- ===== src/Tests/Policies.antt =====
-- A policy version, its limits, and the capacity under them.
use jz_investment_os.Base.{ℕ, ◌≡◌, ◌↔◌, ◌≤◌, ◌^◌, ◌*◌, true, false, some, [], ◌∷◌, ok, arith}
use jz_investment_os.Base.Text.{codes}
use jz_investment_os.Base.Decimal.{pos, ◌≤ℤ◌}
use jz_investment_os.Enums.{ActorType, PolicyStatus, ReviewCadence, ThesisState}
use jz_investment_os.Values.{Weight}
use jz_investment_os.Values.Bounds.{IsWeight}
use jz_investment_os.Policy.{
  PositionPolicy, EntryPolicy, InvestmentPolicy, PolicyVersion, policy_version,
}
use jz_investment_os.Policy.Version.{HumanActivation, policy_version_iff}
use jz_investment_os.Portfolio.{
  PortfolioCapacityInputs, PortfolioCapacity, evaluate_portfolio_capacity,
}
use jz_investment_os.Portfolio.Admissible.{PolicyWeights, InputWeights, IsCapacity}
use jz_investment_os.Portfolio.Capacity.{evaluate_portfolio_capacity-IsCapacity}

abbrev percent : ℕ → Weight
percent n = record { value = pos (n * 10 ^ 26) }

abbrev position : PositionPolicy
position = record {
  single_instrument_max = percent 10;
  sector_max = percent 30;
  gross_exposure_max = percent 90;
  minimum_cash = percent 10;
  core_ratio_target = percent 70;
  tactical_ratio_target = percent 30;
}

abbrev entry : EntryPolicy
entry = record {
  require_thesis_states = ThesisState.valid ∷ ThesisState.weakening ∷ [];
  require_timing_confirmation = true;
  require_portfolio_capacity = true;
  require_risk_pass = true;
}

abbrev investment : InvestmentPolicy
investment = record {
  name = codes "core";
  status = PolicyStatus.active;
  strategy = record { primary_style = codes "value"; tactical_style = codes "swing" };
  horizon = record {
    core = record { minimum = pos 10; maximum = pos 90 };
    tactical = record { minimum = pos 1; maximum = pos 9 };
  };
  behavior = record {
    chase_high = false;
    frequent_trading = false;
    buy_only_because_price_fell = false;
    sell_only_because_position_is_profitable = false;
    average_down_without_thesis_check = false;
    reason_required_for_every_action = true;
  };
  position = position;
  entry = entry;
  exit = record {
    thesis_broken = codes "MANDATORY_REVIEW";
    hard_risk_veto = codes "NO_NEW_OR_ADDITIONAL_EXPOSURE";
  };
  execution = record { auto_trade = false; human_approval_required = true; approval_ttl = pos 60 };
  review_frequency = record {
    holdings = ReviewCadence.daily;
    watchlist = ReviewCadence.weekly;
    screening = ReviewCadence.weekly;
    portfolio = ReviewCadence.monthly;
    strategy = ReviewCadence.quarterly;
  };
}

abbrev version : PolicyVersion
version = record {
  id = 1;
  version = pos 2;
  policy = investment;
  created_at = 5;
  effective_from = some 9;
  approved_by = some (codes "anna");
  approved_by_actor = some ActorType.human;
  approved_at = some 8;
}

policy_version_iff_example :
    (policy_version version ≡ ok version)
    ↔ (¬ (pos 2 ≤ℤ pos 0) × (PolicyStatus.active ≡ PolicyStatus.active → HumanActivation version))
policy_version_iff_example = policy_version_iff version

abbrev inputs : PortfolioCapacityInputs
inputs = record {
  instrument_weight = percent 4;
  sector_weight = percent 20;
  gross_exposure = percent 70;
  pending_instrument_weight = percent 1;
  pending_sector_weight = percent 2;
  pending_gross_exposure = percent 3;
  risk_budget_capacity = percent 8;
  liquidity_capacity = percent 6;
}

percent-IsWeight : (n : ℕ) → n ≤ 100 → IsWeight (percent n)
percent-IsWeight n h = record { nonneg = omega arith; at_most_one = omega (arith, h) }

position-PolicyWeights : PolicyWeights position
position-PolicyWeights = record {
  single = percent-IsWeight 10 (omega arith);
  sector = percent-IsWeight 30 (omega arith);
  gross = percent-IsWeight 90 (omega arith);
  cash = percent-IsWeight 10 (omega arith);
}

inputs-InputWeights : InputWeights inputs
inputs-InputWeights = record {
  instrument = percent-IsWeight 4 (omega arith);
  sector = percent-IsWeight 20 (omega arith);
  gross = percent-IsWeight 70 (omega arith);
  pending_instrument = percent-IsWeight 1 (omega arith);
  pending_sector = percent-IsWeight 2 (omega arith);
  pending_gross = percent-IsWeight 3 (omega arith);
  risk_budget = percent-IsWeight 8 (omega arith);
  liquidity = percent-IsWeight 6 (omega arith);
}

evaluate_portfolio_capacity-IsCapacity_example :
    (c : PortfolioCapacity) × (evaluate_portfolio_capacity position inputs (percent 7) ≡ ok c)
    × IsCapacity position inputs (percent 7) c
evaluate_portfolio_capacity-IsCapacity_example =
    evaluate_portfolio_capacity-IsCapacity position inputs (percent 7) position-PolicyWeights
      inputs-InputWeights (percent-IsWeight 7 (omega arith))
