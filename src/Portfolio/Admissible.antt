-- ===== src/Portfolio/Admissible.antt =====
-- Weights as the value types leave them, and what a capacity of
-- src/investment_os/domain/portfolio.py promises to a requested increase.
use jz_investment_os.Base.{◌≡◌, ◌⊎◌}
use jz_investment_os.Base.Decimal.{Decimal, d0, d1, ◌+ℤ◌, ◌≤ℤ◌}
use jz_investment_os.Values.{Weight}
use jz_investment_os.Values.Bounds.{IsWeight}
use jz_investment_os.Policy.{PositionPolicy}
use jz_investment_os.Portfolio.{PortfolioCapacityInputs, PortfolioCapacity}
use jz_investment_os.Portfolio.Headroom.{Keeps}

pub record PolicyWeights (p : PositionPolicy) : Type 0 where
  pub single : IsWeight p.single_instrument_max
  pub sector : IsWeight p.sector_max
  pub gross : IsWeight p.gross_exposure_max
  pub cash : IsWeight p.minimum_cash

pub record InputWeights (i : PortfolioCapacityInputs) : Type 0 where
  pub instrument : IsWeight i.instrument_weight
  pub sector : IsWeight i.sector_weight
  pub gross : IsWeight i.gross_exposure
  pub pending_instrument : IsWeight i.pending_instrument_weight
  pub pending_sector : IsWeight i.pending_sector_weight
  pub pending_gross : IsWeight i.pending_gross_exposure
  pub risk_budget : IsWeight i.risk_budget_capacity
  pub liquidity : IsWeight i.liquidity_capacity

-- An increase that the request and the policy admit next to the current and pending exposure.
pub record Admissible (p : PositionPolicy) (i : PortfolioCapacityInputs) (requested : Weight)
    (v : Decimal) : Type 0 where
  pub nonneg : d0 ≤ℤ v
  pub within : v ≤ℤ requested.value
  pub instrument : Keeps p.single_instrument_max i.instrument_weight i.pending_instrument_weight v
  pub sector : Keeps p.sector_max i.sector_weight i.pending_sector_weight v
  pub gross : Keeps p.gross_exposure_max i.gross_exposure i.pending_gross_exposure v
  pub cash :
      (v ≡ d0)
      ⊎ (i.gross_exposure.value +ℤ i.pending_gross_exposure.value +ℤ v +ℤ p.minimum_cash.value
          ≤ℤ d1)
  pub risk_budget : v ≤ℤ i.risk_budget_capacity.value
  pub liquidity : v ≤ℤ i.liquidity_capacity.value

-- What the capacity for a requested increase promises.
pub record IsCapacity (p : PositionPolicy) (i : PortfolioCapacityInputs) (requested : Weight)
    (c : PortfolioCapacity) : Type 0 where
  pub request : c.requested_increase ≡ requested
  pub increase : IsWeight c.allowed_increase
  pub admissible : Admissible p i requested c.allowed_increase.value
  pub greatest : (v : Decimal) → Admissible p i requested v → v ≤ℤ c.allowed_increase.value
