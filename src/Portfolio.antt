-- ===== src/Portfolio.antt =====
-- src/investment_os/domain/portfolio.py: positions, snapshots and the capacity for an increase. The
-- content hash (SHA-256 of a JSON text) is left out.
pub mod Minimum
pub mod Headroom
pub mod Admissible
pub mod Capacity
use jz_investment_os.Base.{
  ℕ, Bool, not, List, [], ◌∷◌, map, Outcome, ok, ◌>>=◌, ◌>>◌, reject_if, distinct,
}
use Prim.Native.String.{String}
use jz_investment_os.Base.Decimal.{Decimal, d0, d1, ◌-ℤ◌, ltb_ℤ, eqb_ℤ, max_ℤ, min_ℤ}
use jz_investment_os.Enums.{DomainErrorCode}
use jz_investment_os.Lifecycle.Transition.{UtcTimestamp}
use jz_investment_os.Values.{NumberInput, finite, exact_decimal, Weight, weight, PositionBuckets}
use jz_investment_os.Policy.{PositionPolicy}

-- `_nonnegative`
unfoldable pub nonnegative : NumberInput → Outcome DomainErrorCode Decimal
unfolding exact_decimal
nonnegative value = do
  normalized ← exact_decimal value
  reject_if (ltb_ℤ normalized d0) DomainErrorCode.out_of_range
  ok normalized

pub record PortfolioPosition : Type 0 where
  pub instrument_id : ℕ
  pub buckets : PositionBuckets
  pub average_cost : Decimal
  pub realized_pnl : Decimal

-- `PortfolioPosition(instrument_id, buckets, average_cost, realized_pnl)`
unfoldable pub portfolio_position :
    ℕ → PositionBuckets → NumberInput → NumberInput → Outcome DomainErrorCode PortfolioPosition
unfolding nonnegative
portfolio_position instrument_id buckets average_cost realized_pnl = do
  cost ← nonnegative average_cost
  pnl ← exact_decimal realized_pnl
  ok (record {
    instrument_id = instrument_id;
    buckets = buckets;
    average_cost = cost;
    realized_pnl = pnl;
  })

pub record PortfolioSnapshot : Type 0 where
  pub portfolio_id : ℕ
  pub as_of : UtcTimestamp
  pub cash : Decimal
  pub nav : Decimal
  pub positions : List PortfolioPosition

-- `PortfolioSnapshot(portfolio_id, as_of, cash, nav, positions)`
unfoldable pub portfolio_snapshot :
    ℕ
    → UtcTimestamp
    → NumberInput
    → NumberInput
    → List PortfolioPosition
    → Outcome DomainErrorCode PortfolioSnapshot
unfolding nonnegative
portfolio_snapshot portfolio_id as_of cash nav positions = do
  cash' ← nonnegative cash
  nav' ← nonnegative nav
  reject_if (eqb_ℤ nav' d0) DomainErrorCode.invariant_violation
  reject_if (not (distinct (map (λ p. p.instrument_id) positions)))
      DomainErrorCode.invariant_violation
  ok (record {
    portfolio_id = portfolio_id;
    as_of = as_of;
    cash = cash';
    nav = nav';
    positions = positions;
  })

pub record PortfolioCapacityInputs : Type 0 where
  pub instrument_weight : Weight
  pub sector_weight : Weight
  pub gross_exposure : Weight
  pub pending_instrument_weight : Weight
  pub pending_sector_weight : Weight
  pub pending_gross_exposure : Weight
  pub risk_budget_capacity : Weight
  pub liquidity_capacity : Weight

pub record CapacityLimit : Type 0 where
  pub code : String
  pub available : Weight

pub record PortfolioCapacity : Type 0 where
  pub requested_increase : Weight
  pub allowed_increase : Weight
  pub limits : List CapacityLimit

-- `PortfolioCapacity.has_requested_capacity`
unfoldable pub has_requested_capacity : PortfolioCapacity → Bool
has_requested_capacity c = eqb_ℤ c.allowed_increase.value c.requested_increase.value

-- `_headroom`
unfoldable pub headroom : Weight → Weight → Weight → Outcome DomainErrorCode Weight
headroom limit current pending =
    weight (finite (max_ℤ d0 (limit.value -ℤ current.value -ℤ pending.value)))

-- `min(values, default=Decimal("0"))`
abbrev pub min_from : Decimal → List Decimal → Decimal
min_from x [] = x
min_from x (y ∷ ys) = min_from (min_ℤ x y) ys

abbrev pub min_all : List Decimal → Decimal
min_all [] = d0
min_all (x ∷ xs) = min_from x xs

abbrev pub limit_of : String → Weight → CapacityLimit
limit_of code available = record { code = code; available = available }

-- `evaluate_portfolio_capacity`
unfoldable pub evaluate_portfolio_capacity :
    PositionPolicy → PortfolioCapacityInputs → Weight → Outcome DomainErrorCode PortfolioCapacity
evaluate_portfolio_capacity policy inputs requested_increase = do
  instrument ←
      headroom policy.single_instrument_max inputs.instrument_weight
        inputs.pending_instrument_weight
  sector ← headroom policy.sector_max inputs.sector_weight inputs.pending_sector_weight
  gross ← headroom policy.gross_exposure_max inputs.gross_exposure inputs.pending_gross_exposure
  invested ← weight (finite (d1 -ℤ policy.minimum_cash.value))
  cash ← headroom invested inputs.gross_exposure inputs.pending_gross_exposure
  let limits =
      limit_of "SINGLE_INSTRUMENT_CAP" instrument
      ∷ limit_of "SECTOR_CAP" sector
      ∷ limit_of "GROSS_EXPOSURE_CAP" gross
      ∷ limit_of "MINIMUM_CASH_CAP" cash
      ∷ limit_of "RISK_BUDGET_CAP" inputs.risk_budget_capacity
      ∷ limit_of "LIQUIDITY_CAP" inputs.liquidity_capacity
      ∷ []
  let allowed = min_all (map (λ l. l.available.value) limits)
  increase ← weight (finite (min_ℤ requested_increase.value allowed))
  ok (record {
    requested_increase = requested_increase;
    allowed_increase = increase;
    limits = limits;
  })
