-- ===== src/Budget/Cycle.antt =====
-- A call of a model from `LLMBudgetService.reserve` to `LLMBudgetService.reconcile`.
use jz_investment_os.Base.{◌≡◌}
use jz_investment_os.Base.Text.{Text}
use jz_investment_os.Base.Decimal.{ℤ, pos, Decimal, d0, ◌≤ℤ◌}
use jz_investment_os.Budget.Ledger.{LlmBudgetReservation, Store, granted}
use jz_investment_os.Budget.Service.{cost_of}

-- Prices of a reservation that are not negative.
pub record Priced (r : LlmBudgetReservation) : Type 0 where
  pub input : d0 ≤ℤ r.pricing.input_token_price
  pub output : d0 ≤ℤ r.pricing.output_token_price
  pub cost : r.reserved_cost ≡ cost_of r.pricing r.reserved_input_tokens r.reserved_output_tokens

-- A usage that the service accepts for a reservation.
pub record UsageWithin (r : LlmBudgetReservation) (n m : ℤ) : Type 0 where
  pub input_nonneg : pos 0 ≤ℤ n
  pub output_nonneg : pos 0 ≤ℤ m
  pub input : n ≤ℤ r.reserved_input_tokens
  pub output : m ≤ℤ r.reserved_output_tokens

-- What a reservation that the service granted is known to be.
pub record Reserved (r : LlmBudgetReservation) (s s' : Store) : Type 0 where
  pub priced : Priced r
  pub stored : s' ≡ granted r s
