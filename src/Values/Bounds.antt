-- ===== src/Values/Bounds.antt =====
-- The constructors of src/investment_os/domain/values.py and the ranges that they accept.
use jz_investment_os.Base.{◌≡◌, ◌↔◌, ok, arith}
use jz_investment_os.Base.Decimal.{d0, d1, ◌+ℤ◌, ◌≤ℤ◌, eq_of_parts}
use jz_investment_os.Values.{
  NumberInput, binary, malformed, non_finite, finite, Weight, weight, Quantity, quantity,
  PositionBuckets, position_buckets,
}

pub record IsWeight (w : Weight) : Type 0 where
  pub nonneg : d0 ≤ℤ w.value
  pub at_most_one : w.value ≤ℤ d1

abbrev pub IsQuantity : Quantity → Type 0
IsQuantity q = d0 ≤ℤ q.value

-- `Weight(input)` succeeds, and then with the given value, exactly for a finite number in [0, 1].
pub weight_iff :
    (input : NumberInput) (w : Weight)
    → (weight input ≡ ok w) ↔ ((input ≡ finite w.value) × IsWeight w)
unfolding weight
weight_iff binary w = (λ h. cc, λ h. cc h.0)
weight_iff malformed w = (λ h. cc, λ h. cc h.0)
weight_iff non_finite w = (λ h. cc, λ h. cc h.0)
weight_iff (finite d) w = (λ h. ground arith, λ h. ground arith)

-- `Quantity(input)` succeeds, and then with the given value, exactly for a finite number ≥ 0.
pub quantity_iff :
    (input : NumberInput) (q : Quantity)
    → (quantity input ≡ ok q) ↔ ((input ≡ finite q.value) × IsQuantity q)
unfolding quantity
quantity_iff binary q = (λ h. cc, λ h. cc h.0)
quantity_iff malformed q = (λ h. cc, λ h. cc h.0)
quantity_iff non_finite q = (λ h. cc, λ h. cc h.0)
quantity_iff (finite d) q = (λ h. ground arith, λ h. ground arith)

-- Position buckets exist exactly where the total is the sum of Core and Tactical.
pub position_buckets_sum :
    (c t u : Quantity) {b : PositionBuckets}
    → position_buckets c t u ≡ ok b
    → b.total.value ≡ b.core.value +ℤ b.tactical.value
unfolding position_buckets
position_buckets_sum c t u h = ground (arith, eq_of_parts (c.value +ℤ t.value) u.value)
