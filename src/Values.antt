-- ===== src/Values.antt =====
-- src/investment_os/domain/values.py: exact decimals, weights, quantities, timestamps and position
-- buckets. A constructor with a `__post_init__` is a function that returns the value or the error.
pub mod Bounds
use jz_investment_os.Base.{ℕ, ◌&&◌, Outcome, ok, err, ◌>>=◌, ◌>>◌, ensure, reject_if}
use jz_investment_os.Base.Decimal.{Decimal, d0, d1, ◌+ℤ◌, leb_ℤ, ltb_ℤ, eqb_ℤ}
use jz_investment_os.Enums.{DomainErrorCode}
use jz_investment_os.Lifecycle.Transition.{UtcTimestamp}

-- What reaches `exact_decimal`: a bool or a float, a text that is no decimal, an infinity or a
-- NaN, or a finite number. (How `Decimal` reads a text is the standard library's.)
pub data NumberInput : Type 0 where
  binary : NumberInput
  malformed : NumberInput
  non_finite : NumberInput
  finite : Decimal → NumberInput

unfoldable pub exact_decimal : NumberInput → Outcome DomainErrorCode Decimal
exact_decimal binary = err DomainErrorCode.float_not_allowed
exact_decimal malformed = err DomainErrorCode.non_finite_decimal
exact_decimal non_finite = err DomainErrorCode.non_finite_decimal
exact_decimal (finite d) = ok d

pub record Weight : Type 0 where
  pub value : Decimal

-- `Weight(value)`
unfoldable pub weight : NumberInput → Outcome DomainErrorCode Weight
unfolding exact_decimal
weight input = do
  normalized ← exact_decimal input
  ensure (leb_ℤ d0 normalized && leb_ℤ normalized d1) DomainErrorCode.out_of_range
  ok (record { value = normalized })

pub record Quantity : Type 0 where
  pub value : Decimal

-- `Quantity(value)`
unfoldable pub quantity : NumberInput → Outcome DomainErrorCode Quantity
unfolding exact_decimal
quantity input = do
  normalized ← exact_decimal input
  reject_if (ltb_ℤ normalized d0) DomainErrorCode.out_of_range
  ok (record { value = normalized })

-- A `datetime`: without a time zone, or an instant (in UTC) with one.
pub data Datetime : Type 0 where
  naive : ℕ → Datetime
  aware : ℕ → Datetime

-- `UtcTimestamp(value)`
unfoldable pub utc_timestamp : Datetime → Outcome DomainErrorCode UtcTimestamp
utc_timestamp (naive wall) = err DomainErrorCode.timezone_required
utc_timestamp (aware instant) = ok instant

pub record PositionBuckets : Type 0 where
  pub core : Quantity
  pub tactical : Quantity
  pub total : Quantity

-- `PositionBuckets(core, tactical, total)`
unfoldable pub position_buckets :
    Quantity → Quantity → Quantity → Outcome DomainErrorCode PositionBuckets
position_buckets core tactical total =
    ensure (eqb_ℤ (core.value +ℤ tactical.value) total.value) DomainErrorCode.invariant_violation
    >> ok (record { core = core; tactical = tactical; total = total })
