-- ===== src/Schedule/Final.antt =====
-- The final sessions of weeks, months and quarters.
use jz_investment_os.Base.{ℕ, ◌≡◌, Bool, true, ◌&&◌, List, Any, ltb}
use jz_investment_os.Schedule.{TradingSession}

-- A session later than `f` for which the test holds.
abbrev later : (ℕ → Bool) → TradingSession → TradingSession → Bool
later test f t = test t.business_date && ltb f.business_date t.business_date

-- In a period of which `d` is a date, exactly one date is that of a final session.
pub record HasOneFinal (same : ℕ → ℕ → Bool) (final : TradingSession → Bool)
    (sessions : List TradingSession) (d : ℕ) : Type 0 where
  pub session : TradingSession
  pub member : Any (λ t. t ≡ session) sessions
  pub in_period : same session.business_date d ≡ true
  pub is_last : final session ≡ true
  pub only :
      (t : TradingSession)
      → Any (λ u. u ≡ t) sessions
      → same t.business_date d ≡ true
      → final t ≡ true
      → t.business_date ≡ session.business_date
