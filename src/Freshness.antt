-- ===== src/Freshness.antt =====
-- `derive_display_freshness` of src/investment_os/application/evidence.py. A stored status other
-- than STALE reads like a missing one.
use jz_investment_os.Base.{
  ℕ, ◌≡◌, ◌≢◌, ◌↔◌, ◌≤◌, ◌<◌, Bool, true, false, Option, none, some, leb, ltb, if◌then◌else◌, arith,
}
use jz_investment_os.Lifecycle.Transition.{UtcTimestamp}

pub data FreshnessStatus : Type 0 where
  fresh stale not_yet_available expired : FreshnessStatus

-- `expires_at is not None and now >= expires`
abbrev pub has_expired : Option UtcTimestamp → UtcTimestamp → Bool
has_expired none as_of = false
has_expired (some expires_at) as_of = leb expires_at as_of

-- `str(ingested_status) == FreshnessStatus.STALE`
abbrev pub was_stale : Option FreshnessStatus → Bool
was_stale (some FreshnessStatus.stale) = true
was_stale _ = false

-- `derive_display_freshness`, on timestamps with a known zone.
unfoldable pub derive_display_freshness :
    UtcTimestamp → UtcTimestamp → Option UtcTimestamp → Option FreshnessStatus → FreshnessStatus
derive_display_freshness as_of available_at expires_at ingested_status =
    if has_expired expires_at as_of
    then FreshnessStatus.expired
    else if ltb as_of available_at
    then FreshnessStatus.not_yet_available
    else if was_stale ingested_status
    then FreshnessStatus.stale
    else FreshnessStatus.fresh

-- The datum has an expiry, and it is not later than the instant.
abbrev pub Expired : Option UtcTimestamp → UtcTimestamp → Type 0
Expired none t = ⊥
Expired (some x) t = x ≤ t

-- The datum has no expiry, or a later one than the instant.
abbrev pub Unexpired : Option UtcTimestamp → UtcTimestamp → Type 0
Unexpired none t = Unit
Unexpired (some x) t = t < x

-- The instants at which a datum may be used.
pub record IsUsable (as_of available_at : UtcTimestamp) (expires_at : Option UtcTimestamp)
    : Type 0 where
  pub available : available_at ≤ as_of
  pub unexpired : Unexpired expires_at as_of

-- How far a datum is in its life: to come, in use, over.
abbrev pub phase : FreshnessStatus → ℕ
phase FreshnessStatus.not_yet_available = 0
phase FreshnessStatus.fresh = 1
phase FreshnessStatus.stale = 1
phase FreshnessStatus.expired = 2

phase-le :
    (t u a : UtcTimestamp) (e : Option UtcTimestamp) (i : Option FreshnessStatus)
    → t ≤ u
    → phase (derive_display_freshness t a e i) ≤ phase (derive_display_freshness u a e i)
unfolding derive_display_freshness
phase-le t u a e i h = ground arith

-- The status is EXPIRED exactly at the instants from the expiry on, even before the datum is
-- available; NOT_YET_AVAILABLE exactly before both availability and expiry; STALE or FRESH exactly
-- from availability on and before expiry, STALE if it was stored as STALE and FRESH if anything
-- else or nothing was stored. From an instant to a later one it only moves from NOT_YET_AVAILABLE
-- over STALE or FRESH to EXPIRED.
pub derive_display_freshness_iff :
    (t u a : UtcTimestamp) (e : Option UtcTimestamp) (i : Option FreshnessStatus)
    → t ≤ u
    → let s = derive_display_freshness t a e i in
      ((s ≡ FreshnessStatus.expired) ↔ Expired e t)
      × ((s ≡ FreshnessStatus.not_yet_available) ↔ (Unexpired e t × (t < a)))
      × ((s ≡ FreshnessStatus.stale) ↔ (IsUsable t a e × (i ≡ some FreshnessStatus.stale)))
      × ((s ≡ FreshnessStatus.fresh) ↔ (IsUsable t a e × (i ≢ some FreshnessStatus.stale)))
      × (phase s ≤ phase (derive_display_freshness u a e i))
unfolding derive_display_freshness
derive_display_freshness_iff t u a e i later = (
  (λ h. ground arith, λ h. ground arith),
  (λ h. ground arith, λ h. ground arith),
  (λ h. ground arith, λ h. ground arith),
  (λ h. ground arith, λ h. ground arith),
  phase-le t u a e i later,
)
