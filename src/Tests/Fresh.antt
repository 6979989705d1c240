-- ===== src/Tests/Fresh.antt =====
-- The freshness of a datum that expired before it was available, and of one in use.
use jz_investment_os.Base.{◌≡◌, ◌≢◌, ◌↔◌, ◌<◌, ◌≤◌, refl, some, arith}
use jz_investment_os.Freshness.{
  FreshnessStatus, IsUsable, Expired, Unexpired, phase, derive_display_freshness,
  derive_display_freshness_iff,
}

expired_first_test :
    derive_display_freshness 12 20 (some 10) (some FreshnessStatus.fresh) ≡ FreshnessStatus.expired
unfolding derive_display_freshness
expired_first_test = refl

derive_display_freshness_iff_example :
    let s = derive_display_freshness 25 20 (some 30) (some FreshnessStatus.stale) in
    ((s ≡ FreshnessStatus.expired) ↔ Expired (some 30) 25)
    × ((s ≡ FreshnessStatus.not_yet_available) ↔ (Unexpired (some 30) 25 × (25 < 20)))
    × ((s ≡ FreshnessStatus.stale)
        ↔ (IsUsable 25 20 (some 30) × (some FreshnessStatus.stale ≡ some FreshnessStatus.stale)))
    × ((s ≡ FreshnessStatus.fresh)
        ↔ (IsUsable 25 20 (some 30) × (some FreshnessStatus.stale ≢ some FreshnessStatus.stale)))
    × (phase s ≤ phase (derive_display_freshness 30 20 (some 30) (some FreshnessStatus.stale)))
derive_display_freshness_iff_example =
    derive_display_freshness_iff 25 30 20 (some 30) (some FreshnessStatus.stale) (omega arith)
