-- ===== src/Portfolio/Capacity.antt =====
-- `evaluate_portfolio_capacity` of src/investment_os/domain/portfolio.py against the limits.
use jz_investment_os.Base.{
  ◌≡◌, ◌⊎◌, refl, inl, inr, List, [], ◌∷◌, ok, arith, All, Any, map, subst, sym,
}
use jz_investment_os.Base.Decimal.{Decimal, d0, d1, ◌+ℤ◌, ◌-ℤ◌, ◌≤ℤ◌, min_ℤ, int_laws}
use jz_investment_os.Values.{Weight}
use jz_investment_os.Values.Bounds.{IsWeight}
use jz_investment_os.Policy.{PositionPolicy}
use jz_investment_os.Portfolio.{
  PortfolioCapacityInputs, PortfolioCapacity, CapacityLimit, limit_of, min_from,
  evaluate_portfolio_capacity,
}
use jz_investment_os.Portfolio.Minimum.{min_cases, min_from_le, min_from_mem, ≤ℤ-trans}
use jz_investment_os.Portfolio.Admissible.{PolicyWeights, InputWeights, Admissible, IsCapacity}
use jz_investment_os.Portfolio.Headroom.{
  Keeps, IsRoom, room, room_weight, room-IsRoom, headroom_ok, Keeps-room, room_greatest, weight_ok,
}

module _ (p : PositionPolicy) (i : PortfolioCapacityInputs) (requested : Weight)
    (wp : PolicyWeights p) (wi : InputWeights i) (wr : IsWeight requested) where
  abbrev invested : Weight
  invested = record { value = d1 -ℤ p.minimum_cash.value }

  invested-IsWeight : IsWeight invested
  invested-IsWeight = record {
    nonneg = omega (int_laws, wp.cash.at_most_one);
    at_most_one = omega (int_laws, wp.cash.nonneg);
  }

  r_instrument :
      IsRoom p.single_instrument_max i.instrument_weight i.pending_instrument_weight
        (room p.single_instrument_max i.instrument_weight i.pending_instrument_weight)
  r_instrument = room-IsRoom _ _ _ wp.single wi.instrument wi.pending_instrument

  r_sector :
      IsRoom p.sector_max i.sector_weight i.pending_sector_weight
        (room p.sector_max i.sector_weight i.pending_sector_weight)
  r_sector = room-IsRoom _ _ _ wp.sector wi.sector wi.pending_sector

  r_gross :
      IsRoom p.gross_exposure_max i.gross_exposure i.pending_gross_exposure
        (room p.gross_exposure_max i.gross_exposure i.pending_gross_exposure)
  r_gross = room-IsRoom _ _ _ wp.gross wi.gross wi.pending_gross

  r_cash :
      IsRoom invested i.gross_exposure i.pending_gross_exposure
        (room invested i.gross_exposure i.pending_gross_exposure)
  r_cash = room-IsRoom _ _ _ invested-IsWeight wi.gross wi.pending_gross

  later_limits : List CapacityLimit
  later_limits =
      limit_of "SECTOR_CAP" (room_weight p.sector_max i.sector_weight i.pending_sector_weight)
      ∷ limit_of "GROSS_EXPOSURE_CAP"
          (room_weight p.gross_exposure_max i.gross_exposure i.pending_gross_exposure)
      ∷ limit_of "MINIMUM_CASH_CAP" (room_weight invested i.gross_exposure i.pending_gross_exposure)
      ∷ limit_of "RISK_BUDGET_CAP" i.risk_budget_capacity
      ∷ limit_of "LIQUIDITY_CAP" i.liquidity_capacity
      ∷ []

  limits : List CapacityLimit
  unfolding later_limits
  limits =
      limit_of "SINGLE_INSTRUMENT_CAP"
        (room_weight p.single_instrument_max i.instrument_weight i.pending_instrument_weight)
      ∷ later_limits

  abbrev first_room : Decimal
  first_room = room p.single_instrument_max i.instrument_weight i.pending_instrument_weight

  lowest : Decimal
  unfolding limits
  lowest = min_from first_room (map (λ l. l.available.value) later_limits)

  allowed : Decimal
  allowed = min_ℤ requested.value lowest

  lowest_bounds : All (λ l. lowest ≤ℤ l.available.value) limits
  unfolding lowest
  lowest_bounds = min_from_le (λ l. l.available.value) lowest first_room later_limits refl

  lowest_mem : Any (λ l. lowest ≡ l.available.value) limits
  unfolding lowest
  lowest_mem = min_from_mem (λ l. l.available.value) lowest first_room later_limits refl

  lowest_nonneg : d0 ≤ℤ lowest
  unfolding limits
  lowest_nonneg = go lowest_mem
    where
      go : Any (λ l. lowest ≡ l.available.value) limits → d0 ≤ℤ lowest
      go (inl e) = rw e r_instrument.nonneg
      go (inr (inl e)) = rw e r_sector.nonneg
      go (inr (inr (inl e))) = rw e r_gross.nonneg
      go (inr (inr (inr (inl e)))) = rw e r_cash.nonneg
      go (inr (inr (inr (inr (inl e))))) = rw e wi.risk_budget.nonneg
      go (inr (inr (inr (inr (inr (inl e)))))) = rw e wi.liquidity.nonneg
      go (inr (inr (inr (inr (inr (inr e)))))) = elim e [ ]

  allowed_le : (allowed ≤ℤ requested.value) × (allowed ≤ℤ lowest) × (d0 ≤ℤ allowed)
  unfolding allowed
  allowed_le = elim (min_cases requested.value lowest) [
    | inl (e, le) ↦ rw e (omega arith, le, wr.nonneg)
    | inr (e, le) ↦ rw e (le, omega arith, lowest_nonneg)
  ]

  capacity : PortfolioCapacity
  unfolding allowed limits
  capacity = record {
    requested_increase = requested;
    allowed_increase = record { value = allowed };
    limits = limits;
  }

  capacity_found : evaluate_portfolio_capacity p i requested ≡ ok capacity
  unfolding evaluate_portfolio_capacity capacity lowest
  capacity_found = rw (headroom_ok _ _ _ wp.single wi.instrument wi.pending_instrument) (
      rw (headroom_ok _ _ _ wp.sector wi.sector wi.pending_sector) (
        rw (headroom_ok _ _ _ wp.gross wi.gross wi.pending_gross) (
          rw
            (weight_ok (d1 -ℤ p.minimum_cash.value) invested-IsWeight.nonneg
              invested-IsWeight.at_most_one)
            (rw (headroom_ok invested _ _ invested-IsWeight wi.gross wi.pending_gross) (
              rw
                (weight_ok allowed allowed_le.2
                  (≤ℤ-trans allowed requested.value d1 allowed_le.0 wr.at_most_one))
                refl)))))

  allowed_below : All (λ l. allowed ≤ℤ l.available.value) limits
  unfolding limits
  allowed_below =
      let (_, under, _) = allowed_le in
      let (a, (b, (c, (d, (e, (f, g)))))) = lowest_bounds in
      (
        ≤ℤ-trans allowed lowest _ under a,
        (
          ≤ℤ-trans allowed lowest _ under b,
          (
            ≤ℤ-trans allowed lowest _ under c,
            (
              ≤ℤ-trans allowed lowest _ under d,
              (≤ℤ-trans allowed lowest _ under e, (≤ℤ-trans allowed lowest _ under f, tt)),
            ),
          ),
        ),
      )

  below_any :
      (v : Decimal) (ls : List CapacityLimit)
      → All (λ l. v ≤ℤ l.available.value) ls
      → Any (λ l. allowed ≡ l.available.value) ls
      → v ≤ℤ allowed
  below_any v [] h m = elim m [ ]
  below_any v (l ∷ ls) h (inl e) = rw e (h.0)
  below_any v (l ∷ ls) h (inr m) = below_any v ls h.1 m

  allowed_tight : (allowed ≡ requested.value) ⊎ Any (λ l. allowed ≡ l.available.value) limits
  unfolding allowed
  allowed_tight = elim (min_cases requested.value lowest) [
    | inl (e, le) ↦ inl e
    | inr (e, le) ↦ inr (subst (λ v. Any (λ l. v ≡ l.available.value) limits) (sym e) lowest_mem)
  ]

  Keeps-cash :
      Keeps invested i.gross_exposure i.pending_gross_exposure allowed
      → (allowed ≡ d0)
        ⊎ (i.gross_exposure.value +ℤ i.pending_gross_exposure.value +ℤ allowed
              +ℤ p.minimum_cash.value
            ≤ℤ d1)
  Keeps-cash (inl e) = inl e
  Keeps-cash (inr h) = inr (omega (int_laws, h))

  cash-Keeps :
      (v : Decimal)
      → (v ≡ d0)
        ⊎ (i.gross_exposure.value +ℤ i.pending_gross_exposure.value +ℤ v +ℤ p.minimum_cash.value
            ≤ℤ d1)
      → Keeps invested i.gross_exposure i.pending_gross_exposure v
  cash-Keeps v (inl e) = inl e
  cash-Keeps v (inr h) = inr (omega (int_laws, h))

  -- An admissible increase is below every limit that is listed.
  Admissible-le :
      (v : Decimal) → Admissible p i requested v → All (λ l. v ≤ℤ l.available.value) limits
  unfolding limits later_limits
  Admissible-le v a = (
    room_greatest _ _ _ v a.instrument,
    (
      room_greatest _ _ _ v a.sector,
      (
        room_greatest _ _ _ v a.gross,
        (room_greatest _ _ _ v (cash-Keeps v a.cash), (a.risk_budget, (a.liquidity, tt))),
      ),
    ),
  )

  allowed_greatest : (v : Decimal) → Admissible p i requested v → v ≤ℤ allowed
  allowed_greatest v a = elim allowed_tight [
    | inl e ↦ rw e a.within
    | inr e ↦ below_any v limits (Admissible-le v a) e
  ]

  allowed-Admissible : Admissible p i requested allowed
  unfolding limits
  allowed-Admissible =
      let (small, under, nonneg) = allowed_le in
      record {
        nonneg = nonneg;
        within = small;
        instrument = Keeps-room _ _ _ _ allowed r_instrument nonneg (allowed_below.0);
        sector = Keeps-room _ _ _ _ allowed r_sector nonneg (allowed_below.1.0);
        gross = Keeps-room _ _ _ _ allowed r_gross nonneg (allowed_below.1.1.0);
        cash = Keeps-cash (Keeps-room _ _ _ _ allowed r_cash nonneg (allowed_below.1.1.1.0));
        risk_budget = allowed_below.1.1.1.1.0;
        liquidity = allowed_below.1.1.1.1.1.0;
      }

  capacity-IsCapacity : IsCapacity p i requested capacity
  unfolding capacity
  capacity-IsCapacity = record {
    request = refl;
    increase = record {
      nonneg = allowed_le.2;
      at_most_one = ≤ℤ-trans allowed requested.value d1 allowed_le.0 wr.at_most_one;
    };
    admissible = allowed-Admissible;
    greatest = allowed_greatest;
  }

  -- For weights in [0, 1] the evaluation succeeds, and the allowed increase is a weight and the
  -- greatest admissible increase: it is at least zero and at most the requested one, it is zero or
  -- stays within the instrument, sector, gross and minimum-cash limits of the policy with the current
  -- and the pending exposure counted, it is within the risk budget and the liquidity, and no larger
  -- increase has all these properties.
  pub evaluate_portfolio_capacity-IsCapacity :
      (c : PortfolioCapacity) × (evaluate_portfolio_capacity p i requested ≡ ok c)
      × IsCapacity p i requested c
  evaluate_portfolio_capacity-IsCapacity = (capacity, capacity_found, capacity-IsCapacity)
