-- ===== src/Lifecycle/Instrument/Traces.antt =====
-- Histories of an instrument: what a position, a closed position and a new entry rest on.
use jz_investment_os.Base.{◌≡◌, Bool, true, false, subst, List, Outcome, ok, ◌>>=◌, >>=-eq-ok, Any}
use jz_investment_os.Enums.{InstrumentLifecycleState, DomainErrorCode}
use jz_investment_os.Lifecycle.Machine.{Request, run, run_crossing}
use jz_investment_os.Lifecycle.Instrument.{InstrumentTransitionContext, transition_instrument}
use jz_investment_os.Lifecycle.Instrument.Rules.{
  InstrumentRule, transition_instrument_sound, transition_instrument_target, screen, ready,
  open_position,
}

abbrev pub InstrumentRequest : Type 0
InstrumentRequest = Request InstrumentLifecycleState InstrumentTransitionContext

unfoldable pub instrument_step :
    InstrumentLifecycleState → InstrumentRequest → Outcome DomainErrorCode InstrumentLifecycleState
instrument_step s r = do
  x ← transition_instrument s r.target r.context r.reason_codes r.occurred_at
  ok x.to_state

instrument_step-rule :
    (s : InstrumentLifecycleState) (r : InstrumentRequest) (t : InstrumentLifecycleState)
    → instrument_step s r ≡ ok t
    → InstrumentRule r.context s t
unfolding instrument_step
instrument_step-rule s r t h =
    let (x, e, f) = >>=-eq-ok (transition_instrument s r.target r.context r.reason_codes _) _ h in
    subst (InstrumentRule r.context s)
      (cc (transition_instrument_target s r.target r.context r.reason_codes _ e))
      (transition_instrument_sound s r.target r.context r.reason_codes _ e).1

-- A position is or was open, in this round of the life cycle.
abbrev pub is_invested : InstrumentLifecycleState → Bool
is_invested InstrumentLifecycleState.hold = true
is_invested InstrumentLifecycleState.add = true
is_invested InstrumentLifecycleState.reduce = true
is_invested InstrumentLifecycleState.exit = true
is_invested InstrumentLifecycleState.cooldown = true
is_invested InstrumentLifecycleState.archived = true
is_invested _ = false

-- What opens a position.
pub record EntryApproval (c : InstrumentTransitionContext) : Type 0 where
  pub approved : c.human_approved ≡ true
  pub executed : c.execution_recorded ≡ true

entry_border :
    {c : InstrumentTransitionContext} {s t : InstrumentLifecycleState}
    → InstrumentRule c s t
    → is_invested s ≡ false
    → is_invested t ≡ true
    → EntryApproval c
entry_border (open_position a b) o i = record { approved = a; executed = b }
entry_border (screen _ _ _) o i = cc
entry_border _ o i = cc

-- An instrument without a position comes to have one, or to have had one, only through an
-- accepted transition with a human approval and a recorded execution.
pub position_needs_approval :
    (rs : List InstrumentRequest) (s u : InstrumentLifecycleState)
    → run instrument_step s rs ≡ ok u
    → is_invested s ≡ false
    → is_invested u ≡ true
    → Any (λ r. EntryApproval r.context) rs
position_needs_approval rs s u h o i =
    run_crossing instrument_step is_invested (λ r. EntryApproval r.context)
      (λ s r t e o p. entry_border (instrument_step-rule s r t e) o p) rs s u h o i

-- The states behind the entry checks of timing, capacity, risk and policy.
abbrev pub is_entered : InstrumentLifecycleState → Bool
is_entered InstrumentLifecycleState.buyable = true
is_entered InstrumentLifecycleState.hold = true
is_entered InstrumentLifecycleState.add = true
is_entered InstrumentLifecycleState.reduce = true
is_entered InstrumentLifecycleState.exit = true
is_entered InstrumentLifecycleState.cooldown = true
is_entered InstrumentLifecycleState.archived = true
is_entered _ = false

-- The checks that make an instrument BUYABLE.
pub record EntryChecks (c : InstrumentTransitionContext) : Type 0 where
  pub timing : c.timing_confirmed ≡ true
  pub capacity : c.portfolio_capacity ≡ true
  pub risk : c.risk_passed ≡ true
  pub policy : c.policy_passed ≡ true

checks_border :
    {c : InstrumentTransitionContext} {s t : InstrumentLifecycleState}
    → InstrumentRule c s t
    → is_entered s ≡ false
    → is_entered t ≡ true
    → EntryChecks c
checks_border (ready a b d e) o i = record { timing = a; capacity = b; risk = d; policy = e }
checks_border (screen _ _ _) o i = cc
checks_border _ o i = cc

-- An instrument that is only discovered, watched or set up becomes buyable, or goes beyond, only
-- through an accepted transition that passed timing, portfolio capacity, Risk and Policy.
pub entry_needs_checks :
    (rs : List InstrumentRequest) (s u : InstrumentLifecycleState)
    → run instrument_step s rs ≡ ok u
    → is_entered s ≡ false
    → is_entered u ≡ true
    → Any (λ r. EntryChecks r.context) rs
entry_needs_checks rs s u h o i =
    run_crossing instrument_step is_entered (λ r. EntryChecks r.context)
      (λ s r t e o p. checks_border (instrument_step-rule s r t e) o p) rs s u h o i
