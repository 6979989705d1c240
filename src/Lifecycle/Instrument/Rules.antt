-- ===== src/Lifecycle/Instrument/Rules.antt =====
-- The instrument life cycle against its rules.
use jz_investment_os.Base.{◌≡◌, ◌↔◌, true, ap, List, ok, arith}
use jz_investment_os.Base.Text.{Text}
use jz_investment_os.Enums.{InstrumentLifecycleState}
use jz_investment_os.Lifecycle.Transition.{
  StateTransition, UtcTimestamp, state_transition, HasReasons, HasReasons-test, test-HasReasons,
  start_transition, checked_result,
}
use jz_investment_os.Lifecycle.Instrument.{
  InstrumentTransitionContext, is_entry_thesis, is_not_failing, instrument_transitions,
  instrument_guards, transition_instrument,
}

-- The life cycle, as a relation.
pub data InstrumentRule (c : InstrumentTransitionContext)
    : InstrumentLifecycleState → InstrumentLifecycleState → Type 0 where
  screen :
      c.screening_passed ≡ true
      → c.data_sufficient ≡ true
      → c.risk_passed ≡ true
      → InstrumentRule c InstrumentLifecycleState.discover InstrumentLifecycleState.watch
  prepare :
      is_entry_thesis c.thesis_state ≡ true
      → c.observable_entry_condition ≡ true
      → InstrumentRule c InstrumentLifecycleState.watch InstrumentLifecycleState.setup
  ready :
      c.timing_confirmed ≡ true
      → c.portfolio_capacity ≡ true
      → c.risk_passed ≡ true
      → c.policy_passed ≡ true
      → InstrumentRule c InstrumentLifecycleState.setup InstrumentLifecycleState.buyable
  open_position :
      c.human_approved ≡ true
      → c.execution_recorded ≡ true
      → InstrumentRule c InstrumentLifecycleState.buyable InstrumentLifecycleState.hold
  enlarge :
      is_not_failing c.thesis_state ≡ true
      → c.risk_passed ≡ true
      → c.policy_passed ≡ true
      → c.portfolio_capacity ≡ true
      → InstrumentRule c InstrumentLifecycleState.hold InstrumentLifecycleState.add
  lighten :
      c.reduction_justified ≡ true
      → InstrumentRule c InstrumentLifecycleState.hold InstrumentLifecycleState.reduce
  enlarged :
      c.execution_recorded ≡ true
      → c.position_snapshot_updated ≡ true
      → InstrumentRule c InstrumentLifecycleState.add InstrumentLifecycleState.hold
  lightened :
      c.execution_recorded ≡ true
      → c.position_snapshot_updated ≡ true
      → InstrumentRule c InstrumentLifecycleState.reduce InstrumentLifecycleState.hold
  leave :
      c.exit_justified ≡ true
      → InstrumentRule c InstrumentLifecycleState.hold InstrumentLifecycleState.exit
  leave_adding :
      c.exit_justified ≡ true
      → InstrumentRule c InstrumentLifecycleState.add InstrumentLifecycleState.exit
  leave_reducing :
      c.exit_justified ≡ true
      → InstrumentRule c InstrumentLifecycleState.reduce InstrumentLifecycleState.exit
  cool_down :
      c.position_is_zero ≡ true
      → c.review_date_recorded ≡ true
      → InstrumentRule c InstrumentLifecycleState.exit InstrumentLifecycleState.cooldown
  watch_again :
      c.cooldown_elapsed ≡ true
      → c.new_evidence_or_thesis ≡ true
      → InstrumentRule c InstrumentLifecycleState.cooldown InstrumentLifecycleState.watch
  archive :
      c.archival_approved ≡ true
      → InstrumentRule c InstrumentLifecycleState.cooldown InstrumentLifecycleState.archived

ruleset instrument_rules = (
  screen, prepare, ready, open_position, enlarge, lighten, enlarged, lightened, leave, leave_adding,
  leave_reducing, cool_down, watch_again, archive,
)

pub transition_instrument_sound :
    (s t : InstrumentLifecycleState) (c : InstrumentTransitionContext) (rs : List Text)
    (at : UtcTimestamp) {x : StateTransition InstrumentLifecycleState}
    → transition_instrument s t c rs at ≡ ok x
    → HasReasons rs × InstrumentRule c s t
unfolding transition_instrument
transition_instrument_sound s t c rs at h = grind (arith, test-HasReasons rs, instrument_rules)

pub transition_instrument_target :
    (s t : InstrumentLifecycleState) (c : InstrumentTransitionContext) (rs : List Text)
    (at : UtcTimestamp) {x : StateTransition InstrumentLifecycleState}
    → transition_instrument s t c rs at ≡ ok x
    → t ≡ x.to_state
unfolding transition_instrument
transition_instrument_target s t c rs at h =
    ap (λ y. y.to_state)
      (checked_result (start_transition (instrument_transitions s t) rs) (instrument_guards s t c)
        (state_transition s t rs at) h)

pub transition_instrument_complete :
    (s t : InstrumentLifecycleState) (c : InstrumentTransitionContext) (rs : List Text)
    (at : UtcTimestamp)
    → HasReasons rs
    → InstrumentRule c s t
    → transition_instrument s t c rs at ≡ ok (state_transition s t rs at)
unfolding transition_instrument
transition_instrument_complete s t c rs at h (screen u v w) = ground (arith, HasReasons-test rs h)
transition_instrument_complete s t c rs at h (prepare u v) = ground (arith, HasReasons-test rs h)
transition_instrument_complete s t c rs at h (ready u v w x) = ground (arith, HasReasons-test rs h)
transition_instrument_complete s t c rs at h (open_position u v) =
    ground (arith, HasReasons-test rs h)
transition_instrument_complete s t c rs at h (enlarge u v w x) =
    ground (arith, HasReasons-test rs h)
transition_instrument_complete s t c rs at h (lighten u) = ground (arith, HasReasons-test rs h)
transition_instrument_complete s t c rs at h (enlarged u v) = ground (arith, HasReasons-test rs h)
transition_instrument_complete s t c rs at h (lightened u v) = ground (arith, HasReasons-test rs h)
transition_instrument_complete s t c rs at h (leave u) = ground (arith, HasReasons-test rs h)
transition_instrument_complete s t c rs at h (leave_adding u) = ground (arith, HasReasons-test rs h)
transition_instrument_complete s t c rs at h (leave_reducing u) =
    ground (arith, HasReasons-test rs h)
transition_instrument_complete s t c rs at h (cool_down u v) = ground (arith, HasReasons-test rs h)
transition_instrument_complete s t c rs at h (watch_again u v) =
    ground (arith, HasReasons-test rs h)
transition_instrument_complete s t c rs at h (archive u) = ground (arith, HasReasons-test rs h)

-- An instrument transition is accepted, with the record of exactly that step, if and only if it
-- is explained by reasons of which none is blank and the context meets the rule of the life cycle
-- for that pair of states.
pub transition_instrument_iff :
    (s t : InstrumentLifecycleState) (c : InstrumentTransitionContext) (rs : List Text)
    (at : UtcTimestamp)
    → (transition_instrument s t c rs at ≡ ok (state_transition s t rs at))
      ↔ (HasReasons rs × InstrumentRule c s t)
transition_instrument_iff s t c rs at = (
  λ h. transition_instrument_sound s t c rs at h,
  λ h. transition_instrument_complete s t c rs at h.0 h.1,
)
