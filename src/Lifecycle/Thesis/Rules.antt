-- ===== src/Lifecycle/Thesis/Rules.antt =====
-- The Thesis machine against its rules, and what a broken Thesis needs to recover.
use jz_investment_os.Base.{
  ◌≡◌, ◌↔◌, refl, Bool, true, false, subst, ap, List, Outcome, ok, ◌>>=◌, >>=-eq-ok, arith, Any,
}
use jz_investment_os.Base.Text.{Text}
use jz_investment_os.Enums.{ThesisState, DomainErrorCode}
use jz_investment_os.Lifecycle.Transition.{
  StateTransition, UtcTimestamp, state_transition, HasReasons, HasReasons-test, test-HasReasons,
  start_transition, checked_result,
}
use jz_investment_os.Lifecycle.Machine.{Request, run, run_crossing}
use jz_investment_os.Lifecycle.Thesis.{
  ThesisTransitionContext, thesis_transitions, thesis_guards, transition_thesis,
}

pub data ThesisMove : ThesisState → ThesisState → Type 0 where
  confirm : ThesisMove ThesisState.unknown ThesisState.valid
  strengthen : ThesisMove ThesisState.valid ThesisState.strengthening
  weaken : ThesisMove ThesisState.valid ThesisState.weakening
  settle : ThesisMove ThesisState.strengthening ThesisState.valid
  slip : ThesisMove ThesisState.strengthening ThesisState.weakening
  break : ThesisMove ThesisState.weakening ThesisState.broken

-- A move makes a new version on supporting Evidence; a recovery needs major new Evidence and a
-- full review besides.
pub data ThesisRule (c : ThesisTransitionContext) : ThesisState → ThesisState → Type 0 where
  move :
      {s t : ThesisState}
      → ThesisMove s t
      → c.creates_new_version ≡ true
      → c.evidence_supports_change ≡ true
      → ThesisRule c s t
  recover :
      c.creates_new_version ≡ true
      → c.evidence_supports_change ≡ true
      → c.major_new_evidence ≡ true
      → c.full_review_completed ≡ true
      → ThesisRule c ThesisState.broken ThesisState.valid

ruleset thesis_rules = (move, recover, confirm, strengthen, weaken, settle, slip, break)

pub transition_thesis_sound :
    (s t : ThesisState) (c : ThesisTransitionContext) (rs : List Text) (at : UtcTimestamp)
    {x : StateTransition ThesisState}
    → transition_thesis s t c rs at ≡ ok x
    → HasReasons rs × ThesisRule c s t
unfolding transition_thesis
transition_thesis_sound s t c rs at h = grind (arith, test-HasReasons rs, thesis_rules)

pub transition_thesis_complete :
    (s t : ThesisState) (c : ThesisTransitionContext) (rs : List Text) (at : UtcTimestamp)
    → HasReasons rs
    → ThesisRule c s t
    → transition_thesis s t c rs at ≡ ok (state_transition s t rs at)
unfolding transition_thesis
transition_thesis_complete s t c rs at h (move confirm a b) = ground (arith, HasReasons-test rs h)
transition_thesis_complete s t c rs at h (move strengthen a b) =
    ground (arith, HasReasons-test rs h)
transition_thesis_complete s t c rs at h (move weaken a b) = ground (arith, HasReasons-test rs h)
transition_thesis_complete s t c rs at h (move settle a b) = ground (arith, HasReasons-test rs h)
transition_thesis_complete s t c rs at h (move slip a b) = ground (arith, HasReasons-test rs h)
transition_thesis_complete s t c rs at h (move break a b) = ground (arith, HasReasons-test rs h)
transition_thesis_complete s t c rs at h (recover a b d e) = ground (arith, HasReasons-test rs h)

-- A Thesis transition is accepted, with the record of exactly that step, if and only if it is
-- explained by reasons of which none is blank and it is one of the six moves, with a new version
-- and supporting Evidence, or a recovery from BROKEN to VALID, with major new Evidence and a full
-- review besides.
pub transition_thesis_iff :
    (s t : ThesisState) (c : ThesisTransitionContext) (rs : List Text) (at : UtcTimestamp)
    → (transition_thesis s t c rs at ≡ ok (state_transition s t rs at))
      ↔ (HasReasons rs × ThesisRule c s t)
transition_thesis_iff s t c rs at = (
  λ h. transition_thesis_sound s t c rs at h,
  λ h. transition_thesis_complete s t c rs at h.0 h.1,
)

abbrev pub ThesisRequest : Type 0
ThesisRequest = Request ThesisState ThesisTransitionContext

unfoldable pub thesis_step : ThesisState → ThesisRequest → Outcome DomainErrorCode ThesisState
thesis_step s r = do
  x ← transition_thesis s r.target r.context r.reason_codes r.occurred_at
  ok x.to_state

transition_thesis_target :
    (s t : ThesisState) (c : ThesisTransitionContext) (rs : List Text) (at : UtcTimestamp)
    {x : StateTransition ThesisState}
    → transition_thesis s t c rs at ≡ ok x
    → t ≡ x.to_state
unfolding transition_thesis
transition_thesis_target s t c rs at h =
    ap (λ y. y.to_state)
      (checked_result (start_transition (thesis_transitions s t) rs) (thesis_guards s t c)
        (state_transition s t rs at) h)

thesis_step-rule :
    (s : ThesisState) (r : ThesisRequest) (t : ThesisState)
    → thesis_step s r ≡ ok t
    → ThesisRule r.context s t
unfolding thesis_step
thesis_step-rule s r t h =
    let (x, e, f) = >>=-eq-ok (transition_thesis s r.target r.context r.reason_codes _) _ h in
    subst (ThesisRule r.context s)
      (cc (transition_thesis_target s r.target r.context r.reason_codes _ e))
      (transition_thesis_sound s r.target r.context r.reason_codes _ e).1

abbrev pub is_sound : ThesisState → Bool
is_sound ThesisState.broken = false
is_sound _ = true

-- The Evidence and the review behind a recovery.
pub record RecoveryEvidence (c : ThesisTransitionContext) : Type 0 where
  pub major : c.major_new_evidence ≡ true
  pub reviewed : c.full_review_completed ≡ true
  pub versioned : c.creates_new_version ≡ true

recovery_border :
    {c : ThesisTransitionContext} {s t : ThesisState}
    → ThesisRule c s t
    → is_sound s ≡ false
    → RecoveryEvidence c
recovery_border (recover a b d e) o = record { major = d; reviewed = e; versioned = a }
recovery_border (move confirm a b) o = cc
recovery_border (move strengthen a b) o = cc
recovery_border (move weaken a b) o = cc
recovery_border (move settle a b) o = cc
recovery_border (move slip a b) o = cc
recovery_border (move break a b) o = cc

-- A BROKEN Thesis that is in any other state at the end of a sequence of accepted transitions
-- went through one that was made on major new Evidence, after a full review, in a new version.
pub recovery_needs_review :
    (rs : List ThesisRequest) (u : ThesisState)
    → run thesis_step ThesisState.broken rs ≡ ok u
    → is_sound u ≡ true
    → Any (λ r. RecoveryEvidence r.context) rs
recovery_needs_review rs u h i =
    run_crossing thesis_step is_sound (λ r. RecoveryEvidence r.context)
      (λ s r t e o p. recovery_border (thesis_step-rule s r t e) o) rs ThesisState.broken u h refl i
