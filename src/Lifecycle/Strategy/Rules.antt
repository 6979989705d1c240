-- ===== src/Lifecycle/Strategy/Rules.antt =====
-- The strategy proposals against their rules, and what a proposal needs to become active.
use jz_investment_os.Base.{
  ◌≡◌, ◌↔◌, true, false, subst, ap, List, Outcome, ok, ◌>>=◌, >>=-eq-ok, arith, Any,
}
use jz_investment_os.Base.Text.{Text}
use jz_investment_os.Enums.{StrategyProposalState, ActorType, DomainErrorCode}
use jz_investment_os.Lifecycle.Transition.{
  StateTransition, UtcTimestamp, state_transition, HasReasons, HasReasons-test, test-HasReasons,
  start_transition, checked_result,
}
use jz_investment_os.Lifecycle.Machine.{Request, run, run_crossing}
use jz_investment_os.Lifecycle.Strategy.{
  StrategyTransitionContext, needs_authority, strategy_transitions, strategy_checks,
  transition_strategy_proposal,
}

-- The road of a proposal, as a relation.
pub data StrategyRule (c : StrategyTransitionContext)
    : StrategyProposalState → StrategyProposalState → Type 0 where
  propose : StrategyRule c StrategyProposalState.draft StrategyProposalState.backtest_pending
  backtest :
      c.backtest_recorded ≡ true
      → StrategyRule c StrategyProposalState.backtest_pending StrategyProposalState.backtested
  shadow : StrategyRule c StrategyProposalState.backtested StrategyProposalState.shadow_pending
  shadowed :
      c.shadow_result_recorded ≡ true
      → StrategyRule c StrategyProposalState.shadow_pending StrategyProposalState.shadow_validated
  ask : StrategyRule c StrategyProposalState.shadow_validated StrategyProposalState.human_review
  accept :
      c.actor_type ≡ ActorType.human
      → c.human_decision_recorded ≡ true
      → StrategyRule c StrategyProposalState.human_review StrategyProposalState.approved
  decline :
      c.actor_type ≡ ActorType.human
      → c.human_decision_recorded ≡ true
      → StrategyRule c StrategyProposalState.human_review StrategyProposalState.rejected
  schedule :
      c.actor_type ≡ ActorType.human
      → c.activation_scheduled ≡ true
      → StrategyRule c StrategyProposalState.approved StrategyProposalState.scheduled_activation
  activate :
      c.actor_type ≡ ActorType.human
      → c.activation_due ≡ true
      → StrategyRule c StrategyProposalState.scheduled_activation StrategyProposalState.active
  retire :
      c.actor_type ≡ ActorType.human
      → c.retirement_approved ≡ true
      → StrategyRule c StrategyProposalState.active StrategyProposalState.retired

ruleset strategy_rules =
    (propose, backtest, shadow, shadowed, ask, accept, decline, schedule, activate, retire)

pub transition_strategy_proposal_sound :
    (s t : StrategyProposalState) (c : StrategyTransitionContext) (rs : List Text)
    (at : UtcTimestamp) {x : StateTransition StrategyProposalState}
    → transition_strategy_proposal s t c rs at ≡ ok x
    → HasReasons rs × StrategyRule c s t
unfolding transition_strategy_proposal
transition_strategy_proposal_sound StrategyProposalState.draft t c rs at h =
    grind (arith, test-HasReasons rs, strategy_rules)
transition_strategy_proposal_sound _ t c rs at h = grind (arith, test-HasReasons rs, strategy_rules)

strategy_target :
    (s t : StrategyProposalState) (c : StrategyTransitionContext) (rs : List Text)
    (at : UtcTimestamp) {x : StateTransition StrategyProposalState}
    → transition_strategy_proposal s t c rs at ≡ ok x
    → t ≡ x.to_state
unfolding transition_strategy_proposal
strategy_target s t c rs at h =
    ap (λ y. y.to_state)
      (checked_result (start_transition (strategy_transitions s t) rs) (strategy_checks s t c)
        (state_transition s t rs at) h)

pub transition_strategy_proposal_complete :
    (s t : StrategyProposalState) (c : StrategyTransitionContext) (rs : List Text)
    (at : UtcTimestamp)
    → HasReasons rs
    → StrategyRule c s t
    → transition_strategy_proposal s t c rs at ≡ ok (state_transition s t rs at)
unfolding transition_strategy_proposal
transition_strategy_proposal_complete s t c rs at h propose = ground (arith, HasReasons-test rs h)
transition_strategy_proposal_complete s t c rs at h (backtest u) =
    ground (arith, HasReasons-test rs h)
transition_strategy_proposal_complete s t c rs at h shadow = ground (arith, HasReasons-test rs h)
transition_strategy_proposal_complete s t c rs at h (shadowed u) =
    ground (arith, HasReasons-test rs h)
transition_strategy_proposal_complete s t c rs at h ask = ground (arith, HasReasons-test rs h)
transition_strategy_proposal_complete s t c rs at h (accept u v) =
    ground (arith, HasReasons-test rs h)
transition_strategy_proposal_complete s t c rs at h (decline u v) =
    ground (arith, HasReasons-test rs h)
transition_strategy_proposal_complete s t c rs at h (schedule u v) =
    ground (arith, HasReasons-test rs h)
transition_strategy_proposal_complete s t c rs at h (activate u v) =
    ground (arith, HasReasons-test rs h)
transition_strategy_proposal_complete s t c rs at h (retire u v) =
    ground (arith, HasReasons-test rs h)

-- A strategy transition is accepted, with the record of exactly that step, if and only if it is
-- explained by reasons of which none is blank and the context meets the rule of the road for that
-- pair of states; the decision, the scheduling, the activation and the retirement want a human.
pub transition_strategy_proposal_iff :
    (s t : StrategyProposalState) (c : StrategyTransitionContext) (rs : List Text)
    (at : UtcTimestamp)
    → (transition_strategy_proposal s t c rs at ≡ ok (state_transition s t rs at))
      ↔ (HasReasons rs × StrategyRule c s t)
transition_strategy_proposal_iff s t c rs at = (
  λ h. transition_strategy_proposal_sound s t c rs at h,
  λ h. transition_strategy_proposal_complete s t c rs at h.0 h.1,
)

abbrev pub StrategyRequest : Type 0
StrategyRequest = Request StrategyProposalState StrategyTransitionContext

unfoldable pub strategy_step :
    StrategyProposalState → StrategyRequest → Outcome DomainErrorCode StrategyProposalState
strategy_step s r = do
  x ← transition_strategy_proposal s r.target r.context r.reason_codes r.occurred_at
  ok x.to_state

strategy_step-rule :
    (s : StrategyProposalState) (r : StrategyRequest) (t : StrategyProposalState)
    → strategy_step s r ≡ ok t
    → StrategyRule r.context s t
unfolding strategy_step
strategy_step-rule s r t h =
    let (x, e, f) =
      >>=-eq-ok (transition_strategy_proposal s r.target r.context r.reason_codes _) _ h in
    subst (StrategyRule r.context s) (cc (strategy_target s r.target r.context r.reason_codes _ e))
      (transition_strategy_proposal_sound s r.target r.context r.reason_codes _ e).1

strategy_step-target :
    (s : StrategyProposalState) (r : StrategyRequest) (t : StrategyProposalState)
    → strategy_step s r ≡ ok t
    → t ≡ r.target
unfolding strategy_step
strategy_step-target s r t h =
    let (x, e, f) =
      >>=-eq-ok (transition_strategy_proposal s r.target r.context r.reason_codes _) _ h in
    cc (strategy_target s r.target r.context r.reason_codes _ e)

-- A human signed the human decision.
pub record HumanDecision (c : StrategyTransitionContext) : Type 0 where
  pub by_human : c.actor_type ≡ ActorType.human
  pub recorded : c.human_decision_recorded ≡ true

decision_border :
    {c : StrategyTransitionContext} {s t : StrategyProposalState}
    → StrategyRule c s t
    → needs_authority s ≡ false
    → needs_authority t ≡ true
    → HumanDecision c
decision_border (accept a b) o i = record { by_human = a; recorded = b }
decision_border (decline a b) o i = record { by_human = a; recorded = b }
decision_border propose o i = cc
decision_border _ o i = cc

-- A proposal that is not decided yet, in whatever state up to HUMAN_REVIEW it is, and that is
-- approved, rejected, scheduled, active or retired at the end was moved into one of these states by a
-- request of a human with a recorded human decision.
pub strategy_needs_human :
    (rs : List StrategyRequest) (s u : StrategyProposalState)
    → run strategy_step s rs ≡ ok u
    → needs_authority s ≡ false
    → needs_authority u ≡ true
    → Any (λ r. (needs_authority r.target ≡ true) × HumanDecision r.context) rs
strategy_needs_human rs s u h o i =
    run_crossing strategy_step needs_authority
      (λ r. (needs_authority r.target ≡ true) × HumanDecision r.context)
      (λ v r t e p q. (
        subst (λ x. needs_authority x ≡ true) (strategy_step-target v r t e) q,
        decision_border (strategy_step-rule v r t e) p q,
      ))
      rs s u h o i
