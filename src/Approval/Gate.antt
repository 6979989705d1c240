-- ===== src/Approval/Gate.antt =====
-- The facts of application/approval_gate.py, and the Decision machine when it is told them.
use jz_investment_os.Base.{
  ℕ, ◌+◌, ◌≡◌, ◌↔◌, refl, ap, ◌∙◌, not, inl, inr, Bool, true, false, Option, none, some, List, [],
  ◌∷◌, ok, arith, is_some, All, Any, Option-cases,
}
use jz_investment_os.Base.Text.{Text, is_blank}
use jz_investment_os.Base.Sort.{IsSorted}
use jz_investment_os.Enums.{Action, DecisionState}
use jz_investment_os.Lifecycle.Transition.{UtcTimestamp, state_transition, HasReasons}
use jz_investment_os.Lifecycle.Decision.{DecisionTransitionContext, transition_decision, is_named}
use jz_investment_os.Lifecycle.Decision.Rules.{
  DecisionRule, HumanApproval, transition_decision_iff, approve, release,
}
use jz_investment_os.Lifecycle.Decision.Traces.{ReleaseChecks}
use jz_investment_os.Approval.{
  DecisionApproval, DecisionApprovalHistory, latest_record_at, active_approval_at,
  approval_transition_context, context_of_records, is_valid_at, keep_if, actor_type_of, actor_id_of,
  holds_of, is_revoke,
}
use jz_investment_os.Approval.Validity.{IsApprovalRecord}
use jz_investment_os.Approval.History.{timestamps, active_approval_at-IsLatest}

abbrev pub bit : Bool → ℕ
bit true = 1
bit false = 0

flags_of_latest :
    (x : Action) (t : UtcTimestamp) (m p : Bool) (o : Option DecisionApproval)
    → let c = context_of_records x o (keep_if (λ a. is_valid_at a t) o) t m p in
      bit c.approval_recorded
        + bit c.approval_revoked
        + bit c.approval_rejected
        + bit c.approval_expired
      ≡ bit (is_some o)
unfolding context_of_records
flags_of_latest x t m p none = refl
flags_of_latest x t m p (some a) = ground arith

-- Of the four facts recorded, revoked, rejected and expired, the gate reports exactly one if the
-- history has a record at or before the instant, and none otherwise.
approval_facts_exclusive :
    (x : Action) (h : DecisionApprovalHistory) (t : UtcTimestamp) (m p : Bool)
    → let c = approval_transition_context x (some h) t m p in
      bit c.approval_recorded
        + bit c.approval_revoked
        + bit c.approval_rejected
        + bit c.approval_expired
      ≡ bit (is_some (latest_record_at h t))
unfolding approval_transition_context
approval_facts_exclusive x h t m p = flags_of_latest x t m p (latest_record_at h t)

member_named :
    (a : DecisionApproval) (rs : List DecisionApproval)
    → All IsApprovalRecord rs
    → Any (λ r. r ≡ a) rs
    → is_blank a.actor_id ≡ false
member_named a [] h m = absurd m
member_named a (r ∷ rs) h (inl e) = cc (h.0.named)
member_named a (r ∷ rs) h (inr m) = member_named a rs h.1 m

active_named :
    (h : DecisionApprovalHistory) (t : UtcTimestamp) {a : DecisionApproval}
    → IsSorted (timestamps h.records)
    → All IsApprovalRecord h.records
    → active_approval_at h t ≡ some a
    → is_blank a.actor_id ≡ false
active_named h t {a} o v e =
    member_named a h.records v (active_approval_at-IsLatest h t o e).0.recorded

human_of_active :
    (x : Action) (h : DecisionApprovalHistory) (t : UtcTimestamp) (m p : Bool)
    (a : DecisionApproval)
    → active_approval_at h t ≡ some a
    → is_blank a.actor_id ≡ false
    → HumanApproval (approval_transition_context x (some h) t m p)
unfolding approval_transition_context
human_of_active x h t m p a e b = record {
  recorded = ap is_some e;
  by_human = ap actor_type_of e;
  named = ap (λ o. is_named (actor_id_of o)) e ∙ ap not b;
  unexpired = ap is_some e;
}

unrevoked :
    (t : UtcTimestamp) (o : Option DecisionApproval) {a : DecisionApproval}
    → keep_if (λ r. is_valid_at r t) o ≡ some a
    → holds_of (λ r. is_revoke r.action) o ≡ false
unfolding is_valid_at
unrevoked t none e = refl
unrevoked t (some r) e = ground arith

active_of_fact :
    (x : Action) (h : DecisionApprovalHistory) (t : UtcTimestamp) (m p : Bool)
    → (approval_transition_context x (some h) t m p).approval_recorded ≡ true
    → (a : DecisionApproval) × (active_approval_at h t ≡ some a)
unfolding approval_transition_context
active_of_fact x h t m p e = elim (Option-cases (active_approval_at h t)) [
  | inl missing ↦ cc (rw missing at e)
  | inr found ↦ found
]

approve_rule :
    {c : DecisionTransitionContext}
    → DecisionRule c DecisionState.pending_approval DecisionState.approved
    → HumanApproval c
approve_rule (approve a) = a

release_rule :
    {c : DecisionTransitionContext}
    → DecisionRule c DecisionState.approved DecisionState.execution_pending
    → ReleaseChecks c
release_rule (release a b d e) = record {
  unexpired = a;
  unrevoked = b;
  same_inputs = d;
  same_price = e;
}

active_of_unexpired :
    (x : Action) (h : DecisionApprovalHistory) (t : UtcTimestamp) (m p : Bool)
    → (approval_transition_context x (some h) t m p).approval_unexpired ≡ true
    → (a : DecisionApproval) × (active_approval_at h t ≡ some a)
unfolding approval_transition_context
active_of_unexpired x h t m p e = active_of_fact x h t m p e

release_of_active :
    (x : Action) (h : DecisionApprovalHistory) (t : UtcTimestamp) (m p : Bool)
    (a : DecisionApproval)
    → active_approval_at h t ≡ some a
    → m ≡ true
    → p ≡ true
    → DecisionRule
        (approval_transition_context x (some h) t m p)
        DecisionState.approved
        DecisionState.execution_pending
unfolding approval_transition_context
release_of_active x h t m p a e k l =
    release (ap is_some e) (unrevoked t (latest_record_at h t) e) k l

-- With the facts that the gate derives from a well-formed history at an instant, a pending
-- Decision is approved exactly if the transition has proper reasons and the history has an
-- approval in force at that instant.
pub gate_approves_iff :
    (x : Action) (h : DecisionApprovalHistory) (t : UtcTimestamp) (m p : Bool) (rs : List Text)
    (at : UtcTimestamp)
    → IsSorted (timestamps h.records)
    → All IsApprovalRecord h.records
    → (transition_decision DecisionState.pending_approval DecisionState.approved
          (approval_transition_context x (some h) t m p)
          rs
          at
        ≡ ok (state_transition DecisionState.pending_approval DecisionState.approved rs at))
      ↔ (HasReasons rs × ((a : DecisionApproval) × (active_approval_at h t ≡ some a)))
gate_approves_iff x h t m p rs at o v =
    let c = approval_transition_context x (some h) t m p in
    let iff =
      transition_decision_iff DecisionState.pending_approval DecisionState.approved c rs at in
    (
      λ e. ((iff.0 e).0, active_of_fact x h t m p (approve_rule (iff.0 e).1).recorded),
      λ k.
          iff.1 (
            k.0,
            approve (human_of_active x h t m p (k.1).0 (k.1).1 (active_named h t o v (k.1).1)),
          ),
    )

-- With those facts an approved Decision is handed over for execution exactly if the transition
-- has proper reasons, the history has an approval in force at the instant, the input snapshot is
-- the approved one and the price is within tolerance.
pub gate_releases_iff :
    (x : Action) (h : DecisionApprovalHistory) (t : UtcTimestamp) (m p : Bool) (rs : List Text)
    (at : UtcTimestamp)
    → (transition_decision DecisionState.approved DecisionState.execution_pending
          (approval_transition_context x (some h) t m p)
          rs
          at
        ≡ ok (state_transition DecisionState.approved DecisionState.execution_pending rs at))
      ↔ (HasReasons rs
          × ((a : DecisionApproval) × (active_approval_at h t ≡ some a))
          × (m ≡ true)
          × (p ≡ true))
unfolding approval_transition_context
gate_releases_iff x h t m p rs at =
    let c = approval_transition_context x (some h) t m p in
    let iff =
      transition_decision_iff DecisionState.approved DecisionState.execution_pending c rs at in
    (
      λ e.
          let checks = release_rule (iff.0 e).1 in
          (
            (iff.0 e).0,
            active_of_unexpired x h t m p checks.unexpired,
            checks.same_inputs,
            checks.same_price,
          ),
      λ k. iff.1 (k.0, release_of_active x h t m p (k.1).0 (k.1).1 k.2 k.3),
    )
