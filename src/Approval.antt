-- ===== src/Approval.antt =====
-- src/investment_os/domain/approval.py and application/approval_gate.py: human approvals of one
-- Decision, what is in force at an instant, and the facts that the Decision machine is told.
pub mod Validity
pub mod History
pub mod Gate
pub mod Execution
use jz_investment_os.Base.{
  ℕ, Bool, true, false, not, ◌&&◌, ◌||◌, Option, none, some, List, map, Outcome, ok, err, ◌>>=◌,
  ◌>>◌, ensure, reject_if, any, is_empty, select, last?, leb, ltb, ◌==◌, if◌then◌else◌, is_some,
}
use jz_investment_os.Base.Text.{Text, is_blank}
use jz_investment_os.Base.Sort.{sorted, eqb_list}
use jz_investment_os.Enums.{Action, ActorType, ApprovalAction, DomainErrorCode, RiskGateState}
use jz_investment_os.Lifecycle.Transition.{UtcTimestamp}
use jz_investment_os.Lifecycle.Decision.{DecisionTransitionContext, decision_context}

-- The fields of a `DecisionApproval`; UUIDs are numbers.
pub record DecisionApproval : Type 0 where
  pub decision_id : ℕ
  pub actor_id : Text
  pub action : ApprovalAction
  pub occurred_at : UtcTimestamp
  pub expires_at : Option UtcTimestamp
  pub comment : Option Text
  pub id : ℕ

abbrev pub is_approve : ApprovalAction → Bool
is_approve ApprovalAction.approve = true
is_approve _ = false

abbrev pub is_revoke : ApprovalAction → Bool
is_revoke ApprovalAction.revoke = true
is_revoke _ = false

abbrev pub is_reject : ApprovalAction → Bool
is_reject ApprovalAction.reject = true
is_reject _ = false

-- The expiry that `__post_init__` accepts for an action at its time.
expiry_check :
    ApprovalAction → UtcTimestamp → Option UtcTimestamp → Outcome DomainErrorCode (Unit {0})
expiry_check ApprovalAction.approve occurred_at none = err DomainErrorCode.approval_invalid
expiry_check ApprovalAction.approve occurred_at (some expires_at) =
    reject_if (leb expires_at occurred_at) DomainErrorCode.approval_invalid
expiry_check _ occurred_at expires_at =
    reject_if (is_some expires_at) DomainErrorCode.approval_invalid

abbrev is_blank_comment : Option Text → Bool
is_blank_comment none = false
is_blank_comment (some comment) = is_blank comment

-- `DecisionApproval.__post_init__`, on the record with the given fields.
unfoldable pub decision_approval : DecisionApproval → Outcome DomainErrorCode DecisionApproval
unfolding expiry_check
decision_approval a = do
  reject_if (is_blank a.actor_id) DomainErrorCode.approval_invalid
  expiry_check a.action a.occurred_at a.expires_at
  reject_if (is_blank_comment a.comment) DomainErrorCode.approval_invalid
  ok a

-- `as_of < expires_at` where there is an expiry.
abbrev runs_until : Option UtcTimestamp → UtcTimestamp → Bool
runs_until none as_of = false
runs_until (some expires_at) as_of = ltb as_of expires_at

-- `DecisionApproval.is_valid_at`
unfoldable pub is_valid_at : DecisionApproval → UtcTimestamp → Bool
is_valid_at a as_of =
    is_approve a.action && leb a.occurred_at as_of && runs_until a.expires_at as_of

pub record DecisionApprovalHistory : Type 0 where
  pub decision_id : ℕ
  pub records : List DecisionApproval

-- `DecisionApprovalHistory.__post_init__`
unfoldable pub decision_approval_history :
    ℕ → List DecisionApproval → Outcome DomainErrorCode DecisionApprovalHistory
unfolding sorted
decision_approval_history decision_id records = do
  reject_if (is_empty records) DomainErrorCode.approval_invalid
  reject_if (any (λ r. not (r.decision_id == decision_id)) records) DomainErrorCode.approval_invalid
  let timestamps = map (λ r. r.occurred_at) records
  ensure (eqb_list timestamps (sorted timestamps)) DomainErrorCode.approval_invalid
  ok (record { decision_id = decision_id; records = records })

-- `latest_record_at`
unfoldable pub latest_record_at : DecisionApprovalHistory → UtcTimestamp → Option DecisionApproval
latest_record_at h as_of = last? (select (λ r. leb r.occurred_at as_of) h.records)

abbrev pub keep_if : {A : Type 0} → (A → Bool) → Option A → Option A
keep_if test none = none
keep_if test (some a) = if test a then some a else none

-- `active_approval_at`
unfoldable pub active_approval_at : DecisionApprovalHistory → UtcTimestamp → Option DecisionApproval
unfolding latest_record_at is_valid_at
active_approval_at h as_of = keep_if (λ a. is_valid_at a as_of) (latest_record_at h as_of)

-- What the gate reads off the latest and the active record.
abbrev pub actor_type_of : Option DecisionApproval → Option ActorType
actor_type_of none = none
actor_type_of (some a) = some ActorType.human

abbrev pub actor_id_of : Option DecisionApproval → Option Text
actor_id_of none = none
actor_id_of (some a) = some a.actor_id

abbrev pub holds_of : (DecisionApproval → Bool) → Option DecisionApproval → Bool
holds_of test none = false
holds_of test (some a) = test a

-- The context that `approval_transition_context` builds from the two records.
context_of_records :
    Action
    → Option DecisionApproval
    → Option DecisionApproval
    → UtcTimestamp
    → Bool
    → Bool
    → DecisionTransitionContext
unfolding is_valid_at
context_of_records action latest active as_of snapshot_matches price_within =
    record (decision_context action) {
      approval_actor_type = actor_type_of active;
      approval_actor_id = actor_id_of active;
      approval_recorded = is_some active;
      approval_unexpired = is_some active;
      approval_revoked = holds_of (λ a. is_revoke a.action) latest;
      approval_rejected = holds_of (λ a. is_reject a.action) latest;
      approval_expired = holds_of (λ a. is_approve a.action && not (is_valid_at a as_of)) latest;
      input_snapshot_matches = snapshot_matches;
      price_within_tolerance = price_within;
    }

abbrev pub in_history :
    {A : Type 0} → (DecisionApprovalHistory → Option A) → Option DecisionApprovalHistory → Option A
in_history f none = none
in_history f (some h) = f h

-- `approval_transition_context`
unfoldable pub approval_transition_context :
    Action → Option DecisionApprovalHistory → UtcTimestamp → Bool → Bool → DecisionTransitionContext
unfolding context_of_records latest_record_at active_approval_at
approval_transition_context action history as_of snapshot_matches price_within =
    context_of_records action (in_history (λ h. latest_record_at h as_of) history)
      (in_history (λ h. active_approval_at h as_of) history) as_of snapshot_matches price_within
