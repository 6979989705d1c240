-- ===== src/Approval/Validity.antt =====
-- `DecisionApproval` of src/investment_os/domain/approval.py: accepted records, and their window.
use jz_investment_os.Base.{◌≡◌, ◌↔◌, ◌≤◌, ◌<◌, refl, true, false, Option, none, some, ok, arith}
use jz_investment_os.Base.Text.{Text, is_blank}
use jz_investment_os.Enums.{ApprovalAction}
use jz_investment_os.Lifecycle.Transition.{UtcTimestamp}
use jz_investment_os.Approval.{DecisionApproval, decision_approval, is_valid_at}

-- An approval, and it alone, expires, after it was given.
abbrev pub ExpiryFits : ApprovalAction → UtcTimestamp → Option UtcTimestamp → Type 0
ExpiryFits ApprovalAction.approve occurred none = ⊥
ExpiryFits ApprovalAction.approve occurred (some expires) = occurred < expires
ExpiryFits _ occurred none = Unit {0}
ExpiryFits _ occurred (some expires) = ⊥

abbrev pub CommentFits : Option Text → Type 0
CommentFits none = Unit {0}
CommentFits (some comment) = is_blank comment ≡ false

pub record IsApprovalRecord (a : DecisionApproval) : Type 0 where
  pub named : is_blank a.actor_id ≡ false
  pub expiry : ExpiryFits a.action a.occurred_at a.expires_at
  pub commented : CommentFits a.comment

approval_cases :
    (action : ApprovalAction) (a : DecisionApproval)
    → a.action ≡ action
    → (decision_approval a ≡ ok a) ↔ IsApprovalRecord a
unfolding decision_approval
approval_cases ApprovalAction.approve a e = (λ h. ground arith, λ h. ground arith)
approval_cases _ a e = (λ h. ground arith, λ h. ground arith)

-- An approval record is accepted exactly if its actor has a name, its comment, where there is
-- one, is not blank, and it has an expiry exactly if it is an APPROVE, after its own time.
decision_approval_iff : (a : DecisionApproval) → (decision_approval a ≡ ok a) ↔ IsApprovalRecord a
decision_approval_iff a = approval_cases a.action a refl

-- The half-open window in which an approval authorizes.
pub record Authorizes (a : DecisionApproval) (t : UtcTimestamp) : Type 0 where
  pub approves : a.action ≡ ApprovalAction.approve
  pub given : a.occurred_at ≤ t
  pub until : UtcTimestamp
  pub expires : a.expires_at ≡ some until
  pub running : t < until

valid_cases :
    (a : DecisionApproval) (t : UtcTimestamp) (o : Option UtcTimestamp)
    → a.expires_at ≡ o
    → is_valid_at a t ≡ true
    → Authorizes a t
unfolding is_valid_at
valid_cases a t none e h = ground arith
valid_cases a t (some u) e h = record {
  approves = ground arith;
  given = ground arith;
  until = u;
  expires = e;
  running = ground arith;
}

-- An approval record is valid at an instant exactly if it is an APPROVE, given at or before the
-- instant, whose expiry lies strictly after it.
pub is_valid_at_iff :
    (a : DecisionApproval) (t : UtcTimestamp) → (is_valid_at a t ≡ true) ↔ Authorizes a t
unfolding is_valid_at
is_valid_at_iff a t = (valid_cases a t a.expires_at refl, λ h. ground arith)
