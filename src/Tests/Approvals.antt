-- ===== src/Tests/Approvals.antt =====
-- A history of approvals, and an execution under it.
use jz_investment_os.Base.{◌≡◌, ◌↔◌, refl, true, none, some, List, [], ◌∷◌, ◌++◌, ok, arith}
use jz_investment_os.Base.Text.{Text, codes, is_blank, strip}
use jz_investment_os.Base.Sort.{IsSorted}
use jz_investment_os.Base.Decimal.{pos}
use jz_investment_os.Enums.{Action, ApprovalAction, DecisionState, ExecutionMode, ExecutionStatus}
use jz_investment_os.Lifecycle.Transition.{state_transition, HasReasons}
use jz_investment_os.Lifecycle.Decision.{transition_decision}
use jz_investment_os.Approval.{
  DecisionApproval, DecisionApprovalHistory, is_valid_at, active_approval_at,
  approval_transition_context,
}
use jz_investment_os.Approval.Validity.{IsApprovalRecord, Authorizes}
use jz_investment_os.Approval.History.{
  IsLatest, timestamps, active_approval_at-IsLatest, superseded_approval,
}
use jz_investment_os.Approval.Gate.{gate_approves_iff, gate_releases_iff}
use jz_investment_os.Values.{finite, exact_decimal}
use jz_investment_os.Approval.Execution.{
  DecisionExecution, IsReceipt, reference, references, normalized_price, fill_state_fits,
  decision_execution, decision_execution-IsReceipt,
}

abbrev record_at : ApprovalAction → DecisionApproval
record_at action = record {
  decision_id = 8;
  actor_id = codes "anna";
  action = action;
  occurred_at = 10;
  expires_at = some 20;
  comment = none;
  id = 1;
}

abbrev approval : DecisionApproval
approval = record_at ApprovalAction.approve

abbrev rejection : DecisionApproval
rejection = record approval { action = ApprovalAction.reject; expires_at = none; occurred_at = 5 }

abbrev revocation : DecisionApproval
revocation = record approval { action = ApprovalAction.revoke; expires_at = none; occurred_at = 12 }

abbrev records : List DecisionApproval
records = rejection ∷ approval ∷ []

abbrev history : DecisionApprovalHistory
history = record { decision_id = 8; records = records }

abbrev gate_reasons : List Text
gate_reasons = codes "HUMAN_APPROVED" ∷ []

approval-IsApprovalRecord : IsApprovalRecord approval
unfolding is_blank
approval-IsApprovalRecord = record { named = refl; expiry = omega arith; commented = tt }

rejection-IsApprovalRecord : IsApprovalRecord rejection
unfolding is_blank
rejection-IsApprovalRecord = record { named = refl; expiry = tt; commented = tt }

records-IsSorted : IsSorted (timestamps records)
records-IsSorted = ((omega arith, tt), (tt, tt))

active_found : active_approval_at history 15 ≡ some approval
unfolding active_approval_at
active_found = refl

active_approval_at-IsLatest_example : IsLatest approval 15 records × Authorizes approval 15
active_approval_at-IsLatest_example =
    active_approval_at-IsLatest history 15 {a = approval} records-IsSorted active_found

superseded_approval_example :
    active_approval_at (record history { records = records ++ revocation ∷ [] }) 15 ≡ none
superseded_approval_example = superseded_approval history revocation 15 (λ e. cc) (omega arith)

gate_approves_iff_example :
    (transition_decision DecisionState.pending_approval DecisionState.approved
        (approval_transition_context Action.buy (some history) 15 true true)
        gate_reasons
        15
      ≡ ok (state_transition DecisionState.pending_approval DecisionState.approved gate_reasons 15))
    ↔ (HasReasons gate_reasons
        × ((a : DecisionApproval) × (active_approval_at history 15 ≡ some a)))
gate_approves_iff_example =
    gate_approves_iff Action.buy history 15 true true gate_reasons 15 records-IsSorted
      (rejection-IsApprovalRecord, (approval-IsApprovalRecord, tt))

gate_releases_iff_example :
    (transition_decision DecisionState.approved DecisionState.execution_pending
        (approval_transition_context Action.buy (some history) 15 true true)
        gate_reasons
        15
      ≡ ok
          (state_transition DecisionState.approved DecisionState.execution_pending gate_reasons 15))
    ↔ (HasReasons gate_reasons
        × ((a : DecisionApproval) × (active_approval_at history 15 ≡ some a))
        × (true ≡ true)
        × (true ≡ true))
gate_releases_iff_example = gate_releases_iff Action.buy history 15 true true gate_reasons 15

abbrev execution : DecisionExecution
execution = record {
  decision_id = 8;
  approval = approval;
  mode = ExecutionMode.manual;
  status = ExecutionStatus.partial;
  requested_quantity = record { value = pos 100 };
  filled_quantity = record { value = pos 40 };
  recorded_at = 15;
  average_price = none;
  external_references = [];
  id = 2;
}

abbrev receipt : DecisionExecution
receipt = record execution { average_price = some (pos 7); external_references = codes "T-1" ∷ [] }

receipt_made :
    decision_execution execution (some (finite (pos 7))) (codes " T-1 " ∷ []) ≡ ok receipt
unfolding decision_execution is_valid_at normalized_price exact_decimal references reference
    fill_state_fits is_blank strip
receipt_made = refl

decision_execution-IsReceipt_example : IsReceipt receipt
decision_execution-IsReceipt_example =
    decision_execution-IsReceipt execution (some (finite (pos 7))) (codes " T-1 " ∷ [])
      {y = receipt} receipt_made
