-- ===== src/Approval/Execution.antt =====
-- src/investment_os/domain/execution.py: receipts of paper and manual executions, under an approval.
use jz_investment_os.Base.{
  ℕ, ◌≡◌, ◌≢◌, Bool, true, false, not, ◌&&◌, ◌==◌, Option, none, some, List, [], ◌∷◌, Outcome, ok,
  ◌>>=◌, ◌>>◌, >>=-eq-ok, ensure-eq-ok, reject_if-eq-ok, subst, ensure, reject_if, is_some,
  is_empty, arith,
}
use jz_investment_os.Base.Text.{Text, strip, is_blank}
use jz_investment_os.Base.Decimal.{Decimal, d0, ltb_ℤ, leb_ℤ, eqb_ℤ, ◌≤ℤ◌}
use jz_investment_os.Enums.{ExecutionMode, ExecutionStatus, DomainErrorCode}
use jz_investment_os.Lifecycle.Transition.{UtcTimestamp}
use jz_investment_os.Values.{NumberInput, exact_decimal, Quantity}
use jz_investment_os.Approval.{DecisionApproval, is_valid_at}
use jz_investment_os.Approval.Validity.{Authorizes, is_valid_at_iff}

-- The fields of a `DecisionExecution`; `average_price` is what `exact_decimal` made of the input.
pub record DecisionExecution : Type 0 where
  pub decision_id : ℕ
  pub approval : DecisionApproval
  pub mode : ExecutionMode
  pub status : ExecutionStatus
  pub requested_quantity : Quantity
  pub filled_quantity : Quantity
  pub recorded_at : UtcTimestamp
  pub average_price : Option Decimal
  pub external_references : List Text
  pub id : ℕ

-- `_reference`
unfoldable pub reference : Text → Outcome DomainErrorCode Text
unfolding is_blank
reference value = reject_if (is_blank value) DomainErrorCode.invariant_violation >> ok (strip value)

unfoldable pub references : List Text → Outcome DomainErrorCode (List Text)
unfolding reference
references [] = ok []
references (x ∷ xs) = do y ← reference x; ys ← references xs; ok (y ∷ ys)

-- `exact_decimal(self.average_price) if self.average_price is not None else None`
unfoldable pub normalized_price : Option NumberInput → Outcome DomainErrorCode (Option Decimal)
unfolding exact_decimal
normalized_price none = ok none
normalized_price (some input) = do price ← exact_decimal input; ok (some price)

abbrev pub is_not_positive : Option Decimal → Bool
is_not_positive none = false
is_not_positive (some price) = leb_ℤ price d0

-- The test of `_validate_fill_state`.
unfoldable pub fill_state_fits : ExecutionStatus → Decimal → Decimal → Option Decimal → Bool
fill_state_fits ExecutionStatus.pending requested filled price =
    eqb_ℤ filled d0 && not (is_some price)
fill_state_fits ExecutionStatus.partial requested filled price =
    ltb_ℤ d0 filled && ltb_ℤ filled requested && is_some price
fill_state_fits ExecutionStatus.filled requested filled price =
    eqb_ℤ filled requested && is_some price
fill_state_fits ExecutionStatus.cancelled requested filled price = ltb_ℤ filled requested

abbrev pub is_manual : ExecutionMode → Bool
is_manual ExecutionMode.manual = true
is_manual ExecutionMode.paper = false

-- `DecisionExecution.__post_init__`, on the given fields and the given price and references.
unfoldable pub decision_execution :
    DecisionExecution → Option NumberInput → List Text → Outcome DomainErrorCode DecisionExecution
decision_execution x average_price external_references = do
  ensure (x.approval.decision_id == x.decision_id) DomainErrorCode.approval_invalid
  ensure (is_valid_at x.approval x.recorded_at) DomainErrorCode.approval_invalid
  reject_if (ltb_ℤ x.requested_quantity.value x.filled_quantity.value)
      DomainErrorCode.invariant_violation
  price ← normalized_price average_price
  reject_if (is_not_positive price) DomainErrorCode.out_of_range
  refs ← references external_references
  ensure (fill_state_fits x.status x.requested_quantity.value x.filled_quantity.value price)
      DomainErrorCode.invariant_violation
  reject_if (is_manual x.mode && is_empty refs) DomainErrorCode.invariant_violation
  ok (record x { average_price = price; external_references = refs })

-- What a receipt that exists is known to satisfy.
abbrev pub StatusFits : ExecutionStatus → Decimal → Decimal → Option Decimal → Type 0
StatusFits ExecutionStatus.pending requested filled price = (filled ≡ d0) × (price ≡ none)
StatusFits ExecutionStatus.partial requested filled price =
    ¬ (filled ≤ℤ d0) × ¬ (requested ≤ℤ filled) × (price ≢ none)
StatusFits ExecutionStatus.filled requested filled price = (filled ≡ requested) × (price ≢ none)
StatusFits ExecutionStatus.cancelled requested filled price = ¬ (requested ≤ℤ filled)

-- A price, where there is one, is above zero.
abbrev pub PriceFits : Option Decimal → Type 0
PriceFits none = Unit {0}
PriceFits (some price) = ¬ (price ≤ℤ d0)

pub record IsReceipt (x : DecisionExecution) : Type 0 where
  pub same_decision : x.approval.decision_id ≡ x.decision_id
  pub authorized : Authorizes x.approval x.recorded_at
  pub filled_within : x.filled_quantity.value ≤ℤ x.requested_quantity.value
  pub status_fits :
      StatusFits x.status x.requested_quantity.value x.filled_quantity.value x.average_price
  pub priced : PriceFits x.average_price
  pub referenced : x.mode ≡ ExecutionMode.manual → x.external_references ≢ []

fill_state-StatusFits :
    (s : ExecutionStatus) (r f : Decimal) (p : Option Decimal)
    → fill_state_fits s r f p ≡ true
    → StatusFits s r f p
unfolding fill_state_fits
fill_state-StatusFits ExecutionStatus.pending r f p h = ground arith
fill_state-StatusFits ExecutionStatus.partial r f p h = ground arith
fill_state-StatusFits ExecutionStatus.filled r f p h = ground arith
fill_state-StatusFits ExecutionStatus.cancelled r f p h = ground arith

positive_price : (p : Option Decimal) → is_not_positive p ≡ false → PriceFits p
positive_price none h = tt
positive_price (some d) h = ground (arith, h)

manual_referenced :
    (m : ExecutionMode) (refs : List Text)
    → (is_manual m && is_empty refs) ≡ false
    → m ≡ ExecutionMode.manual
    → refs ≢ []
manual_referenced m [] h e = ground arith
manual_referenced m (x ∷ xs) h e = λ f. cc

-- Every execution receipt that is accepted belongs to the Decision that its approval is for, was
-- recorded while that approval authorized, fills no more than was requested, has a price and a
-- filled quantity that fit its status, the price above zero where there is one, and names an
-- external reference if it is manual.
pub decision_execution-IsReceipt :
    (x : DecisionExecution) (p : Option NumberInput) (rs : List Text) {y : DecisionExecution}
    → decision_execution x p rs ≡ ok y
    → IsReceipt y
unfolding decision_execution
decision_execution-IsReceipt x p rs {y} h =
    let (same, h1) = ensure-eq-ok (x.approval.decision_id == x.decision_id) _ _ h in
    let (valid, h2) = ensure-eq-ok (is_valid_at x.approval x.recorded_at) _ _ h1 in
    let (within, h3) =
      reject_if-eq-ok (ltb_ℤ x.requested_quantity.value x.filled_quantity.value) _ _ h2 in
    let (price, h4, h5) = >>=-eq-ok (normalized_price p) _ h3 in
    let (positive, h6) = reject_if-eq-ok (is_not_positive price) _ _ h5 in
    let (refs, h7, h8) = >>=-eq-ok (references rs) _ h6 in
    let (fits, h9) =
      ensure-eq-ok
        (fill_state_fits x.status x.requested_quantity.value x.filled_quantity.value price) _ _
        h8 in
    let (manual, h10) = reject_if-eq-ok (is_manual x.mode && is_empty refs) _ _ h9 in
    let made : IsReceipt (record x { average_price = price; external_references = refs }) = record {
      same_decision = ground (arith, same);
      authorized = (is_valid_at_iff x.approval x.recorded_at).0 valid;
      filled_within = ground (arith, within);
      status_fits =
          fill_state-StatusFits x.status x.requested_quantity.value x.filled_quantity.value price
            fits;
      priced = positive_price price positive;
      referenced = manual_referenced x.mode refs manual;
    } in
    subst IsReceipt (cc h10) made
