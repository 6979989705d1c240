-- ===== src/Approval/History.antt =====
-- `DecisionApprovalHistory` of src/investment_os/domain/approval.py: the latest record, the active
-- approval, and a later action.
use jz_investment_os.Base.{
  ◌≡◌, ◌≢◌, ◌↔◌, ◌≤◌, refl, ap, ℕ, ◌⊎◌, ◌>>◌, ensure, reject_if, inl, inr, Bool, true, false, not,
  none, some, List, [], ◌∷◌, ◌++◌, map, ok, arith, any, select, last?, leb, ◌==◌, All, Any,
  Bool-cases, Option-cases,
}
use jz_investment_os.Base.Sort.{AllAbove, IsSorted, sorted, eqb_list, sorted_test}
use jz_investment_os.Enums.{ApprovalAction, DomainErrorCode}
use jz_investment_os.Lifecycle.Transition.{UtcTimestamp}
use jz_investment_os.Approval.{
  DecisionApproval, DecisionApprovalHistory, decision_approval_history, is_valid_at,
  latest_record_at, active_approval_at,
}
use jz_investment_os.Approval.Validity.{Authorizes, is_valid_at_iff}

abbrev pub timestamps : List DecisionApproval → List UtcTimestamp
timestamps records = map (λ r. r.occurred_at) records

-- The last record at or before an instant, and every other visible one is no later.
pub record IsLatest (a : DecisionApproval) (t : UtcTimestamp) (rs : List DecisionApproval)
    : Type 0 where
  pub recorded : Any (λ r. r ≡ a) rs
  pub visible : a.occurred_at ≤ t
  pub last : All (λ r. r.occurred_at ≤ t → r.occurred_at ≤ a.occurred_at) rs

last?-cons :
    (x : DecisionApproval) (xs : List DecisionApproval) {a : DecisionApproval}
    → last? (x ∷ xs) ≡ some a
    → ((xs ≡ []) × (x ≡ a)) ⊎ (last? xs ≡ some a)
last?-cons x [] h = inl (refl, cc)
last?-cons x (y ∷ ys) h = inr h

select_none :
    (t : UtcTimestamp) (rs : List DecisionApproval)
    → select (λ r. leb r.occurred_at t) rs ≡ []
    → (b : DecisionApproval) → All (λ r. r.occurred_at ≤ t → r.occurred_at ≤ b.occurred_at) rs
select_none t [] h b = tt
select_none t (r ∷ rs) h b = elim (Bool-cases (leb r.occurred_at t)) [
  | inl e ↦ cc (rw e at h)
  | inr e ↦ (λ v. absurd (ground arith), select_none t rs (rw e at h) b)
]

above_member :
    (k : UtcTimestamp) (rs : List DecisionApproval) (a : DecisionApproval)
    → AllAbove k (timestamps rs)
    → Any (λ r. r ≡ a) rs
    → k ≤ a.occurred_at
above_member k [] a h m = absurd m
above_member k (r ∷ rs) a h (inl e) = rw (← e) h.0
above_member k (r ∷ rs) a h (inr m) = above_member k rs a h.1 m

IsLatest-in :
    (t : UtcTimestamp) (rs : List DecisionApproval) {a : DecisionApproval}
    → last? (select (λ r. leb r.occurred_at t) rs) ≡ some a
    → IsSorted (timestamps rs)
    → IsLatest a t rs
IsLatest-in t [] h o = cc
IsLatest-in t (r ∷ rs) {a} h o = elim (Bool-cases (leb r.occurred_at t)) [
  | inl e ↦ elim (last?-cons r (select (λ r. leb r.occurred_at t) rs) (rw e at h)) [
    | inl (stop, same) ↦ record {
      recorded = inl same;
      visible = ground (arith, same);
      last = (λ v. ground (arith, same), select_none t rs stop a);
    }
    | inr later ↦
        let l = IsLatest-in t rs later o.1 in
        record {
          recorded = inr l.recorded;
          visible = l.visible;
          last = (λ v. above_member r.occurred_at rs a o.0 l.recorded, l.last);
        }
  ]
  | inr e ↦
      let l = IsLatest-in t rs (rw e at h) o.1 in
      record {
        recorded = inr l.recorded;
        visible = l.visible;
        last = (λ v. absurd (ground arith), l.last);
      }
]

-- In a history ordered by time, the record that is found is in the history, is not after the
-- instant asked for, and no record up to that instant is later.
pub latest_record_at-IsLatest :
    (h : DecisionApprovalHistory) (t : UtcTimestamp) {a : DecisionApproval}
    → IsSorted (timestamps h.records)
    → latest_record_at h t ≡ some a
    → IsLatest a t h.records
unfolding latest_record_at
latest_record_at-IsLatest h t o e = IsLatest-in t h.records e o

-- The approval in force at an instant is the latest record of the ordered history up to then, and
-- it is an APPROVE inside its window.
pub active_approval_at-IsLatest :
    (h : DecisionApprovalHistory) (t : UtcTimestamp) {a : DecisionApproval}
    → IsSorted (timestamps h.records)
    → active_approval_at h t ≡ some a
    → IsLatest a t h.records × Authorizes a t
unfolding active_approval_at
active_approval_at-IsLatest h t {a} o e = elim (Option-cases (latest_record_at h t)) [
  | inl missing ↦ cc (rw missing at e)
  | inr (b, found) ↦ elim (Bool-cases (is_valid_at b t)) [
    | inl valid ↦
        let same : b ≡ a = ground (arith, found, valid) in
        (
          latest_record_at-IsLatest h t o (cc (found, same)),
          (is_valid_at_iff a t).0 (rw (← same) valid),
        )
    | inr invalid ↦ let none_left : ⊥ = ground (arith, found, invalid) in absurd none_left
  ]
]

last?-append : (xs : List DecisionApproval) (r : DecisionApproval) → last? (xs ++ r ∷ []) ≡ some r
last?-append [] r = refl
last?-append (x ∷ []) r = refl
last?-append (x ∷ y ∷ ys) r = last?-append (y ∷ ys) r

select-append :
    (f : DecisionApproval → Bool) (xs : List DecisionApproval) (r : DecisionApproval)
    → f r ≡ true
    → select f (xs ++ r ∷ []) ≡ select f xs ++ r ∷ []
select-append f [] r h = rw h
select-append f (x ∷ xs) r h = elim (Bool-cases (f x)) [
  | inl e ↦ rw e (ap (λ l. x ∷ l) (select-append f xs r h))
  | inr e ↦ rw e (select-append f xs r h)
]

-- A rejection or a revocation that is appended to a history leaves no approval in force, at its
-- own time and at any later time, whatever the history holds before it.
pub superseded_approval :
    (h : DecisionApprovalHistory) (r : DecisionApproval) (t : UtcTimestamp)
    → r.action ≢ ApprovalAction.approve
    → r.occurred_at ≤ t
    → active_approval_at (record h { records = h.records ++ r ∷ [] }) t ≡ none
unfolding active_approval_at
superseded_approval h r t denied past =
    rw (select-append (λ x. leb x.occurred_at t) h.records r (ground arith))
      (rw (last?-append (select (λ x. leb x.occurred_at t) h.records) r) (ground arith))

three_checks :
    {E A : Type 0} (a b c : Bool) (e : E) (y : A)
    → ((reject_if a e >> (reject_if b e >> (ensure c e >> ok y))) ≡ ok y)
      ↔ ((a ≡ false) × (b ≡ false) × (c ≡ true))
three_checks true b c e y = (λ h. cc, λ h. cc h.0)
three_checks false true c e y = (λ h. cc, λ h. cc h.1)
three_checks false false c e y = (λ h. ground arith, λ h. ground arith)

same_decision :
    (d : ℕ) (rs : List DecisionApproval)
    → (any (λ r. not (r.decision_id == d)) rs ≡ false) ↔ All (λ r. r.decision_id ≡ d) rs
same_decision d [] = (λ h. tt, λ h. refl)
same_decision d (r ∷ rs) =
    let (to, from) = same_decision d rs in
    (λ h. (ground arith, to (ground arith)), λ h. ground (arith, from h.1))

-- A history is accepted exactly if it has a record, all records are of its Decision, and their
-- times do not decrease.
decision_approval_history_iff :
    (d : ℕ) (rs : List DecisionApproval)
    → (decision_approval_history d rs ≡ ok (record { decision_id = d; records = rs }))
      ↔ ((rs ≢ []) × All (λ r. r.decision_id ≡ d) rs × IsSorted (timestamps rs))
unfolding decision_approval_history
decision_approval_history_iff d [] = (λ h. cc, λ h. absurd (h.0 refl))
decision_approval_history_iff d (r ∷ rs) =
    let checks =
      three_checks false (any (λ x. not (x.decision_id == d)) (r ∷ rs))
        (eqb_list (timestamps (r ∷ rs)) (sorted (timestamps (r ∷ rs))))
        DomainErrorCode.approval_invalid
        (let y : DecisionApprovalHistory = record { decision_id = d; records = r ∷ rs } in y) in
    (
      λ h. (
        λ e. cc,
        (same_decision d (r ∷ rs)).0 (checks.0 h).1,
        (sorted_test (timestamps (r ∷ rs))).0 (checks.0 h).2,
      ),
      λ h.
          checks.1
            (refl, (same_decision d (r ∷ rs)).1 h.1, (sorted_test (timestamps (r ∷ rs))).1 h.2),
    )
