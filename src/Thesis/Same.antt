-- ===== src/Thesis/Same.antt =====
-- The equality of the dataclasses of src/investment_os/domain/thesis.py, and content compared
-- without the order of its collections.
use jz_investment_os.Base.{◌≡◌, refl, sym, ◌∙◌, ◌↔◌, Bool, true, ◌&&◌, List, is_empty, arith}
use jz_investment_os.Base.Sort.{eqb_list, eqb_list→eq, eqb_list_refl}
use jz_investment_os.Base.Order.{sort_by, minus, mem_by, is_empty-sort_by}
use jz_investment_os.Base.Equality.{IsEquality, within_iff}
use jz_investment_os.Enums.{ThesisState}
use jz_investment_os.Thesis.{PillarStatus, EvidenceBackedClaim, ThesisContent}
use jz_investment_os.Thesis.Diff.{eqb_claim, eqb_pillar, eqb_condition, eqb_state, eqb_status}

pub eqb_state-IsEquality : IsEquality eqb_state
eqb_state-IsEquality = record { sound = λ s t h. ground arith; same = same_state }
  where
    same_state : (s : ThesisState) → eqb_state s s ≡ true
    same_state ThesisState.unknown = refl
    same_state ThesisState.valid = refl
    same_state ThesisState.strengthening = refl
    same_state ThesisState.weakening = refl
    same_state ThesisState.broken = refl

eqb_status-IsEquality : IsEquality eqb_status
eqb_status-IsEquality = record { sound = λ s t h. ground arith; same = same_status }
  where
    same_status : (s : PillarStatus) → eqb_status s s ≡ true
    same_status PillarStatus.valid = refl
    same_status PillarStatus.at_risk = refl
    same_status PillarStatus.invalid = refl

and_parts : (a b : Bool) → (a && b) ≡ true → (a ≡ true) × (b ≡ true)
and_parts a b h = ground arith

pub eqb_claim-IsEquality : IsEquality eqb_claim
unfolding eqb_claim
eqb_claim-IsEquality = record {
  sound =
      λ c d h. let p = and_parts _ _ h in claim_eq c d (eqb_list→eq _ _ p.0) (eqb_list→eq _ _ p.1);
  same = λ c. rw (eqb_list_refl c.description) (eqb_list_refl c.evidence_ids);
}
  where
    claim_eq :
        (c d : EvidenceBackedClaim)
        → c.description ≡ d.description
        → c.evidence_ids ≡ d.evidence_ids
        → c ≡ d
    claim_eq c d h k = λ i. record { description = h i; evidence_ids = k i }

pub eqb_pillar-IsEquality : IsEquality eqb_pillar
unfolding eqb_pillar
eqb_pillar-IsEquality = record {
  sound = λ p q h.
      let a = and_parts _ _ h in
      let b = and_parts _ _ a.1 in
      let key = eqb_list→eq p.key q.key a.0 in
      let claim = eqb_claim-IsEquality.sound p.claim q.claim b.0 in
      let status = eqb_status-IsEquality.sound p.status q.status b.1 in
      λ i. record { key = key i; claim = claim i; status = status i };
  same = λ p.
      rw (eqb_list_refl p.key)
        (rw (eqb_claim-IsEquality.same p.claim) (eqb_status-IsEquality.same p.status));
}

pub eqb_condition-IsEquality : IsEquality eqb_condition
unfolding eqb_condition
eqb_condition-IsEquality = record {
  sound = λ c d h.
      let p = and_parts _ _ h in
      let q = and_parts _ _ p.1 in
      let r = and_parts _ _ q.1 in
      let condition = eqb_list→eq c.condition d.condition p.0 in
      let measurement = eqb_list→eq c.measurement d.measurement q.0 in
      let threshold = eqb_list→eq c.threshold d.threshold r.0 in
      let window = eqb_list→eq c.window d.window r.1 in
      λ i. record {
        condition = condition i;
        measurement = measurement i;
        threshold = threshold i;
        window = window i;
      };
  same = λ c.
      rw (eqb_list_refl c.condition) (
        rw (eqb_list_refl c.measurement) (rw (eqb_list_refl c.threshold) (eqb_list_refl c.window)));
}

module _ {A : Type 0} (eqb : A → A → Bool) where
  -- Every element of the first list is in the second.
  abbrev pub Within : List A → List A → Type 0
  Within xs ys = (x : A) → mem_by eqb x xs ≡ true → mem_by eqb x ys ≡ true

  -- Two lists hold the same elements, in any order and number.
  pub record SameSet (xs ys : List A) : Type 0 where
    pub within : Within xs ys
    pub covers : Within ys xs

module _ {A : Type 0} {eqb : A → A → Bool} (law : IsEquality eqb) (leb : A → A → Bool) where
  -- The two differences of `semantic_diff` are empty.
  pub no_difference_iff :
      (xs ys : List A)
      → ((is_empty (sort_by leb (minus eqb xs ys)) ≡ true)
          × (is_empty (sort_by leb (minus eqb ys xs)) ≡ true))
        ↔ SameSet eqb xs ys
  no_difference_iff xs ys =
      let there = is_empty-sort_by leb (minus eqb xs ys) in
      let back = is_empty-sort_by leb (minus eqb ys xs) in
      (
        λ h. record {
          within = (within_iff law xs ys).0 (sym there ∙ h.0);
          covers = (within_iff law ys xs).0 (sym back ∙ h.1);
        },
        λ s. (there ∙ (within_iff law xs ys).1 s.within, back ∙ (within_iff law ys xs).1 s.covers),
      )

-- Content up to the order of its collections and the reason of the change.
pub record SameContent (p c : ThesisContent) : Type 0 where
  pub state : p.state ≡ c.state
  pub summary : p.long_term_summary ≡ c.long_term_summary
  pub pillars : SameSet eqb_pillar p.pillars c.pillars
  pub catalysts : SameSet eqb_claim p.catalysts c.catalysts
  pub risks : SameSet eqb_claim p.risks c.risks
  pub conditions : SameSet eqb_condition p.invalidation_conditions c.invalidation_conditions
  pub monitoring : SameSet eqb_list p.monitoring_conditions c.monitoring_conditions
