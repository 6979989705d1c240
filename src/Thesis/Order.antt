-- ===== src/Thesis/Order.antt =====
-- When stored content is the same as the content that was given.
use jz_investment_os.Base.{
  ◌≡◌, refl, sym, ap, ◌∙◌, subst, ◌↔◌, inl, inr, Bool, true, List, [], ◌∷◌, map, arith, All,
  All-map, Bool-cases,
}
use jz_investment_os.Base.Sort.{sorted, IsSorted, sorted-IsSorted, sorted_fixed, eqb_list}
use jz_investment_os.Base.Order.{mem_by, sort_by, mem_by-sort_by, All-sort_by, leb_text}
use jz_investment_os.Base.Equality.{IsEquality}
use jz_investment_os.Thesis.{EvidenceBackedClaim, ThesisPillar, ThesisContent}
use jz_investment_os.Thesis.Payload.{leb_pillar, leb_claim, leb_condition}
use jz_investment_os.Thesis.Diff.{eqb_claim, eqb_pillar, eqb_condition}
use jz_investment_os.Thesis.Shape.{stored_claim, stored_pillar, stored_content}
use jz_investment_os.Thesis.Same.{SameSet, SameContent, eqb_claim-IsEquality, eqb_pillar-IsEquality}

-- The references of every claim are in ascending order.
abbrev pub Ascending : EvidenceBackedClaim → Type 0
Ascending c = IsSorted c.evidence_ids

pub record IsOrdered (c : ThesisContent) : Type 0 where
  pub pillars : All (λ p. Ascending p.claim) c.pillars
  pub catalysts : All Ascending c.catalysts
  pub risks : All Ascending c.risks

sorted_same : {A : Type 0} (eqb leb : A → A → Bool) (xs : List A) → SameSet eqb (sort_by leb xs) xs
sorted_same eqb leb xs = record {
  within = λ x m. sym (mem_by-sort_by leb eqb x xs) ∙ m;
  covers = λ x m. mem_by-sort_by leb eqb x xs ∙ m;
}

module _ {A : Type 0} {eqb : A → A → Bool} (law : IsEquality eqb) (f : A → A) where
  map_fixed : (xs : List A) → All (λ x. f x ≡ x) xs → map f xs ≡ xs
  map_fixed [] h = refl
  map_fixed (x ∷ xs) h = λ i. h.0 i ∷ map_fixed xs h.1 i

  mem_image :
      ((x : A) → f (f x) ≡ f x) → (x : A) (ys : List A) → mem_by eqb x (map f ys) ≡ true → f x ≡ x
  mem_image idem x [] m = cc
  mem_image idem x (y ∷ ys) m = elim (Bool-cases (eqb x (f y))) [
    | inl e ↦ let same = law.sound x (f y) e in ap f same ∙ idem y ∙ sym same
    | inr e ↦ mem_image idem x ys (ground (arith, m, e))
  ]

  to_All : {P : A → Type 0} (xs : List A) → ((x : A) → mem_by eqb x xs ≡ true → P x) → All P xs
  to_All [] h = tt
  to_All (y ∷ ys) h = (
    h y (rw (law.same y) refl),
    to_All ys (λ x m. h x (elim (Bool-cases (eqb x y)) [ inl e ↦ rw e refl | inr e ↦ rw e m ])),
  )

  -- A sorted image holds the same elements when the function leaves all of them as they are.
  image_iff :
      (leb : A → A → Bool)
      → ((x : A) → f (f x) ≡ f x)
      → (xs : List A) → SameSet eqb (map f (sort_by leb xs)) xs ↔ All (λ x. f x ≡ x) xs
  image_iff leb idem xs = (
    λ s. to_All xs (λ x m. mem_image idem x (sort_by leb xs) (s.covers x m)),
    λ h.
        subst (λ ys. SameSet eqb ys xs)
          (sym (map_fixed (sort_by leb xs) (All-sort_by leb (λ x. f x ≡ x) xs h)))
          (sorted_same eqb leb xs),
  )

stored_claim_twice : (c : EvidenceBackedClaim) → stored_claim (stored_claim c) ≡ stored_claim c
stored_claim_twice c =
    ap (λ ids. record c { evidence_ids = ids })
      (sorted_fixed (sorted c.evidence_ids) (sorted-IsSorted c.evidence_ids))

stored_claim_iff : (c : EvidenceBackedClaim) → (stored_claim c ≡ c) ↔ Ascending c
stored_claim_iff c = (
  λ h. subst IsSorted (ap (λ d. d.evidence_ids) h) (sorted-IsSorted c.evidence_ids),
  λ h. ap (λ ids. record c { evidence_ids = ids }) (sorted_fixed c.evidence_ids h),
)

stored_claims_iff :
    (cs : List EvidenceBackedClaim)
    → SameSet eqb_claim (map stored_claim (sort_by leb_claim cs)) cs ↔ All Ascending cs
stored_claims_iff cs =
    let i = image_iff eqb_claim-IsEquality stored_claim leb_claim stored_claim_twice cs in
    (
      λ s. All-map _ Ascending (λ c. (stored_claim_iff c).0) cs (i.0 s),
      λ h. i.1 (All-map Ascending _ (λ c. (stored_claim_iff c).1) cs h),
    )

stored_pillars_iff :
    (ps : List ThesisPillar)
    → SameSet eqb_pillar (map stored_pillar (sort_by leb_pillar ps)) ps
      ↔ All (λ p. Ascending p.claim) ps
stored_pillars_iff ps =
    let i =
      image_iff eqb_pillar-IsEquality stored_pillar leb_pillar
        (λ p. ap (λ c. record p { claim = c }) (stored_claim_twice p.claim)) ps in
    (
      λ s.
          All-map _ (λ p. Ascending p.claim)
            (λ p h. (stored_claim_iff p.claim).0 (ap (λ q. q.claim) h)) ps (i.0 s),
      λ h. i.1 (
          All-map (λ p. Ascending p.claim) _
            (λ p k. ap (λ c. record p { claim = c }) ((stored_claim_iff p.claim).1 k)) ps h),
    )

-- What is stored is the same content when the references of every claim ascend.
pub stored_content_iff : (c : ThesisContent) → SameContent (stored_content c) c ↔ IsOrdered c
stored_content_iff c = (
  λ s. record {
    pillars = (stored_pillars_iff c.pillars).0 s.pillars;
    catalysts = (stored_claims_iff c.catalysts).0 s.catalysts;
    risks = (stored_claims_iff c.risks).0 s.risks;
  },
  λ o. record {
    state = refl;
    summary = refl;
    pillars = (stored_pillars_iff c.pillars).1 o.pillars;
    catalysts = (stored_claims_iff c.catalysts).1 o.catalysts;
    risks = (stored_claims_iff c.risks).1 o.risks;
    conditions = sorted_same eqb_condition leb_condition c.invalidation_conditions;
    monitoring = sorted_same eqb_list leb_text c.monitoring_conditions;
  },
)
