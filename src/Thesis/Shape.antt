-- ===== src/Thesis/Shape.antt =====
-- Thesis content as the constructors leave it, and the same content in its stored order.
use jz_investment_os.Base.{
  is_empty-map, ◌||◌, if◌then◌else◌, returned_or, ◌≡◌, refl, ap, ◌∙◌, true, false, not, List, [],
  ◌∷◌, map, ok, >>=-eq-ok, reject_if-eq-ok, ◌&&◌, All, traverse-fixed, fixed-traverse, arith,
  is_empty, distinct,
}
use jz_investment_os.Base.Sort.{sorted, is_empty-sorted, eqb_list_sym, distinct-sorted}
use jz_investment_os.Base.Order.{
  leb_text, sort_by, All-sort_by, distinct_by, is_empty-sort_by, distinct_by-sort_by, mem_by,
}
use jz_investment_os.Thesis.{
  same_key, monitoring_texts, is_broken, EvidenceBackedClaim, ThesisPillar, ThesisContent,
  evidence_backed_claim, thesis_pillar, invalidation_condition, thesis_content, thesis_text,
  unique_evidence_ids,
}
use jz_investment_os.Thesis.Payload.{leb_pillar, leb_claim, leb_condition}

-- The content in the order in which it is stored.
abbrev pub stored_claim : EvidenceBackedClaim → EvidenceBackedClaim
stored_claim c = record c { evidence_ids = sorted c.evidence_ids }

abbrev pub stored_pillar : ThesisPillar → ThesisPillar
stored_pillar p = record p { claim = stored_claim p.claim }

abbrev pub stored_claims : List EvidenceBackedClaim → List EvidenceBackedClaim
stored_claims cs = map stored_claim (sort_by leb_claim cs)

abbrev pub stored_content : ThesisContent → ThesisContent
stored_content c = record c {
  pillars = map stored_pillar (sort_by leb_pillar c.pillars);
  catalysts = stored_claims c.catalysts;
  risks = stored_claims c.risks;
  invalidation_conditions = sort_by leb_condition c.invalidation_conditions;
  monitoring_conditions = sort_by leb_text c.monitoring_conditions;
}

-- What the constructors return: they leave it as it is.
abbrev pub IsClaim : EvidenceBackedClaim → Type 0
IsClaim c = evidence_backed_claim c ≡ ok c

pub record IsPillar (p : ThesisPillar) : Type 0 where
  pub pillar : thesis_pillar p ≡ ok p
  pub claim : IsClaim p.claim

pub record IsContent (c : ThesisContent) : Type 0 where
  pub content : thesis_content c ≡ ok c
  pub pillars : All IsPillar c.pillars
  pub catalysts : All IsClaim c.catalysts
  pub risks : All IsClaim c.risks
  pub conditions : All (λ x. invalidation_condition x ≡ ok x) c.invalidation_conditions

-- The parts of a claim.
pub IsClaim-parts :
    (c : EvidenceBackedClaim)
    → IsClaim c
    → (thesis_text c.description ≡ ok c.description)
      × (is_empty c.evidence_ids ≡ false)
      × (distinct c.evidence_ids ≡ true)
unfolding evidence_backed_claim unique_evidence_ids
IsClaim-parts c h = ground arith

pub stored_claim-IsClaim : (c : EvidenceBackedClaim) → IsClaim c → IsClaim (stored_claim c)
unfolding evidence_backed_claim unique_evidence_ids
stored_claim-IsClaim c h =
    let p = IsClaim-parts c h in
    let nonempty : is_empty (sorted c.evidence_ids) ≡ false =
      is_empty-sorted c.evidence_ids ∙ p.1 in
    let once : distinct (sorted c.evidence_ids) ≡ true = distinct-sorted c.evidence_ids ∙ p.2 in
    rw p.0 (rw nonempty (rw once refl))

-- The checks of `ThesisContent.__post_init__` on content that is as it should be.
pub record IsNormal (c : ThesisContent) : Type 0 where
  pub summary : thesis_text c.long_term_summary ≡ ok c.long_term_summary
  pub has_pillar : is_empty c.pillars ≡ false
  pub keys : distinct_by same_key c.pillars ≡ true
  pub monitoring : monitoring_texts c.monitoring_conditions ≡ ok c.monitoring_conditions
  pub broken : (is_broken c.state && is_empty c.invalidation_conditions) ≡ false

pub IsNormal-content : (c : ThesisContent) → IsNormal c → thesis_content c ≡ ok c
unfolding thesis_content
IsNormal-content c n =
    rw n.summary (rw n.has_pillar (rw n.keys (rw n.monitoring (rw n.broken refl))))

pub content-IsNormal : (c : ThesisContent) → thesis_content c ≡ ok c → IsNormal c
unfolding thesis_content
content-IsNormal c h =
    let a = >>=-eq-ok (thesis_text c.long_term_summary) _ h in
    let b = reject_if-eq-ok (is_empty c.pillars) _ _ a.2 in
    let d = reject_if-eq-ok (not (distinct_by same_key c.pillars)) _ _ b.1 in
    let e = >>=-eq-ok (monitoring_texts c.monitoring_conditions) _ d.1 in
    let f = reject_if-eq-ok (is_broken c.state && is_empty c.invalidation_conditions) _ _ e.2 in
    record {
      summary = a.1 ∙ ap (λ o. ok ((returned_or c o).long_term_summary)) f.1;
      has_pillar = b.0;
      keys = ground arith;
      monitoring = e.1 ∙ ap (λ o. ok ((returned_or c o).monitoring_conditions)) f.1;
      broken = f.0;
    }

pub mem-stored_pillar :
    (p : ThesisPillar) (ps : List ThesisPillar)
    → mem_by same_key (stored_pillar p) (map stored_pillar ps) ≡ mem_by same_key p ps
mem-stored_pillar p [] = refl
mem-stored_pillar p (q ∷ ps) = ap (λ b. same_key p q || b) (mem-stored_pillar p ps)

pub distinct-stored_pillar :
    (ps : List ThesisPillar) → distinct_by same_key (map stored_pillar ps) ≡ distinct_by same_key ps
distinct-stored_pillar [] = refl
distinct-stored_pillar (p ∷ ps) =
    rw (mem-stored_pillar p ps)
      (ap (λ b. (if mem_by same_key p ps then false else true) && b) (distinct-stored_pillar ps))

pub stored_content-IsNormal : (c : ThesisContent) → IsNormal c → IsNormal (stored_content c)
stored_content-IsNormal c n = record {
  summary = n.summary;
  has_pillar =
      is_empty-map stored_pillar (sort_by leb_pillar c.pillars)
      ∙ is_empty-sort_by leb_pillar c.pillars
      ∙ n.has_pillar;
  keys =
      distinct-stored_pillar (sort_by leb_pillar c.pillars)
      ∙ distinct_by-sort_by same_key (λ p q. eqb_list_sym p.key q.key) leb_pillar c.pillars
      ∙ n.keys;
  monitoring = traverse-fixed thesis_text _ (
      All-sort_by leb_text _ c.monitoring_conditions
        (fixed-traverse thesis_text c.monitoring_conditions n.monitoring));
  broken =
      ap (λ b. is_broken c.state && b) (is_empty-sort_by leb_condition c.invalidation_conditions)
      ∙ n.broken;
}
