-- ===== src/Thesis/RoundTrip.antt =====
-- Writing Thesis content into a row and reading it back.
use jz_investment_os.Base.{
  All-map, All-true, map-id, ℕ, ◌≡◌, refl, ap, ◌∙◌, Option, some, List, [], ◌∷◌, map, Outcome, ok,
  All, traverse, traverse-map, arith,
}
use jz_investment_os.Base.Sort.{sorted}
use jz_investment_os.Base.Order.{leb_text, sort_by, All-sort_by}
use jz_investment_os.Enums.{ThesisState}
use jz_investment_os.Lifecycle.Transition.{UtcTimestamp}
use jz_investment_os.Thesis.{
  ThesisVersion, PillarStatus, ThesisChangeReason, EvidenceBackedClaim, ThesisPillar,
  InvalidationCondition, thesis_pillar, invalidation_condition, thesis_text,
}
use jz_investment_os.Thesis.Shape.{
  stored_claim, stored_pillar, stored_claims, stored_content, IsClaim, IsPillar, IsContent,
  stored_claim-IsClaim, IsNormal-content, content-IsNormal, stored_content-IsNormal,
}
use jz_investment_os.Thesis.Payload.{
  thesis_state_value, pillar_status_value, change_reason_value, Json, Fields, Codec, items,
  claim_fields, claim_payload, leb_pillar, leb_claim, leb_condition, pillar_fields,
  condition_fields, claims_payload,
}
use jz_investment_os.Thesis.Stored.{
  thesis_state_of, pillar_status_of, change_reason_of, version_record, ReadError, elements,
  read_uuid, claim_from_payload, json_text, content_from_record, read_pillar, read_condition,
  mapping, mappings, read_claims,
}

-- `UUID(str(uuid))` is that UUID.
abbrev pub ReadsUuids : Codec → Type 0
ReadsUuids codec = (i : ℕ) → codec.uuid_of (codec.str_uuid i) ≡ some i

elements-items : (js : List Json) → elements (items js) ≡ js
elements-items [] = refl
elements-items (j ∷ js) = ap (λ ks. j ∷ ks) (elements-items js)

module _ {A B : Type 0} (read : Json → Outcome ReadError B) (write : A → Json)
    (as_read : A → B) where
  read_array :
      (xs : List A)
      → All (λ x. read (write x) ≡ ok (as_read x)) xs
      → traverse read (elements (items (map write xs))) ≡ ok (map as_read xs)
  read_array xs h = rw (elements-items (map write xs)) (traverse-map read write as_read xs h)

-- The member with the value of a member is that member.
read_status : (s : PillarStatus) → pillar_status_of (pillar_status_value s) ≡ ok s
read_status PillarStatus.valid = refl
read_status PillarStatus.at_risk = refl
read_status PillarStatus.invalid = refl

read_state : (s : ThesisState) → thesis_state_of (thesis_state_value s) ≡ ok s
read_state ThesisState.unknown = refl
read_state ThesisState.valid = refl
read_state ThesisState.strengthening = refl
read_state ThesisState.weakening = refl
read_state ThesisState.broken = refl

read_reason : (r : ThesisChangeReason) → change_reason_of (change_reason_value r) ≡ ok r
read_reason ThesisChangeReason.new_evidence = refl
read_reason ThesisChangeReason.scheduled_review = refl
read_reason ThesisChangeReason.event = refl
read_reason ThesisChangeReason.human_correction = refl

module _ (codec : Codec) (reads : ReadsUuids codec) where
  read_stored_uuid : (i : ℕ) → read_uuid codec (Json.string (codec.str_uuid i)) ≡ ok i
  read_stored_uuid i = rw (reads i, read_uuid) refl

  read_ids :
      (ids : List ℕ)
      → traverse
          (read_uuid codec)
          (elements (items (map (λ i. Json.string (codec.str_uuid i)) ids)))
        ≡ ok ids
  read_ids ids =
      read_array (read_uuid codec) (λ i. Json.string (codec.str_uuid i)) (λ i. i) ids
        (All-true _ read_stored_uuid ids)
      ∙ ap ok (map-id ids)

  read_claim :
      (c : EvidenceBackedClaim)
      → IsClaim c
      → claim_from_payload codec (claim_payload codec c) ≡ ok (stored_claim c)
  unfolding claim_from_payload
  read_claim c h = rw (read_ids (sorted c.evidence_ids)) (rw (stored_claim-IsClaim c h) refl)

  read_stored_pillar :
      (p : ThesisPillar)
      → IsPillar p
      → read_pillar codec (pillar_fields codec p) ≡ ok (stored_pillar p)
  unfolding thesis_pillar
  read_stored_pillar p h =
      let key : thesis_text p.key ≡ ok p.key = ground arith in
      rw (read_claim p.claim h.claim) (rw (read_status p.status, pillar_status_of) (rw key refl))

  read_stored_condition :
      (c : InvalidationCondition)
      → invalidation_condition c ≡ ok c
      → read_condition codec (condition_fields c) ≡ ok c
  read_stored_condition c h = rw h refl

  read_mappings :
      {A : Type 0} (write : A → Fields) (xs : List A)
      → mappings (Json.array (items (map (λ x. Json.object (write x)) xs))) ≡ ok (map write xs)
  read_mappings write xs =
      read_array mapping (λ x. Json.object (write x)) write xs (All-true _ (λ x. refl) xs)

  read_stored_claims :
      (cs : List EvidenceBackedClaim)
      → All IsClaim cs
      → read_claims codec (claims_payload codec cs) ≡ ok (stored_claims cs)
  read_stored_claims cs h = rw (read_mappings (claim_fields codec) (sort_by leb_claim cs)) (
      traverse-map (λ fs. claim_from_payload codec (Json.object fs)) (claim_fields codec)
        stored_claim (sort_by leb_claim cs)
        (All-map IsClaim _ read_claim (sort_by leb_claim cs) (All-sort_by leb_claim IsClaim cs h)))

-- Content that the constructors return is read back from its row without an error, in the stored
-- order: pillars by key, claims and conditions by their texts, the identifiers of a claim ascending.
-- (The texts of UUIDs are read back.)
pub content_round_trip :
    (codec : Codec) (v : ThesisVersion) (created_at evaluation_time : UtcTimestamp)
    (diff : Option Json)
    → ReadsUuids codec
    → IsContent v.content
    → content_from_record codec (version_record codec v created_at evaluation_time diff)
      ≡ ok (stored_content v.content)
unfolding content_from_record version_record
content_round_trip codec v created_at evaluation_time diff reads h =
    let c = v.content in
    let ps = sort_by leb_pillar c.pillars in
    let cs = sort_by leb_condition c.invalidation_conditions in
    let pillars = traverse-map (read_pillar codec) (pillar_fields codec) stored_pillar ps (
      All-map IsPillar _ (read_stored_pillar codec reads) ps
        (All-sort_by leb_pillar IsPillar c.pillars h.pillars)) in
    let conditions =
      traverse-map (read_condition codec) condition_fields (λ x. x) cs
        (All-map _ _ (read_stored_condition codec reads) cs
          (All-sort_by leb_condition _ c.invalidation_conditions h.conditions)) in
    let monitoring =
      read_array json_text Json.string (λ t. t) (sort_by leb_text c.monitoring_conditions)
        (All-true _ (λ t. refl) _) in
    rw (read_mappings codec reads (pillar_fields codec) ps) (
      rw pillars (
        rw (read_mappings codec reads condition_fields cs) (
          rw (conditions, map-id cs)
            (rw (monitoring, map-id (sort_by leb_text c.monitoring_conditions))
              (rw (read_state c.state, thesis_state_of)
                (rw (read_stored_claims codec reads c.catalysts h.catalysts) (
                  rw (read_stored_claims codec reads c.risks h.risks) (
                    rw (read_reason c.change_reason, change_reason_of)
                      (rw
                        (IsNormal-content (stored_content c)
                          (stored_content-IsNormal c (content-IsNormal c h.content)))
                        refl)))))))))
