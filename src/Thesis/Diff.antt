-- ===== src/Thesis/Diff.antt =====
-- `semantic_diff` of src/investment_os/application/thesis.py, and its payload.
use jz_investment_os.Base.{
  Bool, true, false, not, ◌&&◌, Option, none, some, List, [], ◌∷◌, map, is_empty, is_some,
  if◌then◌else◌, select, any,
}
use jz_investment_os.Base.Text.{Text, codes}
use jz_investment_os.Base.Sort.{eqb_list}
use jz_investment_os.Base.Order.{leb_text, sort_by, minus}
use jz_investment_os.Enums.{ThesisState}
use jz_investment_os.Thesis.{
  PillarStatus, EvidenceBackedClaim, ThesisPillar, InvalidationCondition, ThesisContent,
}
use jz_investment_os.Thesis.Payload.{
  Json, Fields, Codec, items, claim_payload, condition_payload, texts_payload, leb_claim,
  leb_condition,
}

-- `==` of the frozen dataclasses, field by field, and of enum members.
abbrev pub eqb_state : ThesisState → ThesisState → Bool
eqb_state ThesisState.unknown ThesisState.unknown = true
eqb_state ThesisState.valid ThesisState.valid = true
eqb_state ThesisState.strengthening ThesisState.strengthening = true
eqb_state ThesisState.weakening ThesisState.weakening = true
eqb_state ThesisState.broken ThesisState.broken = true
eqb_state _ _ = false

abbrev pub eqb_status : PillarStatus → PillarStatus → Bool
eqb_status PillarStatus.valid PillarStatus.valid = true
eqb_status PillarStatus.at_risk PillarStatus.at_risk = true
eqb_status PillarStatus.invalid PillarStatus.invalid = true
eqb_status _ _ = false

unfoldable pub eqb_claim : EvidenceBackedClaim → EvidenceBackedClaim → Bool
eqb_claim c d = eqb_list c.description d.description && eqb_list c.evidence_ids d.evidence_ids

unfoldable pub eqb_pillar : ThesisPillar → ThesisPillar → Bool
eqb_pillar p q = eqb_list p.key q.key && (eqb_claim p.claim q.claim && eqb_status p.status q.status)

unfoldable pub eqb_condition : InvalidationCondition → InvalidationCondition → Bool
eqb_condition c d =
    eqb_list c.condition d.condition
    && (eqb_list c.measurement d.measurement
        && (eqb_list c.threshold d.threshold && eqb_list c.window d.window))

pub record ThesisSemanticDiff : Type 0 where
  pub state_changed : Bool
  pub summary_changed : Bool
  pub added_pillar_keys : List Text
  pub removed_pillar_keys : List Text
  pub changed_pillar_keys : List Text
  pub added_catalysts : List EvidenceBackedClaim
  pub removed_catalysts : List EvidenceBackedClaim
  pub added_risks : List EvidenceBackedClaim
  pub removed_risks : List EvidenceBackedClaim
  pub added_invalidation_conditions : List InvalidationCondition
  pub removed_invalidation_conditions : List InvalidationCondition
  pub added_monitoring_conditions : List Text
  pub removed_monitoring_conditions : List Text

-- `ThesisSemanticDiff.is_material`
unfoldable pub is_material : ThesisSemanticDiff → Bool
is_material d =
    any (λ b. b)
      (d.state_changed
        ∷ d.summary_changed
        ∷ not (is_empty d.added_pillar_keys)
        ∷ not (is_empty d.removed_pillar_keys)
        ∷ not (is_empty d.changed_pillar_keys)
        ∷ not (is_empty d.added_catalysts)
        ∷ not (is_empty d.removed_catalysts)
        ∷ not (is_empty d.added_risks)
        ∷ not (is_empty d.removed_risks)
        ∷ not (is_empty d.added_invalidation_conditions)
        ∷ not (is_empty d.removed_invalidation_conditions)
        ∷ not (is_empty d.added_monitoring_conditions)
        ∷ not (is_empty d.removed_monitoring_conditions)
        ∷ [])

abbrev pub pillar_keys : List ThesisPillar → List Text
pillar_keys ps = map (λ p. p.key) ps

-- `{pillar.key: pillar for pillar in pillars}[key]`: a later pillar replaces an earlier one.
unfoldable pub pillar_at : Text → List ThesisPillar → Option ThesisPillar
pillar_at key [] = none
pillar_at key (p ∷ ps) =
    let later = pillar_at key ps in
    if is_some later then later else (if eqb_list key p.key then some p else none)

-- `key in shared_keys and previous_pillars[key] != current_pillars[key]`
abbrev pub differs : Option ThesisPillar → Option ThesisPillar → Bool
differs (some p) (some q) = not (eqb_pillar p q)
differs _ _ = false

abbrev pub pillar_changed : List ThesisPillar → List ThesisPillar → Text → Bool
pillar_changed previous current key = differs (pillar_at key previous) (pillar_at key current)

-- `sorted(frozenset(xs) - frozenset(ys))` of pillar keys or monitoring conditions, and with a key of
-- claims and of conditions. Claims that differ in the order of their identifiers only have one key:
-- they stand in the order in which they were given.
abbrev pub texts_minus : List Text → List Text → List Text
texts_minus xs ys = sort_by leb_text (minus eqb_list xs ys)

abbrev pub claims_minus :
    List EvidenceBackedClaim → List EvidenceBackedClaim → List EvidenceBackedClaim
claims_minus xs ys = sort_by leb_claim (minus eqb_claim xs ys)

abbrev pub conditions_minus :
    List InvalidationCondition → List InvalidationCondition → List InvalidationCondition
conditions_minus xs ys = sort_by leb_condition (minus eqb_condition xs ys)

-- `semantic_diff`
unfoldable pub semantic_diff : ThesisContent → ThesisContent → ThesisSemanticDiff
semantic_diff previous current =
    let previous_keys = pillar_keys previous.pillars in
    let current_keys = pillar_keys current.pillars in
    record {
      state_changed = not (eqb_state previous.state current.state);
      summary_changed = not (eqb_list previous.long_term_summary current.long_term_summary);
      added_pillar_keys = texts_minus current_keys previous_keys;
      removed_pillar_keys = texts_minus previous_keys current_keys;
      changed_pillar_keys = sort_by leb_text (
          select (pillar_changed previous.pillars current.pillars)
            (minus eqb_list previous_keys []));
      added_catalysts = claims_minus current.catalysts previous.catalysts;
      removed_catalysts = claims_minus previous.catalysts current.catalysts;
      added_risks = claims_minus current.risks previous.risks;
      removed_risks = claims_minus previous.risks current.risks;
      added_invalidation_conditions =
          conditions_minus current.invalidation_conditions previous.invalidation_conditions;
      removed_invalidation_conditions =
          conditions_minus previous.invalidation_conditions current.invalidation_conditions;
      added_monitoring_conditions =
          texts_minus current.monitoring_conditions previous.monitoring_conditions;
      removed_monitoring_conditions =
          texts_minus previous.monitoring_conditions current.monitoring_conditions;
    }

-- `thesis_semantic_diff_payload`
unfoldable pub thesis_semantic_diff_payload : Codec → ThesisSemanticDiff → Json
thesis_semantic_diff_payload codec d =
    let claims : List EvidenceBackedClaim → Json =
      λ cs. Json.array (items (map (claim_payload codec) cs)) in
    let conditions : List InvalidationCondition → Json =
      λ cs. Json.array (items (map condition_payload cs)) in
    Json.object (
      Fields.field (codes "state_changed") (Json.boolean d.state_changed) (
        Fields.field (codes "summary_changed") (Json.boolean d.summary_changed) (
          Fields.field (codes "added_pillar_keys") (texts_payload d.added_pillar_keys) (
            Fields.field (codes "removed_pillar_keys") (texts_payload d.removed_pillar_keys) (
              Fields.field (codes "changed_pillar_keys") (texts_payload d.changed_pillar_keys) (
                Fields.field (codes "added_catalysts") (claims d.added_catalysts) (
                  Fields.field (codes "removed_catalysts") (claims d.removed_catalysts) (
                    Fields.field (codes "added_risks") (claims d.added_risks) (
                      Fields.field (codes "removed_risks") (claims d.removed_risks) (
                        Fields.field (codes "added_invalidation_conditions")
                          (conditions d.added_invalidation_conditions)
                          (Fields.field (codes "removed_invalidation_conditions")
                            (conditions d.removed_invalidation_conditions)
                            (Fields.field (codes "added_monitoring_conditions")
                              (texts_payload d.added_monitoring_conditions)
                              (Fields.field (codes "removed_monitoring_conditions")
                                (texts_payload d.removed_monitoring_conditions)
                                Fields.done)))))))))))))
