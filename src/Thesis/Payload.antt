-- ===== src/Thesis/Payload.antt =====
-- The JSON form of Thesis content: `thesis_content_payload`, `thesis_content_hash` and the keys of
-- src/investment_os/application/thesis.py.
use jz_investment_os.Base.{ℕ, Bool, Option, List, [], ◌∷◌, map}
use jz_investment_os.Base.Text.{Text, codes}
use jz_investment_os.Base.Sort.{sorted}
use jz_investment_os.Base.Order.{leb_text, leb_texts, sort_by}
use jz_investment_os.Enums.{ThesisState}
use jz_investment_os.Lifecycle.Transition.{UtcTimestamp}
use jz_investment_os.Thesis.{
  PillarStatus, ThesisChangeReason, EvidenceBackedClaim, ThesisPillar, InvalidationCondition,
  ThesisContent,
}

mutual
  pub data Json : Type 0 where
    null : Json
    boolean : Bool → Json
    number : ℕ → Json
    string : Text → Json
    array : Items → Json
    object : Fields → Json

  pub data Items : Type 0 where
    end : Items
    item : Json → Items → Items

  pub data Fields : Type 0 where
    done : Fields
    field : Text → Json → Fields → Fields

abbrev pub items : List Json → Items
items [] = Items.end
items (j ∷ js) = Items.item j (items js)

-- What the standard library does with texts: `str(uuid)`, `UUID(text)`, `str` of a JSON value that
-- is no string, `isoformat`, and the SHA-256 digest of the canonical text of a JSON value.
pub record Codec : Type 0 where
  pub str_uuid : ℕ → Text
  pub uuid_of : Text → Option ℕ
  pub str_of : Json → Text
  pub isoformat : UtcTimestamp → Text
  pub digest : Json → Text

-- `ThesisState`, `PillarStatus` and `ThesisChangeReason`: the `value` of a member.
abbrev pub thesis_state_value : ThesisState → Text
thesis_state_value ThesisState.unknown = codes "UNKNOWN"
thesis_state_value ThesisState.valid = codes "VALID"
thesis_state_value ThesisState.strengthening = codes "STRENGTHENING"
thesis_state_value ThesisState.weakening = codes "WEAKENING"
thesis_state_value ThesisState.broken = codes "BROKEN"

abbrev pub pillar_status_value : PillarStatus → Text
pillar_status_value PillarStatus.valid = codes "VALID"
pillar_status_value PillarStatus.at_risk = codes "AT_RISK"
pillar_status_value PillarStatus.invalid = codes "INVALID"

abbrev pub change_reason_value : ThesisChangeReason → Text
change_reason_value ThesisChangeReason.new_evidence = codes "NEW_EVIDENCE"
change_reason_value ThesisChangeReason.scheduled_review = codes "SCHEDULED_REVIEW"
change_reason_value ThesisChangeReason.event = codes "EVENT"
change_reason_value ThesisChangeReason.human_correction = codes "HUMAN_CORRECTION"

-- `_claim_key`, with an identifier in the place of its text: the texts of UUIDs are ordered as
-- their numbers.
abbrev pub claim_key : EvidenceBackedClaim → List Text
claim_key c = c.description ∷ sorted c.evidence_ids ∷ []

-- `_condition_key`
abbrev pub condition_key : InvalidationCondition → List Text
condition_key c = c.condition ∷ c.measurement ∷ c.threshold ∷ c.window ∷ []

abbrev pub leb_pillar : ThesisPillar → ThesisPillar → Bool
leb_pillar p q = leb_text p.key q.key

abbrev pub leb_claim : EvidenceBackedClaim → EvidenceBackedClaim → Bool
leb_claim c d = leb_texts (claim_key c) (claim_key d)

abbrev pub leb_condition : InvalidationCondition → InvalidationCondition → Bool
leb_condition c d = leb_texts (condition_key c) (condition_key d)

abbrev pub condition_fields : InvalidationCondition → Fields
condition_fields c = Fields.field (codes "condition") (Json.string c.condition) (
    Fields.field (codes "measurement") (Json.string c.measurement) (
      Fields.field (codes "threshold") (Json.string c.threshold)
        (Fields.field (codes "window") (Json.string c.window) Fields.done)))

abbrev pub condition_payload : InvalidationCondition → Json
condition_payload c = Json.object (condition_fields c)

abbrev pub conditions_payload : List InvalidationCondition → Json
conditions_payload cs = Json.array (items (map condition_payload (sort_by leb_condition cs)))

abbrev pub texts_payload : List Text → Json
texts_payload ts = Json.array (items (map Json.string ts))

module _ (codec : Codec) where
  -- `_claim_payload`
  abbrev pub claim_fields : EvidenceBackedClaim → Fields
  claim_fields c = Fields.field (codes "description") (Json.string c.description) (
      Fields.field (codes "evidence_ids")
        (Json.array (items (map (λ i. Json.string (codec.str_uuid i)) (sorted c.evidence_ids))))
        Fields.done)

  abbrev pub claim_payload : EvidenceBackedClaim → Json
  claim_payload c = Json.object (claim_fields c)

  abbrev pub pillar_fields : ThesisPillar → Fields
  pillar_fields p = Fields.field (codes "key") (Json.string p.key) (
      Fields.field (codes "claim") (claim_payload p.claim)
        (Fields.field (codes "status") (Json.string (pillar_status_value p.status)) Fields.done))

  abbrev pub pillar_payload : ThesisPillar → Json
  pillar_payload p = Json.object (pillar_fields p)

  -- The members of `thesis_content_payload` that hold a list.
  abbrev pub pillars_payload : ThesisContent → Json
  pillars_payload c = Json.array (items (map pillar_payload (sort_by leb_pillar c.pillars)))

  abbrev pub claims_payload : List EvidenceBackedClaim → Json
  claims_payload cs = Json.array (items (map claim_payload (sort_by leb_claim cs)))

  -- `thesis_content_payload`
  unfoldable pub thesis_content_payload : ThesisContent → Json
  thesis_content_payload c = Json.object (
      Fields.field (codes "state") (Json.string (thesis_state_value c.state)) (
        Fields.field (codes "long_term_summary") (Json.string c.long_term_summary) (
          Fields.field (codes "pillars") (pillars_payload c) (
            Fields.field (codes "catalysts") (claims_payload c.catalysts) (
              Fields.field (codes "risks") (claims_payload c.risks) (
                Fields.field (codes "invalidation_conditions")
                  (conditions_payload c.invalidation_conditions)
                  (Fields.field (codes "monitoring_conditions")
                    (texts_payload (sort_by leb_text c.monitoring_conditions))
                    (Fields.field (codes "change_reason")
                      (Json.string (change_reason_value c.change_reason)) Fields.done))))))))

  -- `thesis_content_hash`
  unfoldable pub thesis_content_hash : ThesisContent → Text
  thesis_content_hash c = codec.digest (thesis_content_payload c)
