-- ===== src/Thesis/Stored.antt =====
-- `_version_record` and `_content_from_record` of src/investment_os/infrastructure/thesis_engine.py,
-- and the row of src/investment_os/infrastructure/persistence/models.py.
use jz_investment_os.Base.{
  ℕ, Option, none, some, List, [], ◌∷◌, Outcome, ok, err, ◌>>=◌, if◌then◌else◌, traverse,
}
use jz_investment_os.Base.Text.{Text, codes}
use jz_investment_os.Base.Sort.{eqb_list}
use jz_investment_os.Base.Order.{leb_text, sort_by}
use jz_investment_os.Enums.{DomainErrorCode, ThesisState}
use jz_investment_os.Lifecycle.Transition.{UtcTimestamp}
use jz_investment_os.Thesis.{
  PillarStatus, ThesisChangeReason, EvidenceBackedClaim, ThesisPillar, InvalidationCondition,
  ThesisContent, ThesisVersion, evidence_backed_claim, thesis_pillar, invalidation_condition,
  thesis_content,
}
use jz_investment_os.Thesis.Payload.{
  Json, Items, Fields, Codec, thesis_state_value, pillar_status_value, change_reason_value,
  pillars_payload, claims_payload, conditions_payload, texts_payload,
}

-- `ThesisVersionRecord`, less the author and the causes of the row.
pub record VersionRecord : Type 0 where
  pub id : ℕ
  pub thesis_id : ℕ
  pub version : ℕ
  pub parent_version_id : Option ℕ
  pub thesis_state : Text
  pub summary : Text
  pub pillars_json : Json
  pub catalysts_json : Json
  pub risks_json : Json
  pub invalidation_conditions_json : Json
  pub monitoring_conditions_json : Json
  pub change_reason : Text
  pub content_hash : Text
  pub created_at : UtcTimestamp
  pub metadata_json : Json

-- `{"as_of": ..., **({"semantic_diff": ...} if diff_payload is not None else {})}`
abbrev pub version_metadata : Codec → UtcTimestamp → Option Json → Json
version_metadata codec evaluation_time none =
    Json.object
      (Fields.field (codes "as_of") (Json.string (codec.isoformat evaluation_time)) Fields.done)
version_metadata codec evaluation_time (some diff_payload) = Json.object (
    Fields.field (codes "as_of") (Json.string (codec.isoformat evaluation_time))
      (Fields.field (codes "semantic_diff") diff_payload Fields.done))

-- `_version_record`
unfoldable pub version_record :
    Codec → ThesisVersion → UtcTimestamp → UtcTimestamp → Option Json → VersionRecord
version_record codec v created_at evaluation_time diff_payload = record {
  id = v.id;
  thesis_id = v.thesis_id;
  version = v.version;
  parent_version_id = v.parent_version_id;
  thesis_state = thesis_state_value v.content.state;
  summary = v.content.long_term_summary;
  pillars_json = pillars_payload codec v.content;
  catalysts_json = claims_payload codec v.content.catalysts;
  risks_json = claims_payload codec v.content.risks;
  invalidation_conditions_json = conditions_payload v.content.invalidation_conditions;
  monitoring_conditions_json = texts_payload (sort_by leb_text v.content.monitoring_conditions);
  change_reason = change_reason_value v.content.change_reason;
  content_hash = v.content_hash;
  created_at = created_at;
  metadata_json = version_metadata codec evaluation_time diff_payload;
}

-- What reading a record may raise, all of it caught by the writer.
pub data ReadError : Type 0 where
  domain_error : DomainErrorCode → ReadError
  key_error value_error : ReadError

abbrev pub raised_by_domain : {A : Type 0} → Outcome DomainErrorCode A → Outcome ReadError A
raised_by_domain (err e) = err (ReadError.domain_error e)
raised_by_domain (ok a) = ok a

-- `PillarStatus(text)` and the like: the member with that value.
abbrev pub member_of : {A : Type 0} → (A → Text) → List A → Text → Outcome ReadError A
member_of value [] text = err ReadError.value_error
member_of value (a ∷ others) text =
    let later = member_of value others text in if eqb_list text (value a) then ok a else later

abbrev pub pillar_status_of : Text → Outcome ReadError PillarStatus
pillar_status_of =
    member_of pillar_status_value
      (PillarStatus.valid ∷ PillarStatus.at_risk ∷ PillarStatus.invalid ∷ [])

abbrev pub thesis_state_of : Text → Outcome ReadError ThesisState
thesis_state_of = member_of thesis_state_value (
    ThesisState.unknown ∷ ThesisState.valid ∷ ThesisState.strengthening ∷ ThesisState.weakening
    ∷ ThesisState.broken ∷ [])

abbrev pub change_reason_of : Text → Outcome ReadError ThesisChangeReason
change_reason_of = member_of change_reason_value (
    ThesisChangeReason.new_evidence ∷ ThesisChangeReason.scheduled_review ∷ ThesisChangeReason.event
    ∷ ThesisChangeReason.human_correction ∷ [])

-- `_mapping`, `isinstance(value, list)` with its elements, and `isinstance(value, str)`.
abbrev pub mapping : Json → Outcome ReadError Fields
mapping (Json.object fs) = ok fs
mapping _ = err ReadError.value_error

abbrev pub elements : Items → List Json
elements Items.end = []
elements (Items.item j js) = j ∷ elements js

abbrev pub json_list : Json → Outcome ReadError (List Json)
json_list (Json.array js) = ok (elements js)
json_list _ = err ReadError.value_error

abbrev pub json_text : Json → Outcome ReadError Text
json_text (Json.string t) = ok t
json_text _ = err ReadError.value_error

-- `_items`
abbrev pub mappings : Json → Outcome ReadError (List Fields)
mappings value = json_list value >>= traverse mapping

-- `payload.get(key)`, and `payload[key]`
abbrev pub get : Text → Fields → Json
get key Fields.done = Json.null
get key (Fields.field k j fs) = let rest = get key fs in if eqb_list key k then j else rest

abbrev pub get_item : Text → Fields → Outcome ReadError Json
get_item key Fields.done = err ReadError.key_error
get_item key (Fields.field k j fs) =
    let rest = get_item key fs in if eqb_list key k then ok j else rest

module _ (codec : Codec) where
  -- `str(value)`
  abbrev pub str : Json → Text
  str (Json.string t) = t
  str j = codec.str_of j

  -- `str(payload[key])`
  abbrev pub str_at : Text → Fields → Outcome ReadError Text
  str_at key fs = get_item key fs >>= λ j. ok (str j)

  -- `UUID(str(evidence_id))`
  abbrev pub read_uuid : Json → Outcome ReadError ℕ
  read_uuid j = elim (codec.uuid_of (str j)) [ none ↦ err ReadError.value_error | some i ↦ ok i ]

  -- `_claim_from_payload`
  unfoldable pub claim_from_payload : Json → Outcome ReadError EvidenceBackedClaim
  claim_from_payload value = do
    payload ← mapping value
    description ← json_text (get (codes "description") payload)
    ids ← json_list (get (codes "evidence_ids") payload)
    evidence_ids ← traverse read_uuid ids
    raised_by_domain
        (evidence_backed_claim (record { description = description; evidence_ids = evidence_ids }))

  -- The elements of the comprehensions of `_content_from_record`.
  abbrev pub read_pillar : Fields → Outcome ReadError ThesisPillar
  read_pillar pillar = do
    key ← str_at (codes "key") pillar
    claim ← claim_from_payload (get (codes "claim") pillar)
    value ← str_at (codes "status") pillar
    status ← pillar_status_of value
    raised_by_domain (thesis_pillar (record { key = key; claim = claim; status = status }))

  abbrev pub read_condition : Fields → Outcome ReadError InvalidationCondition
  read_condition fs = do
    condition ← str_at (codes "condition") fs
    measurement ← str_at (codes "measurement") fs
    threshold ← str_at (codes "threshold") fs
    window ← str_at (codes "window") fs
    raised_by_domain (
        invalidation_condition (record {
          condition = condition;
          measurement = measurement;
          threshold = threshold;
          window = window;
        }))

  abbrev pub read_claims : Json → Outcome ReadError (List EvidenceBackedClaim)
  read_claims value = mappings value >>= traverse (λ fs. claim_from_payload (Json.object fs))

  -- `_content_from_record`
  unfoldable pub content_from_record : VersionRecord → Outcome ReadError ThesisContent
  content_from_record r = do
    pillars ← mappings r.pillars_json >>= traverse read_pillar
    conditions ← mappings r.invalidation_conditions_json >>= traverse read_condition
    monitoring ← json_list r.monitoring_conditions_json >>= traverse json_text
    state ← thesis_state_of r.thesis_state
    catalysts ← read_claims r.catalysts_json
    risks ← read_claims r.risks_json
    reason ← change_reason_of r.change_reason
    raised_by_domain (
        thesis_content (record {
          state = state;
          long_term_summary = r.summary;
          pillars = pillars;
          catalysts = catalysts;
          risks = risks;
          invalidation_conditions = conditions;
          monitoring_conditions = monitoring;
          change_reason = reason;
        }))
