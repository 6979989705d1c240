-- ===== src/Thesis.antt =====
-- src/investment_os/domain/thesis.py: immutable Thesis content and its versions.
pub mod Payload
pub mod Diff
pub mod Stored
pub mod Shape
pub mod RoundTrip
pub mod Same
pub mod Pillars
pub mod Material
pub mod Store
pub mod Writer
pub mod Lineage
pub mod Planned
pub mod Writes
pub mod Order
pub mod Rewrites
pub mod Again
pub mod Monitor
pub mod Triggers
pub mod Unsupported
pub mod Proposal
pub mod Invalidation
pub mod Races
pub mod Reader
use jz_investment_os.Base.{
  ℕ, Bool, true, false, not, ◌&&◌, ◌||◌, Option, none, some, List, [], ◌∷◌, ◌++◌, map, Outcome, ok,
  ◌>>=◌, ◌>>◌, reject_if, any, is_empty, length, distinct, mem, ltb, ◌==◌, if◌then◌else◌, is_some,
  traverse,
}
use jz_investment_os.Base.Text.{Text, strip, lower}
use jz_investment_os.Base.Order.{distinct_by}
use jz_investment_os.Base.Sort.{eqb_list}
use jz_investment_os.Enums.{DomainErrorCode, ThesisState}
use jz_investment_os.Journal.{is_hexdigit}

pub data PillarStatus : Type 0 where
  valid at_risk invalid : PillarStatus

pub data ThesisChangeReason : Type 0 where
  new_evidence scheduled_review event human_correction : ThesisChangeReason

-- `_require_text`
unfoldable pub thesis_text : Text → Outcome DomainErrorCode Text
thesis_text value = do
  let normalized = strip value
  reject_if (is_empty normalized) DomainErrorCode.invariant_violation
  ok normalized

-- `_unique_evidence_ids`
unfoldable pub unique_evidence_ids : List ℕ → Outcome DomainErrorCode (List ℕ)
unique_evidence_ids evidence_ids = do
  reject_if (is_empty evidence_ids) DomainErrorCode.invariant_violation
  reject_if (not (distinct evidence_ids)) DomainErrorCode.invariant_violation
  ok evidence_ids

pub record EvidenceBackedClaim : Type 0 where
  pub description : Text
  pub evidence_ids : List ℕ

-- `EvidenceBackedClaim.__post_init__`, on the record with the given fields; so are the other
-- constructors below.
unfoldable pub evidence_backed_claim :
    EvidenceBackedClaim → Outcome DomainErrorCode EvidenceBackedClaim
evidence_backed_claim c = do
  description ← thesis_text c.description
  evidence_ids ← unique_evidence_ids c.evidence_ids
  ok (record { description = description; evidence_ids = evidence_ids })

pub record ThesisPillar : Type 0 where
  pub key : Text
  pub claim : EvidenceBackedClaim
  pub status : PillarStatus

-- `ThesisPillar.__post_init__`
unfoldable pub thesis_pillar : ThesisPillar → Outcome DomainErrorCode ThesisPillar
thesis_pillar p = do key ← thesis_text p.key; ok (record p { key = key })

pub record InvalidationCondition : Type 0 where
  pub condition : Text
  pub measurement : Text
  pub threshold : Text
  pub window : Text

-- `InvalidationCondition.__post_init__`
unfoldable pub invalidation_condition :
    InvalidationCondition → Outcome DomainErrorCode InvalidationCondition
invalidation_condition c = do
  condition ← thesis_text c.condition
  measurement ← thesis_text c.measurement
  threshold ← thesis_text c.threshold
  window ← thesis_text c.window
  ok (record {
    condition = condition;
    measurement = measurement;
    threshold = threshold;
    window = window;
  })

pub record ThesisContent : Type 0 where
  pub state : ThesisState
  pub long_term_summary : Text
  pub pillars : List ThesisPillar
  pub catalysts : List EvidenceBackedClaim
  pub risks : List EvidenceBackedClaim
  pub invalidation_conditions : List InvalidationCondition
  pub monitoring_conditions : List Text
  pub change_reason : ThesisChangeReason

-- `tuple(pillar.key for pillar in self.pillars)` has no repetition.
abbrev pub same_key : ThesisPillar → ThesisPillar → Bool
same_key p q = eqb_list p.key q.key

-- `tuple(_require_text(item, ...) for item in self.monitoring_conditions)`
abbrev pub monitoring_texts : List Text → Outcome DomainErrorCode (List Text)
monitoring_texts = traverse thesis_text

abbrev pub is_broken : ThesisState → Bool
is_broken ThesisState.broken = true
is_broken _ = false

-- `ThesisContent.__post_init__`
unfoldable pub thesis_content : ThesisContent → Outcome DomainErrorCode ThesisContent
thesis_content c = do
  long_term_summary ← thesis_text c.long_term_summary
  reject_if (is_empty c.pillars) DomainErrorCode.invariant_violation
  reject_if (not (distinct_by same_key c.pillars)) DomainErrorCode.invariant_violation
  monitoring ← monitoring_texts c.monitoring_conditions
  reject_if (is_broken c.state && is_empty c.invalidation_conditions)
      DomainErrorCode.invariant_violation
  ok (record c { long_term_summary = long_term_summary; monitoring_conditions = monitoring })

-- The loops of `ThesisContent.evidence_ids`: an identifier is appended when it is not there yet.
unfoldable pub append_new : List ℕ → List ℕ → List ℕ
append_new found [] = found
append_new found (i ∷ is) = append_new (if mem i found then found else found ++ i ∷ []) is

unfoldable pub append_claims : List ℕ → List EvidenceBackedClaim → List ℕ
append_claims found [] = found
append_claims found (c ∷ cs) = append_claims (append_new found c.evidence_ids) cs

-- `ThesisContent.evidence_ids`
unfoldable pub content_evidence_ids : ThesisContent → List ℕ
content_evidence_ids c =
    append_claims (append_claims [] (map (λ p. p.claim) c.pillars)) (c.catalysts ++ c.risks)

pub record ThesisVersion : Type 0 where
  pub id : ℕ
  pub thesis_id : ℕ
  pub version : ℕ
  pub parent_version_id : Option ℕ
  pub content_hash : Text
  pub content : ThesisContent

-- `parent_version_id == id`
abbrev pub is_id : Option ℕ → ℕ → Bool
is_id none id = false
is_id (some parent) id = parent == id

-- `ThesisVersion.__post_init__`; a version number is one that was counted up from 1, and not negative.
unfoldable pub thesis_version : ThesisVersion → Outcome DomainErrorCode ThesisVersion
thesis_version v = do
  reject_if (ltb v.version 1) DomainErrorCode.invariant_violation
  reject_if (v.version == 1 && is_some v.parent_version_id) DomainErrorCode.invariant_violation
  reject_if (ltb 1 v.version && not (is_some v.parent_version_id))
      DomainErrorCode.invariant_violation
  reject_if (is_id v.parent_version_id v.id) DomainErrorCode.invariant_violation
  reject_if (not (length v.content_hash == 64) || any (λ c. not (is_hexdigit c)) v.content_hash)
      DomainErrorCode.invariant_violation
  ok (record v { content_hash = map lower v.content_hash })
