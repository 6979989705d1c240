-- ===== src/Thesis/Reader.antt =====
-- `SqlAlchemyThesisReader` and `SqlAlchemyThesisInvalidationMonitor` of
-- src/investment_os/infrastructure/thesis_engine.py.
use jz_investment_os.Base.{
  ℕ, ◌≡◌, refl, ap, ◌∙◌, sym, true, Option, none, some, List, [], ◌∷◌, map, Outcome, ok, ◌>>=◌,
  ◌==◌, if◌then◌else◌,
}
use jz_investment_os.Base.Text.{Text}
use jz_investment_os.Base.Sort.{sorted}
use jz_investment_os.Lifecycle.Transition.{UtcTimestamp}
use jz_investment_os.Values.{Datetime, utc_timestamp}
use jz_investment_os.Enums.{DomainErrorCode}
use jz_investment_os.Thesis.{ThesisContent}
use jz_investment_os.Thesis.Payload.{
  Json, Codec, thesis_state_value, pillars_payload, claims_payload, thesis_content_hash,
}
use jz_investment_os.Thesis.Stored.{VersionRecord, version_record}
use jz_investment_os.Thesis.Store.{
  InvestmentThesis, ThesisStore, WriteError, get_by_instrument, get_version, latest_as_of,
  list_for_thesis, advanced,
}
use jz_investment_os.Thesis.Writer.{WriteCall, ThesisWriteResult, write, raised}
use jz_investment_os.Thesis.Monitor.{
  MetricObservation, Numerals, ThesisInvalidationEvaluation, evaluate_invalidation,
}
use jz_investment_os.Thesis.Rewrites.{written_lem}

pub record ThesisVersionRead : Type 0 where
  pub instrument_id : ℕ
  pub thesis_id : ℕ
  pub version_id : ℕ
  pub version : ℕ
  pub parent_version_id : Option ℕ
  pub state : Text
  pub summary : Text
  pub pillars : Json
  pub catalysts : Json
  pub risks : Json
  pub invalidation_conditions : Json
  pub monitoring_conditions : Json
  pub change_reason : Text
  pub evidence_ids : List ℕ
  pub created_at : UtcTimestamp

-- The links of a version.
unfoldable pub linked_evidence : ℕ → List (ℕ × ℕ) → List ℕ
linked_evidence version_id [] = []
linked_evidence version_id (l ∷ ls) =
    let rest = linked_evidence version_id ls in if l.0 == version_id then l.1 ∷ rest else rest

-- `_read_model`
unfoldable pub read_model : ThesisStore → InvestmentThesis → VersionRecord → ThesisVersionRead
read_model s thesis r = record {
  instrument_id = thesis.instrument_id;
  thesis_id = thesis.id;
  version_id = r.id;
  version = r.version;
  parent_version_id = r.parent_version_id;
  state = r.thesis_state;
  summary = r.summary;
  pillars = r.pillars_json;
  catalysts = r.catalysts_json;
  risks = r.risks_json;
  invalidation_conditions = r.invalidation_conditions_json;
  monitoring_conditions = r.monitoring_conditions_json;
  change_reason = r.change_reason;
  evidence_ids = sorted (linked_evidence r.id s.links);
  created_at = r.created_at;
}

-- `return None` when a step finds nothing.
abbrev pub if_found : {A B : Type 0} → (A → Option B) → Option A → Option B
if_found rest none = none
if_found rest (some a) = rest a

-- `current_for_instrument`
unfoldable pub current_for_instrument : ℕ → ThesisStore → Option ThesisVersionRead
current_for_instrument instrument_id s =
    if_found
      (λ thesis.
        if_found (λ id. if_found (λ r. some (read_model s thesis r)) (get_version id s))
          thesis.current_version_id)
      (get_by_instrument instrument_id s)

-- `as_of_for_instrument`
unfoldable pub as_of_for_instrument :
    ℕ → Datetime → ThesisStore → Outcome DomainErrorCode (Option ThesisVersionRead)
as_of_for_instrument instrument_id as_of s = do
  requested_time ← utc_timestamp as_of
  ok (
      if_found
        (λ thesis.
          if_found (λ r. some (read_model s thesis r)) (latest_as_of thesis.id requested_time s))
        (get_by_instrument instrument_id s))

abbrev pub all_versions : ThesisStore → Option InvestmentThesis → List ThesisVersionRead
all_versions s none = []
all_versions s (some thesis) = map (read_model s thesis) (list_for_thesis thesis.id s)

-- `history_for_instrument`
unfoldable pub history_for_instrument : ℕ → ThesisStore → List ThesisVersionRead
history_for_instrument instrument_id s = all_versions s (get_by_instrument instrument_id s)

pub record ThesisInvalidationWriteResult : Type 0 where
  pub evaluation : ThesisInvalidationEvaluation
  pub thesis_write : Option ThesisWriteResult

-- `evaluate_and_write`; the call holds the current content.
module _ (codec : Codec) (numerals : Numerals) where
  abbrev pub write_proposal :
      WriteCall
      → ThesisInvalidationEvaluation
      → ThesisStore
      → Option ThesisContent
      → Outcome WriteError (ThesisInvalidationWriteResult × ThesisStore)
  write_proposal call evaluation s none =
      ok (record { evaluation = evaluation; thesis_write = none }, s)
  write_proposal call evaluation s (some proposed) =
      let proposal = record call {
        content = proposed;
        expected_current_content_hash = some (thesis_content_hash codec call.content);
      } in
      write codec proposal s >>= λ y.
      ok (record { evaluation = evaluation; thesis_write = some y.0 }, y.1)

  unfoldable pub evaluate_and_write :
      WriteCall
      → List MetricObservation
      → ThesisStore
      → Outcome WriteError (ThesisInvalidationWriteResult × ThesisStore)
  evaluate_and_write call observations s = do
    evaluation ← raised (evaluate_invalidation numerals call.content observations)
    write_proposal call evaluation s evaluation.proposed_content

-- What a read must show of a write.
pub record Shows (codec : Codec) (call : WriteCall) (result : ThesisWriteResult)
    (r : ThesisVersionRead) : Type 0 where
  pub thesis_id : r.thesis_id ≡ result.thesis_id
  pub version_id : r.version_id ≡ result.thesis_version_id
  pub version : r.version ≡ result.version
  pub state : r.state ≡ thesis_state_value call.content.state
  pub summary : r.summary ≡ call.content.long_term_summary
  pub pillars : r.pillars ≡ pillars_payload codec call.content
  pub catalysts : r.catalysts ≡ claims_payload codec call.content.catalysts
  pub risks : r.risks ≡ claims_payload codec call.content.risks

-- After a write that created a version, the current version read for its instrument is that version,
-- with the number that the write returned and the state, summary, pillars, catalysts and risks of
-- the content.
pub current_for_instrument-Shows :
    (codec : Codec) (call : WriteCall) (s s' : ThesisStore) (result : ThesisWriteResult)
    → write codec call s ≡ ok (result, s')
    → result.created ≡ true
    → (r : ThesisVersionRead) × (current_for_instrument call.instrument_id s' ≡ some r)
      × Shows codec call result r
unfolding current_for_instrument read_model version_record
current_for_instrument-Shows codec call s s' result wrote created =
    let w = written_lem codec call s s' result wrote created in
    let thesis = advanced w.row.id (thesis_state_value call.content.state) w.thesis in
    let written = w.planned.written in
    let content = ap (λ v. v.content) w.planned.fields in
    (
      read_model s' thesis w.row,
      rw w.current (rw w.kept refl),
      record {
        thesis_id = sym (ap (λ x. x.thesis_id) w.returned);
        version_id = sym (ap (λ x. x.thesis_version_id) w.returned);
        version = sym (ap (λ x. x.version) w.returned);
        state = ap (λ r. r.thesis_state) written ∙ ap (λ c. thesis_state_value c.state) content;
        summary = ap (λ r. r.summary) written ∙ ap (λ c. c.long_term_summary) content;
        pillars = ap (λ r. r.pillars_json) written ∙ ap (pillars_payload codec) content;
        catalysts =
            ap (λ r. r.catalysts_json) written ∙ ap (λ c. claims_payload codec c.catalysts) content;
        risks = ap (λ r. r.risks_json) written ∙ ap (λ c. claims_payload codec c.risks) content;
      },
    )
