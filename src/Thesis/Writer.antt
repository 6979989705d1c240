-- ===== src/Thesis/Writer.antt =====
-- `SqlAlchemyThesisWriter.write` of src/investment_os/infrastructure/thesis_engine.py. Its reads make
-- a plan and its writes carry it out, so that another transaction can stand between the two.
use jz_investment_os.Base.{
  ℕ, suc, Bool, true, false, not, Option, none, some, List, Outcome, ok, err, ◌>>=◌, ◌>>◌,
  reject_if, is_empty, select, if◌then◌else◌,
}
use jz_investment_os.Base.Text.{Text}
use jz_investment_os.Base.Sort.{eqb_list, sorted}
use jz_investment_os.Enums.{DomainErrorCode}
use jz_investment_os.Lifecycle.Transition.{UtcTimestamp}
use jz_investment_os.Values.{Datetime, utc_timestamp}
use jz_investment_os.Thesis.{ThesisContent, thesis_version, content_evidence_ids}
use jz_investment_os.Thesis.Payload.{Json, Codec, thesis_content_hash, thesis_state_value}
use jz_investment_os.Thesis.Diff.{semantic_diff, is_material, thesis_semantic_diff_payload}
use jz_investment_os.Thesis.Stored.{VersionRecord, ReadError, version_record, content_from_record}
use jz_investment_os.Thesis.Store.{
  InvestmentThesis, ThesisStore, WriteError, get_by_instrument, add_thesis, update_current_version,
  append_version, get_version, link_evidence, is_available,
}

-- The arguments of `write`, with the two identifiers that it draws and the time that it reads.
pub record WriteCall : Type 0 where
  pub instrument_id : ℕ
  pub content : ThesisContent
  pub as_of : Datetime
  pub expected_current_content_hash : Option Text
  pub now : Datetime
  pub thesis_id : ℕ
  pub version_id : ℕ

pub record ThesisWriteResult : Type 0 where
  pub thesis_id : ℕ
  pub thesis_version_id : ℕ
  pub version : ℕ
  pub created : Bool

-- What the reads lead to: nothing to write, or a version to append to a Thesis that is new or not.
pub data WritePlan : Type 0 where
  unchanged : ThesisWriteResult → WritePlan
  append : Bool → InvestmentThesis → VersionRecord → WritePlan

abbrev pub raised : {A : Type 0} → Outcome DomainErrorCode A → Outcome WriteError A
raised (err e) = err (WriteError.domain_error e)
raised (ok a) = ok a

-- `except (DomainError, KeyError, TypeError, ValueError)`
abbrev pub or_corrupt : {A : Type 0} → Outcome ReadError A → Outcome WriteError A
or_corrupt (err e) = err WriteError.thesis_version_corrupt
or_corrupt (ok a) = ok a

abbrev pub or_missing : {A : Type 0} → Option A → Outcome WriteError A
or_missing none = err WriteError.thesis_current_version_missing
or_missing (some a) = ok a

-- `expected is not None and current.content_hash != expected`
abbrev pub is_stale : Option Text → Text → Bool
is_stale none content_hash = false
is_stale (some expected) content_hash = not (eqb_list content_hash expected)

module _ (codec : Codec) (call : WriteCall) where
  -- The `ThesisVersion` and its record.
  unfoldable pub new_version :
      Bool
      → InvestmentThesis
      → ℕ
      → Option ℕ
      → Option Json
      → UtcTimestamp
      → UtcTimestamp
      → Outcome WriteError WritePlan
  new_version is_new thesis number parent diff_payload created_at evaluation_time = do
    version ← raised (
        thesis_version (record {
          id = call.version_id;
          thesis_id = thesis.id;
          version = number;
          parent_version_id = parent;
          content_hash = thesis_content_hash codec call.content;
          content = call.content;
        }))
    ok (
        WritePlan.append is_new thesis
          (version_record codec version created_at evaluation_time diff_payload))

  -- The branch of a Thesis that exists.
  unfoldable pub next_version :
      ThesisStore → InvestmentThesis → UtcTimestamp → UtcTimestamp → Outcome WriteError WritePlan
  next_version s thesis created_at evaluation_time = do
    current_version_id ← or_missing thesis.current_version_id
    current ← or_missing (get_version current_version_id s)
    reject_if (is_stale call.expected_current_content_hash current.content_hash)
        WriteError.thesis_current_version_stale
    previous ← or_corrupt (content_from_record codec current)
    let diff = semantic_diff previous call.content
    if is_material diff
        then (new_version false thesis (suc current.version) (some current.id)
            (some (thesis_semantic_diff_payload codec diff)) created_at evaluation_time)
        else ok (
            WritePlan.unchanged (record {
              thesis_id = thesis.id;
              thesis_version_id = current.id;
              version = current.version;
              created = false;
            }))

  -- `InvestmentThesisRecord(...)`, with the column's default version.
  abbrev pub new_thesis : InvestmentThesis
  new_thesis = record {
    id = call.thesis_id;
    instrument_id = call.instrument_id;
    status = thesis_state_value call.content.state;
    current_version_id = none;
    version = 1;
  }

  abbrev pub plan_for :
      ThesisStore
      → UtcTimestamp
      → UtcTimestamp
      → Option InvestmentThesis
      → Outcome WriteError WritePlan
  plan_for s created_at evaluation_time none =
      new_version true new_thesis 1 none none created_at evaluation_time
  plan_for s created_at evaluation_time (some thesis) =
      next_version s thesis created_at evaluation_time

  -- `missing_ids`
  unfoldable pub missing_ids : UtcTimestamp → ThesisStore → List ℕ
  missing_ids evaluation_time s = sorted (
      select (λ i. not (is_available call.instrument_id evaluation_time s i))
        (content_evidence_ids call.content))

  unfoldable pub plan_write : ThesisStore → Outcome WriteError WritePlan
  plan_write s = do
    evaluation_time ← raised (utc_timestamp call.as_of)
    created_at ← raised (utc_timestamp call.now)
    reject_if (not (is_empty (missing_ids evaluation_time s)))
        (WriteError.evidence_reference_unavailable (missing_ids evaluation_time s))
    plan_for s created_at evaluation_time (get_by_instrument call.instrument_id s)

  -- The inserts and the update, up to the commit.
  abbrev pub add_if_new : Bool → InvestmentThesis → ThesisStore → Outcome WriteError ThesisStore
  add_if_new true thesis s = add_thesis thesis s
  add_if_new false thesis s = ok s

  unfoldable pub append_planned :
      InvestmentThesis
      → VersionRecord
      → ThesisStore
      → Outcome WriteError (ThesisWriteResult × ThesisStore)
  append_planned thesis r with_thesis = do
    with_version ← append_version r with_thesis
    let linked = link_evidence r.id (content_evidence_ids call.content) with_version
    committed ←
        update_current_version thesis.id thesis.version r.id (thesis_state_value call.content.state)
          linked
    ok (
      record {
        thesis_id = thesis.id;
        thesis_version_id = r.id;
        version = r.version;
        created = true;
      },
      committed,
    )

  unfoldable pub commit_write :
      WritePlan → ThesisStore → Outcome WriteError (ThesisWriteResult × ThesisStore)
  commit_write (WritePlan.unchanged result) s = ok (result, s)
  commit_write (WritePlan.append is_new thesis r) s = do
    with_thesis ← add_if_new is_new thesis s
    append_planned thesis r with_thesis

  -- `SqlAlchemyThesisWriter.write`
  unfoldable pub write : ThesisStore → Outcome WriteError (ThesisWriteResult × ThesisStore)
  write s = do plan ← plan_write s; commit_write plan s
