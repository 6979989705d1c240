-- ===== src/Tests/Theses.antt =====
-- A Thesis of two versions.
use jz_investment_os.Base.{
  ℕ, ◌≡◌, ◌↔◌, refl, Bool, true, false, Option, none, some, List, [], ◌∷◌, Outcome, ok, err,
}
use jz_investment_os.Base.Text.{Text, codes, strip}
use jz_investment_os.Base.Sort.{sorted, insert_sorted}
use jz_investment_os.Base.Order.{sort_by, insert_by, minus}
use jz_investment_os.Enums.{ThesisState}
use jz_investment_os.Values.{Datetime, utc_timestamp}
use jz_investment_os.Thesis.{
  PillarStatus, ThesisChangeReason, EvidenceBackedClaim, ThesisPillar, ThesisContent, ThesisVersion,
  thesis_text, unique_evidence_ids, evidence_backed_claim, thesis_pillar, thesis_content,
  thesis_version, append_new, append_claims, content_evidence_ids,
}
use jz_investment_os.Thesis.Payload.{Codec, thesis_content_hash}
use jz_investment_os.Thesis.Diff.{semantic_diff, is_material, pillar_at, eqb_claim, eqb_pillar}
use jz_investment_os.Thesis.Stored.{VersionRecord, version_record, content_from_record}
use jz_investment_os.Thesis.Shape.{IsContent, stored_content}
use jz_investment_os.Thesis.Same.{SameContent}
use jz_investment_os.Thesis.Material.{semantic_diff_iff}
use jz_investment_os.Thesis.RoundTrip.{ReadsUuids, content_round_trip}
use jz_investment_os.Thesis.Store.{
  ThesisStore, EvidenceRow, WriteError, get_by_instrument, add_thesis, update_current_version,
  append_version, link_evidence, is_available,
}
use jz_investment_os.Thesis.Writer.{
  WritePlan, new_thesis, WriteCall, ThesisWriteResult, new_version, missing_ids, plan_write,
  append_planned, commit_write, write,
}
use jz_investment_os.Thesis.Lineage.{IsSound}
use jz_investment_os.Thesis.Reader.{
  ThesisVersionRead, current_for_instrument, Shows, current_for_instrument-Shows,
}
use jz_investment_os.Thesis.Races.{second_writer_refused}
use jz_investment_os.Thesis.Writes.{write-IsSound}
use jz_investment_os.Thesis.Again.{again, write-again_iff}
use jz_investment_os.Thesis.Order.{IsOrdered}

abbrev uuid_of_text : Text → Option ℕ
uuid_of_text (i ∷ []) = some i
uuid_of_text _ = none

abbrev codec : Codec
codec = record {
  str_uuid = λ i. i ∷ [];
  uuid_of = uuid_of_text;
  str_of = λ j. [];
  isoformat = λ t. t ∷ [];
  digest = λ j. codes "0123456789abcdef0123456789abcdef0123456789abcdef0123456789abcdef";
}

codec-ReadsUuids : ReadsUuids codec
codec-ReadsUuids i = refl

abbrev claim : Text → List ℕ → EvidenceBackedClaim
claim text ids = record { description = text; evidence_ids = ids }

abbrev pillar : Text → List ℕ → ThesisPillar
pillar key ids = record {
  key = key;
  claim = claim (codes "grows") ids;
  status = PillarStatus.valid;
}

abbrev content : List ℕ → ThesisContent
content ids = record {
  state = ThesisState.valid;
  long_term_summary = codes "good";
  pillars = pillar (codes "moat") ids ∷ pillar (codes "growth") (7 ∷ []) ∷ [];
  catalysts = [];
  risks = claim (codes "debt") (5 ∷ []) ∷ [];
  invalidation_conditions = [];
  monitoring_conditions = codes "margin" ∷ [];
  change_reason = ThesisChangeReason.new_evidence;
}

content-IsContent : IsContent (content (5 ∷ 7 ∷ []))
unfolding thesis_content evidence_backed_claim unique_evidence_ids thesis_text thesis_pillar strip
content-IsContent = record {
  content = refl;
  pillars = (record { pillar = refl; claim = refl }, (record { pillar = refl; claim = refl }, tt));
  catalysts = tt;
  risks = (refl, tt);
  conditions = tt;
}

abbrev call : List ℕ → ℕ → WriteCall
call ids version_id = record {
  instrument_id = 3;
  content = content ids;
  as_of = Datetime.aware 50;
  expected_current_content_hash = none;
  now = Datetime.aware 60;
  thesis_id = 1;
  version_id = version_id;
}

abbrev evidence : ℕ → EvidenceRow
evidence id = record { id = id; instrument_id = none; available_at = 40 }

abbrev no_theses : ThesisStore
no_theses = record {
  theses = [];
  versions = [];
  links = [];
  evidence = evidence 5 ∷ evidence 7 ∷ [];
}

abbrev made : Outcome WriteError (ThesisWriteResult × ThesisStore) → ThesisStore
made (err e) = no_theses
made (ok y) = y.1

abbrev result_of : ℕ → ℕ → Bool → ThesisWriteResult
result_of version_id version created = record {
  thesis_id = 1;
  thesis_version_id = version_id;
  version = version;
  created = created;
}

abbrev first_write : Outcome WriteError (ThesisWriteResult × ThesisStore)
first_write = write codec (call (5 ∷ 7 ∷ []) 11) no_theses

no_theses-IsSound : IsSound no_theses
no_theses-IsSound = record { history = tt; current = tt; rows = refl; owned = tt }

first_test : first_write ≡ ok (result_of 11 1 true, made first_write)
unfolding write plan_write missing_ids is_available content_evidence_ids append_claims append_new
    commit_write append_planned get_by_instrument add_thesis append_version update_current_version
    link_evidence new_version thesis_version thesis_content_hash utc_timestamp sorted insert_sorted
    version_record
first_test = refl

write-IsSound_example : IsSound (made first_write)
write-IsSound_example =
    write-IsSound codec (call (5 ∷ 7 ∷ []) 11) no_theses (made first_write) (result_of 11 1 true)
      first_test no_theses-IsSound

abbrev version : ThesisVersion
version = record {
  id = 11;
  thesis_id = 1;
  version = 1;
  parent_version_id = none;
  content_hash = codes "0123456789abcdef0123456789abcdef0123456789abcdef0123456789abcdef";
  content = content (5 ∷ 7 ∷ []);
}

content_round_trip_example :
    content_from_record codec (version_record codec version 60 50 none)
    ≡ ok (stored_content (content (5 ∷ 7 ∷ [])))
content_round_trip_example =
    content_round_trip codec version 60 50 none codec-ReadsUuids content-IsContent

semantic_diff_iff_example :
    (is_material (semantic_diff (content (5 ∷ [])) (content (7 ∷ []))) ≡ false)
    ↔ SameContent (content (5 ∷ [])) (content (7 ∷ []))
semantic_diff_iff_example = semantic_diff_iff (content (5 ∷ [])) (content (7 ∷ [])) refl refl

material_test : is_material (semantic_diff (content (5 ∷ [])) (content (7 ∷ []))) ≡ true
unfolding semantic_diff is_material minus sort_by insert_by pillar_at eqb_claim eqb_pillar
material_test = refl

nothing_missing :
    missing_ids codec (again (call (5 ∷ 7 ∷ []) 11) 55 65 2 12) 55 (made first_write) ≡ []
unfolding write plan_write missing_ids is_available content_evidence_ids append_claims append_new
    commit_write append_planned get_by_instrument add_thesis append_version update_current_version
    link_evidence new_version thesis_version thesis_content_hash utc_timestamp sorted insert_sorted
    version_record
nothing_missing = refl

write-again_iff_example :
    (write codec (again (call (5 ∷ 7 ∷ []) 11) 55 65 2 12) (made first_write)
      ≡ ok (result_of 11 1 false, made first_write))
    ↔ IsOrdered (content (5 ∷ 7 ∷ []))
write-again_iff_example =
    write-again_iff codec (call (5 ∷ 7 ∷ []) 11) no_theses (made first_write) (result_of 11 1 true)
      55 65 2 12 codec-ReadsUuids content-IsContent first_test refl nothing_missing

abbrev second_call : WriteCall
second_call = call (7 ∷ 5 ∷ []) 12

abbrev planned_row : Outcome WriteError WritePlan → VersionRecord
planned_row (ok (WritePlan.append is_new thesis r)) = r
planned_row _ = version_record codec version 60 50 none

abbrev second_row : VersionRecord
second_row = planned_row (plan_write codec second_call no_theses)

second_planned :
    plan_write codec second_call no_theses
    ≡ ok (WritePlan.append true (new_thesis codec second_call) second_row)
unfolding plan_write missing_ids is_available content_evidence_ids append_claims append_new
    get_by_instrument new_version thesis_version thesis_content_hash utc_timestamp sorted
    insert_sorted version_record
second_planned = refl

second_writer_refused_example :
    commit_write codec second_call
      (WritePlan.append true (new_thesis codec second_call) second_row)
      (made first_write)
    ≡ err WriteError.integrity_error
second_writer_refused_example =
    second_writer_refused codec (call (5 ∷ 7 ∷ []) 11) second_call no_theses (made first_write)
      (result_of 11 1 true) refl first_test refl true (new_thesis codec second_call) second_row
      second_planned

current_for_instrument-Shows_example :
    (r : ThesisVersionRead) × (current_for_instrument 3 (made first_write) ≡ some r)
    × Shows codec (call (5 ∷ 7 ∷ []) 11) (result_of 11 1 true) r
current_for_instrument-Shows_example =
    current_for_instrument-Shows codec (call (5 ∷ 7 ∷ []) 11) no_theses (made first_write)
      (result_of 11 1 true) first_test refl
