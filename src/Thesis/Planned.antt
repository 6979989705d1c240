-- ===== src/Thesis/Planned.antt =====
-- What a plan of `SqlAlchemyThesisWriter.write` was made from.
use jz_investment_os.Base.{
  ℕ, suc, ◌≡◌, refl, sym, ap, ◌⊎◌, Bool, true, false, not, ◌&&◌, ◌||◌, Option, none, some, map,
  Outcome, ok, err, >>=-eq-ok, reject_if-eq-ok, returned_or, is_some, is_empty, length, any, ltb,
  ◌==◌, inl, inr, Bool-cases, if_true, if_false,
}
use jz_investment_os.Base.Text.{lower}
use jz_investment_os.Enums.{DomainErrorCode}
use jz_investment_os.Lifecycle.Transition.{UtcTimestamp}
use jz_investment_os.Values.{utc_timestamp}
use jz_investment_os.Journal.{is_hexdigit}
use jz_investment_os.Thesis.{ThesisContent, ThesisVersion, thesis_version, is_id}
use jz_investment_os.Thesis.Payload.{Json, Codec, thesis_content_hash}
use jz_investment_os.Thesis.Diff.{semantic_diff, is_material, thesis_semantic_diff_payload}
use jz_investment_os.Thesis.Stored.{VersionRecord, ReadError, version_record, content_from_record}
use jz_investment_os.Thesis.Store.{InvestmentThesis, ThesisStore, get_by_instrument, get_version}
use jz_investment_os.Thesis.Writer.{
  WriteCall, WritePlan, new_version, next_version, new_thesis, plan_write, plan_for, raised,
  or_missing, or_corrupt, is_stale, missing_ids,
}

-- A constructed version has the given fields, and its hash in lower case.
thesis_version-fields :
    (x v : ThesisVersion)
    → thesis_version x ≡ ok v
    → record x { content_hash = map lower x.content_hash } ≡ v
unfolding thesis_version
thesis_version-fields x v h =
    let a = reject_if-eq-ok (ltb x.version 1) _ _ h in
    let b = reject_if-eq-ok (x.version == 1 && is_some x.parent_version_id) _ _ a.1 in
    let c = reject_if-eq-ok (ltb 1 x.version && not (is_some x.parent_version_id)) _ _ b.1 in
    let d = reject_if-eq-ok (is_id x.parent_version_id x.id) _ _ c.1 in
    let e =
      reject_if-eq-ok
        (not (length x.content_hash == 64) || any (λ k. not (is_hexdigit k)) x.content_hash) _ _
        d.1 in
    ap (returned_or x) e.1

raised-eq-ok : {A : Type 0} (o : Outcome DomainErrorCode A) (a : A) → raised o ≡ ok a → o ≡ ok a
raised-eq-ok (err e) a h = cc
raised-eq-ok (ok b) a h = ap ok (ap (returned_or a) h)

or_missing-eq-ok : {A : Type 0} (o : Option A) (a : A) → or_missing o ≡ ok a → o ≡ some a
or_missing-eq-ok none a h = cc
or_missing-eq-ok (some b) a h = ap some (ap (returned_or a) h)

module _ (codec : Codec) (call : WriteCall) where
  -- The planned record of a version with that number and parent.
  pub record IsRecord (thesis : InvestmentThesis) (number : ℕ) (parent : Option ℕ)
      (r : VersionRecord) : Type 0 where
    pub diff : Option Json
    pub version : ThesisVersion
    pub created_at : UtcTimestamp
    pub evaluation_time : UtcTimestamp
    pub written : r ≡ version_record codec version created_at evaluation_time diff
    pub fields : version ≡ record {
      id = call.version_id;
      thesis_id = thesis.id;
      version = number;
      parent_version_id = parent;
      content_hash = map lower (thesis_content_hash codec call.content);
      content = call.content;
    }

  pub new_version-eq-ok :
      (is_new : Bool) (thesis : InvestmentThesis) (number : ℕ) (parent : Option ℕ)
      (diff : Option Json) (created_at evaluation_time : UtcTimestamp) (plan : WritePlan)
      → new_version codec call is_new thesis number parent diff created_at evaluation_time ≡ ok plan
      → (r : VersionRecord) × (plan ≡ WritePlan.append is_new thesis r)
        × IsRecord thesis number parent r
  unfolding new_version
  new_version-eq-ok is_new thesis number parent diff created_at evaluation_time plan h =
      let given : ThesisVersion = record {
        id = call.version_id;
        thesis_id = thesis.id;
        version = number;
        parent_version_id = parent;
        content_hash = thesis_content_hash codec call.content;
        content = call.content;
      } in
      let a = >>=-eq-ok (raised (thesis_version given)) _ h in
      let v = a.0 in
      let r = version_record codec v created_at evaluation_time diff in
      (
        r,
        sym (ap (returned_or plan) a.2),
        record {
          diff = diff;
          version = v;
          created_at = created_at;
          evaluation_time = evaluation_time;
          written = refl;
          fields = sym (thesis_version-fields given v (raised-eq-ok (thesis_version given) v a.1));
        },
      )

  -- The plan for a Thesis that exists: its current version was found and could be read, and either
  -- the content is the same, or the planned version follows it.
  pub record IsNext (s : ThesisStore) (thesis : InvestmentThesis) (plan : WritePlan) : Type 0 where
    pub current : VersionRecord
    pub previous : ThesisContent
    pub pointed :
        (id : ℕ) × (thesis.current_version_id ≡ some id) × (get_version id s ≡ some current)
    pub readable : content_from_record codec current ≡ ok previous
    pub outcome :
        ((is_material (semantic_diff previous call.content) ≡ false)
          × (plan
              ≡ WritePlan.unchanged (record {
                thesis_id = thesis.id;
                thesis_version_id = current.id;
                version = current.version;
                created = false;
              })))
        ⊎ ((is_material (semantic_diff previous call.content) ≡ true)
            × ((r : VersionRecord) × (plan ≡ WritePlan.append false thesis r)
                × IsRecord thesis (suc current.version) (some current.id) r))

  or_corrupt-eq-ok :
      (r : VersionRecord) (c : ThesisContent)
      → or_corrupt (content_from_record codec r) ≡ ok c
      → content_from_record codec r ≡ ok c
  or_corrupt-eq-ok r c h = go (content_from_record codec r) h
    where
      go : (o : Outcome ReadError ThesisContent) → or_corrupt o ≡ ok c → o ≡ ok c
      go (err e) h = cc
      go (ok d) h = ap ok (ap (returned_or c) h)

  next_version-eq-ok :
      (s : ThesisStore) (thesis : InvestmentThesis) (created_at evaluation_time : UtcTimestamp)
      (plan : WritePlan)
      → next_version codec call s thesis created_at evaluation_time ≡ ok plan
      → IsNext s thesis plan
  unfolding next_version
  next_version-eq-ok s thesis created_at evaluation_time plan h =
      let a = >>=-eq-ok (or_missing thesis.current_version_id) _ h in
      let b = >>=-eq-ok (or_missing (get_version a.0 s)) _ a.2 in
      let current = b.0 in
      let c =
        reject_if-eq-ok (is_stale call.expected_current_content_hash current.content_hash) _ _
          b.2 in
      let d = >>=-eq-ok (or_corrupt (content_from_record codec current)) _ c.1 in
      let previous = d.0 in
      let diff = semantic_diff previous call.content in
      record {
        current = current;
        previous = previous;
        pointed = (
          a.0,
          or_missing-eq-ok thesis.current_version_id a.0 a.1,
          or_missing-eq-ok (get_version a.0 s) current b.1,
        );
        readable = or_corrupt-eq-ok current previous d.1;
        outcome = elim (Bool-cases (is_material diff)) [
          | inl e ↦ inr (
            e,
            new_version-eq-ok false thesis (suc current.version) (some current.id)
                (some (thesis_semantic_diff_payload codec diff)) created_at evaluation_time plan
                (if_true _ _ (is_material diff) e d.2),
          )
          | inr e ↦ inl (e, sym (ap (returned_or plan) (if_false _ _ (is_material diff) e d.2)))
        ];
      }

  -- A plan is the first version of a new Thesis, or was made for the Thesis of the instrument.
  abbrev pub IsPlanned : ThesisStore → WritePlan → Type 0
  IsPlanned s plan =
      ((get_by_instrument call.instrument_id s ≡ none)
        × ((r : VersionRecord) × (plan ≡ WritePlan.append true (new_thesis codec call) r)
            × IsRecord (new_thesis codec call) 1 none r))
      ⊎ ((thesis : InvestmentThesis) × (get_by_instrument call.instrument_id s ≡ some thesis)
          × IsNext s thesis plan)

  plan_for-IsPlanned :
      (s : ThesisStore) (t e : UtcTimestamp) (o : Option InvestmentThesis) (plan : WritePlan)
      → get_by_instrument call.instrument_id s ≡ o
      → plan_for codec call s t e o ≡ ok plan
      → IsPlanned s plan
  plan_for-IsPlanned s t e none plan found h =
      inl (found, new_version-eq-ok true (new_thesis codec call) 1 none none t e plan h)
  plan_for-IsPlanned s t e (some thesis) plan found h =
      inr (thesis, found, next_version-eq-ok s thesis t e plan h)

  pub plan_write-IsPlanned :
      (s : ThesisStore) (plan : WritePlan) → plan_write codec call s ≡ ok plan → IsPlanned s plan
  unfolding plan_write
  plan_write-IsPlanned s plan h =
      let a = >>=-eq-ok (raised (utc_timestamp call.as_of)) _ h in
      let b = >>=-eq-ok (raised (utc_timestamp call.now)) _ a.2 in
      let c = reject_if-eq-ok (not (is_empty (missing_ids codec call a.0 s))) _ _ b.2 in
      plan_for-IsPlanned s b.0 a.0 (get_by_instrument call.instrument_id s) plan refl c.1
