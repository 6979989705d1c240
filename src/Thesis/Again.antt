-- ===== src/Thesis/Again.antt =====
-- Writing the current content of a Thesis again.
use jz_investment_os.Base.{
  ℕ, ◌≡◌, sym, ap, ◌∙◌, subst, ◌↔◌, inl, inr, true, false, Option, none, [], ok, >>=-eq-ok,
  returned_or, some-inj,
}
use jz_investment_os.Lifecycle.Transition.{UtcTimestamp}
use jz_investment_os.Values.{Datetime, utc_timestamp}
use jz_investment_os.Thesis.Payload.{Codec}
use jz_investment_os.Thesis.Diff.{semantic_diff, is_material}
use jz_investment_os.Thesis.Stored.{VersionRecord, content_from_record}
use jz_investment_os.Thesis.Shape.{
  stored_content, IsContent, content-IsNormal, stored_content-IsNormal,
}
use jz_investment_os.Thesis.RoundTrip.{ReadsUuids, content_round_trip}
use jz_investment_os.Thesis.Material.{semantic_diff_iff}
use jz_investment_os.Thesis.Store.{InvestmentThesis, ThesisStore, get_version}
use jz_investment_os.Thesis.Writer.{
  WriteCall, ThesisWriteResult, next_version, missing_ids, plan_write, commit_write, write,
}
use jz_investment_os.Thesis.Planned.{IsRecord, plan_write-IsPlanned}
use jz_investment_os.Thesis.Writes.{append_planned-eq-ok}
use jz_investment_os.Thesis.Rewrites.{written_lem}
use jz_investment_os.Thesis.Order.{IsOrdered, stored_content_iff}

-- The same content for the same instrument, at other times and with other new identifiers.
abbrev pub again : WriteCall → UtcTimestamp → UtcTimestamp → ℕ → ℕ → WriteCall
again call as_of now thesis_id version_id = record call {
  as_of = Datetime.aware as_of;
  now = Datetime.aware now;
  expected_current_content_hash = none;
  thesis_id = thesis_id;
  version_id = version_id;
}

-- A row is read back as the stored content.
reads_row :
    (codec : Codec) (call : WriteCall) (thesis : InvestmentThesis) (number : ℕ) (parent : Option ℕ)
    (r : VersionRecord)
    → ReadsUuids codec
    → IsContent call.content
    → IsRecord codec call thesis number parent r
    → content_from_record codec r ≡ ok (stored_content call.content)
reads_row codec call thesis number parent r reads c w =
    let same : w.version.content ≡ call.content = ap (λ v. v.content) w.fields in
    ap (content_from_record codec) w.written
    ∙ content_round_trip codec w.version w.created_at w.evaluation_time w.diff reads
        (subst IsContent (sym same) c)
    ∙ ap (λ x. ok (stored_content x)) same

module _ (codec : Codec) (call : WriteCall) (s s' : ThesisStore) (result : ThesisWriteResult)
    (as_of now : UtcTimestamp) (thesis_id version_id : ℕ) (reads : ReadsUuids codec)
    (content : IsContent call.content) (wrote : write codec call s ≡ ok (result, s'))
    (created : result.created ≡ true) where
  -- Without a material difference the second write plans nothing.
  unchanged_again :
      is_material (semantic_diff (stored_content call.content) call.content) ≡ false
      → missing_ids codec (again call as_of now thesis_id version_id) as_of s' ≡ []
      → write codec (again call as_of now thesis_id version_id) s'
        ≡ ok (record result { created = false }, s')
  unfolding write plan_write next_version commit_write utc_timestamp
  unchanged_again immaterial available =
      let w = written_lem codec call s s' result wrote created in
      let row = reads_row codec call w.thesis w.number w.parent w.row reads content w.planned in
      rw available (
        rw w.current (
          rw w.kept (
            rw row
              (rw immaterial (ap (λ x. ok (record x { created = false }, s')) (sym w.returned))))))

  immaterial_again :
      write codec (again call as_of now thesis_id version_id) s'
        ≡ ok (record result { created = false }, s')
      → is_material (semantic_diff (stored_content call.content) call.content) ≡ false
  unfolding write commit_write
  immaterial_again h =
      let w = written_lem codec call s s' result wrote created in
      let other = again call as_of now thesis_id version_id in
      let row = reads_row codec call w.thesis w.number w.parent w.row reads content w.planned in
      let a = >>=-eq-ok (plan_write codec other s') _ h in
      elim (plan_write-IsPlanned codec other s' a.0 a.1) [
        | inl (none_yet, rest) ↦ cc (none_yet, w.current)
        | inr (thesis, read, next) ↦
            let same_thesis = some-inj (sym w.current ∙ read) in
            let id = some-inj (ap (λ t. t.current_version_id) same_thesis ∙ next.pointed.1) in
            let current = some-inj (sym w.kept ∙ ap (λ i. get_version i s') id ∙ next.pointed.2) in
            let previous : stored_content call.content ≡ next.previous =
              ap (returned_or next.previous)
                (sym row ∙ ap (content_from_record codec) current ∙ next.readable) in
            elim next.outcome [
              | inl (immaterial, e) ↦
                  ap (λ p. is_material (semantic_diff p call.content)) previous ∙ immaterial
              | inr (material, (r, e, x)) ↦
                  let back = ap (λ p. commit_write codec other p s') (sym e) ∙ a.2 in
                  let b = append_planned-eq-ok codec other thesis r s' _ back in
                  cc (ap (λ y. y.0.created) b.1)
            ]
      ]

  -- After a write that created a version from content that the constructors return, writing that
  -- content for that instrument again, at any times with a known zone, with its Evidence available
  -- and without an expected hash, returns that version as unchanged and leaves the tables as they
  -- are exactly when every claim of the content lists its Evidence in ascending order. (The texts
  -- of UUIDs are read back.)
  pub write-again_iff :
      missing_ids codec (again call as_of now thesis_id version_id) as_of s' ≡ []
      → (write codec (again call as_of now thesis_id version_id) s'
          ≡ ok (record result { created = false }, s'))
        ↔ IsOrdered call.content
  write-again_iff available =
      let normal = content-IsNormal call.content content.content in
      let stored = stored_content-IsNormal call.content normal in
      let diff =
        semantic_diff_iff (stored_content call.content) call.content stored.keys normal.keys in
      let ordered = stored_content_iff call.content in
      (
        λ h. ordered.0 (diff.0 (immaterial_again h)),
        λ o. unchanged_again (diff.1 (ordered.1 o)) available,
      )
