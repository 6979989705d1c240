-- ===== src/Thesis/Writes.antt =====
-- Every write keeps the Thesis tables sound.
use jz_investment_os.Base.{
  ℕ, suc, ◌≡◌, refl, sym, ap, ◌∙◌, subst, inl, inr, true, false, not, ◌||◌, Option, none, some,
  List, [], ◌∷◌, ◌++◌, map, ok, >>=-eq-ok, reject_if-eq-ok, returned_or, arith, any, All, All-map,
  some-inj, eqb_refl, ◌==◌, Bool-cases,
}
use jz_investment_os.Base.Order.{distinct_by}
use jz_investment_os.Thesis.Payload.{Codec, thesis_state_value}
use jz_investment_os.Thesis.{content_evidence_ids}
use jz_investment_os.Thesis.Stored.{VersionRecord, version_record}
use jz_investment_os.Thesis.Store.{
  InvestmentThesis, ThesisStore, first_where, get_by_instrument, get_version, clashes, add_thesis,
  append_version, link_evidence, update_current_version, is_expected, advance_rows,
}
use jz_investment_os.Thesis.Writer.{
  WriteCall, WritePlan, ThesisWriteResult, new_thesis, append_planned, plan_write, commit_write,
  write,
}
use jz_investment_os.Thesis.Planned.{IsRecord, plan_write-IsPlanned}
use jz_investment_os.Thesis.Lineage.{
  IsSound, Follows, Before, PointsToLatest, latest, latest-id, latest-none, same_row, owns,
  found_fails, found_any, found_All, append-IsSound,
}

others :
    (vs : List VersionRecord) (t : InvestmentThesis) (ts : List InvestmentThesis)
    → any (same_row t) ts ≡ false
    → All (PointsToLatest vs) ts
    → All (Before vs t) ts
others vs t [] h p = tt
others vs t (u ∷ ts) h p =
    ((λ e. ground (arith, e, h), λ e. p.0), others vs t ts (ground (arith, h)) p.1)

-- The row that was read is the only one with its identifier.
Before-found :
    (vs : List VersionRecord) (instrument_id : ℕ) (ts : List InvestmentThesis)
    (thesis : InvestmentThesis)
    → distinct_by same_row ts ≡ true
    → first_where (λ t. t.instrument_id == instrument_id) ts ≡ some thesis
    → All (PointsToLatest vs) ts
    → All (Before vs thesis) ts
Before-found vs instrument_id [] thesis d f p = tt
Before-found vs instrument_id (t ∷ ts) thesis d f p =
    elim (Bool-cases (t.instrument_id == instrument_id)) [
      | inl here ↦
          let same : t ≡ thesis = ground (arith, f, here) in
          (
            (λ e. ap (λ u. u.version) same, λ e. p.0),
            subst (λ u. All (Before vs u) ts) same (others vs t ts (ground (arith, d)) p.1),
          )
      | inr other ↦
          let below : first_where (λ u. u.instrument_id == instrument_id) ts ≡ some thesis =
            ground (arith, f, other) in
          let apart : same_row t thesis ≡ false =
            found_fails (λ u. u.instrument_id == instrument_id) (same_row t) ts thesis below
              (ground (arith, d)) in
          (
            (λ e. ground (arith, e, apart), λ e. p.0),
            Before-found vs instrument_id ts thesis (ground (arith, d)) below p.1,
          )
    ]

fresh_row :
    (thesis : InvestmentThesis) (ts : List InvestmentThesis)
    → any (λ t. t.id == thesis.id || t.instrument_id == thesis.instrument_id) ts ≡ false
    → (any (same_row thesis) ts ≡ false) × (any (λ t. t.id == thesis.id) ts ≡ false)
fresh_row thesis [] h = (refl, refl)
fresh_row thesis (t ∷ ts) h =
    let rest = fresh_row thesis ts (ground (arith, h)) in
    (ground (arith, h, rest), ground (arith, h, rest))

Before-new :
    (vs : List VersionRecord) (thesis : InvestmentThesis) (ts : List InvestmentThesis)
    → any (λ t. t.id == thesis.id) ts ≡ false
    → All (PointsToLatest vs) ts
    → All (Before vs thesis) ts
Before-new vs thesis [] h p = tt
Before-new vs thesis (t ∷ ts) h p =
    ((λ e. ground (arith, e, h), λ e. p.0), Before-new vs thesis ts (ground (arith, h)) p.1)

owned_wider :
    (t : InvestmentThesis) (ts : List InvestmentThesis) (vs : List VersionRecord)
    → All (λ v. owns ts v ≡ true) vs
    → All (λ v. owns (t ∷ ts) v ≡ true) vs
owned_wider t ts vs o =
    All-map (λ v. owns ts v ≡ true) (λ v. owns (t ∷ ts) v ≡ true) (λ v h. ground (arith, h)) vs o

module _ (codec : Codec) (call : WriteCall) where
  -- The keys of a planned record.
  pub record-keys :
      (thesis : InvestmentThesis) (number : ℕ) (parent : Option ℕ) (r : VersionRecord)
      → IsRecord codec call thesis number parent r
      → (r.thesis_id ≡ thesis.id) × (r.version ≡ number) × (r.parent_version_id ≡ parent)
  unfolding version_record
  record-keys thesis number parent r w = (
    ap (λ x. x.thesis_id) w.written ∙ ap (λ v. v.thesis_id) w.fields,
    ap (λ x. x.version) w.written ∙ ap (λ v. v.version) w.fields,
    ap (λ x. x.parent_version_id) w.written ∙ ap (λ v. v.parent_version_id) w.fields,
  )

  -- The tables after a version was appended.
  abbrev pub after_append : InvestmentThesis → VersionRecord → ThesisStore → ThesisStore
  after_append thesis r s = record {
    theses =
        advance_rows (is_expected thesis.id thesis.version) r.id
          (thesis_state_value call.content.state) s.theses;
    versions = r ∷ s.versions;
    links = map (λ i. (r.id, i)) (content_evidence_ids call.content) ++ s.links;
    evidence = s.evidence;
  }

  pub append_planned-eq-ok :
      (thesis : InvestmentThesis) (r : VersionRecord) (s : ThesisStore)
      (y : ThesisWriteResult × ThesisStore)
      → append_planned codec call thesis r s ≡ ok y
      → (any (clashes r) s.versions ≡ false)
        × (y ≡ (
          record {
            thesis_id = thesis.id;
            thesis_version_id = r.id;
            version = r.version;
            created = true;
          },
          after_append thesis r s,
        ))
  unfolding append_planned append_version update_current_version link_evidence
  append_planned-eq-ok thesis r s y h =
      let a = >>=-eq-ok (append_version r s) _ h in
      let b = reject_if-eq-ok (any (clashes r) s.versions) _ _ a.1 in
      let ids = content_evidence_ids call.content in
      let test = is_expected thesis.id thesis.version in
      let status = thesis_state_value call.content.state in
      let c =
        >>=-eq-ok
          (update_current_version thesis.id thesis.version r.id status (link_evidence r.id ids a.0))
          _ a.2 in
      let d = reject_if-eq-ok (not (any test (link_evidence r.id ids a.0).theses)) _ _ c.1 in
      let result : ThesisWriteResult = record {
        thesis_id = thesis.id;
        thesis_version_id = r.id;
        version = r.version;
        created = true;
      } in
      let final : ThesisStore → ThesisStore = λ x. record {
        theses = advance_rows test r.id status x.theses;
        versions = x.versions;
        links = map (λ i. (r.id, i)) ids ++ x.links;
        evidence = x.evidence;
      } in
      (
        b.0,
        sym (ap (returned_or y) c.2)
            ∙ ap (λ z. (result, z)) (sym (ap (returned_or c.0) d.1))
            ∙ ap (λ x. (result, final x)) (sym (ap (returned_or a.0) b.1)),
      )

  module _ (s s' : ThesisStore) (result : ThesisWriteResult) where
    -- A first version and its Thesis.
    create-IsSound :
        (r : VersionRecord)
        → IsRecord codec call (new_thesis codec call) 1 none r
        → commit_write codec call (WritePlan.append true (new_thesis codec call) r) s
          ≡ ok (result, s')
        → IsSound s
        → IsSound s'
    unfolding commit_write add_thesis
    create-IsSound r w h sound =
        let thesis = new_thesis codec call in
        let a = >>=-eq-ok (add_thesis thesis s) _ h in
        let b =
          reject_if-eq-ok
            (any (λ t. t.id == thesis.id || t.instrument_id == thesis.instrument_id) s.theses) _ _
            a.1 in
        let grown : record s { theses = thesis ∷ s.theses } ≡ a.0 = ap (returned_or a.0) b.1 in
        let s1 : ThesisStore = record s { theses = thesis ∷ s.theses } in
        let c =
          append_planned-eq-ok thesis r s1 (result, s')
            (subst (λ x. append_planned codec call thesis r x ≡ ok (result, s')) (sym grown) a.2) in
        let keys = record-keys thesis 1 none r w in
        let fresh = fresh_row thesis s.theses b.0 in
        let empty = latest-none thesis.id s.theses s.versions fresh.1 sound.owned in
        let none_yet : latest r.thesis_id s.versions ≡ none =
          ap (λ i. latest i s.versions) keys.0 ∙ empty in
        let apart : (thesis.id == r.thesis_id) ≡ true =
          ap (λ i. thesis.id == i) keys.0 ∙ eqb_refl thesis.id in
        subst IsSound (sym (ap (λ y. y.1) c.1)) (
          append-IsSound thesis r (thesis_state_value call.content.state) s1 _ keys.0
            (subst (λ o. Follows r o) (sym none_yet) (keys.1, keys.2)) c.0 sound.history
            (
              (λ e. refl, λ e. cc (e, eqb_refl thesis.id)),
              Before-new s.versions thesis s.theses fresh.1 sound.current,
            )
            (rw fresh.0 sound.rows)
            (rw apart refl, owned_wider thesis s.theses s.versions sound.owned))

    -- A version that follows the current one.
    advance-IsSound :
        (thesis : InvestmentThesis) (current r : VersionRecord) (id : ℕ)
        → get_by_instrument call.instrument_id s ≡ some thesis
        → thesis.current_version_id ≡ some id
        → get_version id s ≡ some current
        → IsRecord codec call thesis (suc current.version) (some current.id) r
        → commit_write codec call (WritePlan.append false thesis r) s ≡ ok (result, s')
        → IsSound s
        → IsSound s'
    unfolding commit_write get_by_instrument get_version
    advance-IsSound thesis current r id read pointed got w h sound =
        let c = append_planned-eq-ok thesis r s (result, s') h in
        let keys = record-keys thesis (suc current.version) (some current.id) r w in
        let p =
          found_All (PointsToLatest s.versions) (λ t. t.instrument_id == call.instrument_id)
            s.theses thesis read sound.current in
        let same_id : id ≡ p.0.id = some-inj (sym pointed ∙ p.2) in
        let got_latest = latest-id thesis.id s.versions p.0 sound.history p.1 in
        let same : p.0 ≡ current = some-inj (
          sym got_latest ∙ ap (λ i. first_where (λ v. v.id == i) s.versions) (sym same_id) ∙ got) in
        let newest : latest r.thesis_id s.versions ≡ some current =
          ap (λ i. latest i s.versions) keys.0 ∙ p.1 ∙ ap some same in
        let mine : owns s.theses r ≡ true =
          found_any (λ t. t.instrument_id == call.instrument_id) (λ t. t.id == r.thesis_id) s.theses
            thesis read (ap (λ i. thesis.id == i) keys.0 ∙ eqb_refl thesis.id) in
        subst IsSound (sym (ap (λ y. y.1) c.1)) (
          append-IsSound thesis r (thesis_state_value call.content.state) s _ keys.0
            (subst (λ o. Follows r o) (sym newest) (keys.1, keys.2)) c.0 sound.history
            (Before-found s.versions call.instrument_id s.theses thesis sound.rows read
              sound.current)
            sound.rows (mine, sound.owned))

    -- If the tables are sound, that is, every Thesis has one row, which points to its newest
    -- version, and every version is number 1 without a parent or has the number after and the
    -- identifier of the version before it as its parent, then they are sound after every write that
    -- returns.
    pub write-IsSound : write codec call s ≡ ok (result, s') → IsSound s → IsSound s'
    unfolding write commit_write
    write-IsSound h sound =
        let a = >>=-eq-ok (plan_write codec call s) _ h in
        elim (plan_write-IsPlanned codec call s a.0 a.1) [
          | inl (none_yet, (r, e, w)) ↦
              create-IsSound r w (ap (λ p. commit_write codec call p s) (sym e) ∙ a.2) sound
          | inr (thesis, read, next) ↦
              let pointed = next.pointed in
              elim next.outcome [
                | inl (immaterial, e) ↦
                    let back = ap (λ p. commit_write codec call p s) (sym e) ∙ a.2 in
                    subst IsSound (ap (λ y. y.1) (ap (returned_or (result, s')) back)) sound
                | inr (material, (r, e, w)) ↦
                    advance-IsSound thesis next.current r pointed.0 read pointed.1 pointed.2 w
                      (ap (λ p. commit_write codec call p s) (sym e) ∙ a.2) sound
              ]
        ]
