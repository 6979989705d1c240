-- ===== src/Thesis/Races.antt =====
-- Two writers that read the same tables.
use jz_investment_os.Base.{
  ℕ, suc, ◌≡◌, refl, sym, ap, ◌∙◌, inl, inr, Bool, true, false, ◌||◌, some, List, ◌∷◌, ok, err,
  >>=-eq-ok, arith, any, some-inj, eqb_refl, ◌==◌,
}
use jz_investment_os.Thesis.Payload.{Codec}
use jz_investment_os.Thesis.Stored.{VersionRecord}
use jz_investment_os.Thesis.Store.{
  InvestmentThesis, ThesisStore, WriteError, get_by_instrument, get_version, clashes, add_thesis,
  append_version,
}
use jz_investment_os.Thesis.Writer.{
  WriteCall, WritePlan, ThesisWriteResult, new_thesis, append_planned, plan_write, commit_write,
  write,
}
use jz_investment_os.Thesis.Planned.{IsRecord, plan_write-IsPlanned}
use jz_investment_os.Thesis.Lineage.{found, found_any}
use jz_investment_os.Thesis.Writes.{record-keys, append_planned-eq-ok}
use jz_investment_os.Thesis.Rewrites.{written_lem, unchanged_result}

module _ (codec : Codec) (two : WriteCall) (s1 : ThesisStore) where
  -- A version whose number is taken is refused.
  taken_number :
      (thesis : InvestmentThesis) (r q : VersionRecord) (rest : List VersionRecord)
      → s1.versions ≡ q ∷ rest
      → q.thesis_id ≡ r.thesis_id
      → q.version ≡ r.version
      → commit_write codec two (WritePlan.append false thesis r) s1 ≡ err WriteError.integrity_error
  unfolding commit_write append_planned append_version
  taken_number thesis r q rest first same_thesis same_version =
      let thesis_eq : (q.thesis_id == r.thesis_id) ≡ true =
        ap (λ i. i == r.thesis_id) same_thesis ∙ eqb_refl r.thesis_id in
      let version_eq : (q.version == r.version) ≡ true =
        ap (λ i. i == r.version) same_version ∙ eqb_refl r.version in
      let clash : any (clashes r) (q ∷ rest) ≡ true = ground (arith, thesis_eq, version_eq) in
      let clash1 : any (clashes r) s1.versions ≡ true = ap (any (clashes r)) first ∙ clash in
      rw clash1 refl

  -- A second Thesis of an instrument is refused.
  taken_instrument :
      (t : InvestmentThesis) (r : VersionRecord)
      → get_by_instrument two.instrument_id s1 ≡ some t
      → commit_write codec two (WritePlan.append true (new_thesis codec two) r) s1
        ≡ err WriteError.integrity_error
  unfolding commit_write get_by_instrument add_thesis
  taken_instrument t r read =
      let hit = found (λ u. u.instrument_id == two.instrument_id) s1.theses t read in
      let passes : (t.id == two.thesis_id || t.instrument_id == two.instrument_id) ≡ true =
        ground (arith, hit) in
      let clash : any (λ u. u.id == two.thesis_id || u.instrument_id == two.instrument_id) s1.theses
          ≡ true =
        found_any (λ u. u.instrument_id == two.instrument_id)
          (λ u. u.id == two.thesis_id || u.instrument_id == two.instrument_id) s1.theses t read
          passes in
      rw clash refl

module _ (codec : Codec) (one two : WriteCall) (s s1 : ThesisStore) (result : ThesisWriteResult)
    (same_instrument : two.instrument_id ≡ one.instrument_id)
    (wrote : write codec one s ≡ ok (result, s1)) (created : result.created ≡ true) where
  second_advance :
      (thesis : InvestmentThesis) (current r : VersionRecord) (id : ℕ)
      → get_by_instrument two.instrument_id s ≡ some thesis
      → thesis.current_version_id ≡ some id
      → get_version id s ≡ some current
      → IsRecord codec two thesis (suc current.version) (some current.id) r
      → commit_write codec two (WritePlan.append false thesis r) s1 ≡ err WriteError.integrity_error
  unfolding write commit_write
  second_advance thesis current r id read pointed got w =
      let read1 = ap (λ i. get_by_instrument i s) (sym same_instrument) ∙ read in
      let a = >>=-eq-ok (plan_write codec one s) _ wrote in
      elim (plan_write-IsPlanned codec one s a.0 a.1) [
        | inl (none_yet, rest) ↦ cc (none_yet, read1)
        | inr (thesis1, found1, next1) ↦ elim next1.outcome [
          | inl (immaterial, e) ↦
              let wrong =
                unchanged_result codec one s s1 result _
                  (ap (λ p. commit_write codec one p s) (sym e) ∙ a.2)
                ∙ created in
              cc wrong
          | inr (material, (r1, e, w1)) ↦
              let same = some-inj (sym found1 ∙ read1) in
              let id_eq =
                some-inj (sym next1.pointed.1 ∙ ap (λ t. t.current_version_id) same ∙ pointed) in
              let current_eq =
                some-inj (sym next1.pointed.2 ∙ ap (λ i. get_version i s) id_eq ∙ got) in
              let b =
                append_planned-eq-ok codec one thesis1 r1 s (result, s1)
                  (ap (λ p. commit_write codec one p s) (sym e) ∙ a.2) in
              let keys1 = record-keys codec one thesis1 _ _ r1 w1 in
              let keys = record-keys codec two thesis _ _ r w in
              taken_number codec two s1 thesis r r1 s.versions (ap (λ y. y.1.versions) b.1)
                (keys1.0 ∙ ap (λ t. t.id) same ∙ sym keys.0)
                (keys1.1 ∙ ap (λ c. suc c.version) current_eq ∙ sym keys.1)
        ]
      ]

  -- Two writers for one instrument read the same tables: once a write of the first has created a
  -- version, whatever version the second has planned on what it read is refused as a violation of
  -- the tables' unique constraints, so that no version is lost or doubled.
  pub second_writer_refused :
      (is_new : Bool) (thesis : InvestmentThesis) (r : VersionRecord)
      → plan_write codec two s ≡ ok (WritePlan.append is_new thesis r)
      → commit_write codec two (WritePlan.append is_new thesis r) s1
        ≡ err WriteError.integrity_error
  second_writer_refused is_new thesis r h =
      let w = written_lem codec one s s1 result wrote created in
      elim (plan_write-IsPlanned codec two s (WritePlan.append is_new thesis r) h) [
        | inl (none_yet, (r2, e, x)) ↦
            ap (λ p. commit_write codec two p s1) e
            ∙ taken_instrument codec two s1 _ r2
                (ap (λ i. get_by_instrument i s1) same_instrument ∙ w.current)
        | inr (thesis2, read, next) ↦ elim next.outcome [
          | inl (immaterial, e) ↦ cc e
          | inr (material, (r2, e, x)) ↦
              ap (λ p. commit_write codec two p s1) e
              ∙ second_advance thesis2 next.current r2 next.pointed.0 read next.pointed.1
                  next.pointed.2 x
        ]
      ]
