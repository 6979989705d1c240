-- ===== src/Thesis/Rewrites.antt =====
-- What the tables hold after a write that created a version.
use jz_investment_os.Base.{
  ℕ, ◌≡◌, refl, sym, ap, ◌∙◌, subst, inl, inr, Bool, true, false, ◌||◌, Option, none, some, List,
  [], ◌∷◌, ok, >>=-eq-ok, reject_if-eq-ok, any, returned_or, arith, eqb_refl, ◌==◌, if◌then◌else◌,
  Bool-cases,
}
use jz_investment_os.Base.Text.{Text}
use jz_investment_os.Thesis.Payload.{Codec, thesis_state_value}
use jz_investment_os.Thesis.Stored.{VersionRecord}
use jz_investment_os.Thesis.Store.{
  InvestmentThesis, ThesisStore, first_where, get_by_instrument, get_version, add_thesis,
  advance_rows, advanced, is_expected,
}
use jz_investment_os.Thesis.Writer.{
  WriteCall, WritePlan, ThesisWriteResult, new_thesis, append_planned, plan_write, commit_write,
  write,
}
use jz_investment_os.Thesis.Planned.{IsRecord, plan_write-IsPlanned}
use jz_investment_os.Thesis.Writes.{append_planned-eq-ok, after_append}

-- The row of an instrument, advanced.
skip_row :
    (b : Bool) (id : ℕ) (status : Text) (i : ℕ) (u : InvestmentThesis) (ts : List InvestmentThesis)
    → (u.instrument_id == i) ≡ false
    → first_where (λ x. x.instrument_id == i) ((if b then advanced id status u else u) ∷ ts)
      ≡ first_where (λ x. x.instrument_id == i) ts
skip_row true id status i u ts h = rw h refl
skip_row false id status i u ts h = rw h refl

lookup-advance_rows :
    (test : InvestmentThesis → Bool) (id : ℕ) (status : Text) (i : ℕ) (ts : List InvestmentThesis)
    (t : InvestmentThesis)
    → first_where (λ u. u.instrument_id == i) ts ≡ some t
    → test t ≡ true
    → first_where (λ u. u.instrument_id == i) (advance_rows test id status ts)
      ≡ some (advanced id status t)
lookup-advance_rows test id status i [] t h e = cc
lookup-advance_rows test id status i (u ∷ ts) t h e = elim (Bool-cases (u.instrument_id == i)) [
  | inl here ↦
      let same : u ≡ t = ground (arith, h, here) in
      let hit : test u ≡ true = ap test same ∙ e in
      subst
        (λ b.
          first_where (λ x. x.instrument_id == i)
            ((if b then advanced id status u else u) ∷ advance_rows test id status ts)
          ≡ some (advanced id status t))
        (sym hit) (rw here (ap (λ x. some (advanced id status x)) same))
  | inr other ↦
      skip_row (test u) id status i u (advance_rows test id status ts) other
      ∙ lookup-advance_rows test id status i ts t (ground (arith, h, other)) e
]

module _ (codec : Codec) (call : WriteCall) (s s' : ThesisStore) (result : ThesisWriteResult) where
  -- The tables after a write that created a version.
  pub record IsWritten : Type 0 where
    pub thesis : InvestmentThesis
    pub number : ℕ
    pub parent : Option ℕ
    pub row : VersionRecord
    pub planned : IsRecord codec call thesis number parent row
    pub current :
        get_by_instrument call.instrument_id s'
        ≡ some (advanced row.id (thesis_state_value call.content.state) thesis)
    pub kept : get_version row.id s' ≡ some row
    pub returned : result ≡ record {
      thesis_id = thesis.id;
      thesis_version_id = row.id;
      version = row.version;
      created = true;
    }

  appended-IsWritten :
      (thesis : InvestmentThesis) (number : ℕ) (parent : Option ℕ) (r : VersionRecord)
      (before : ThesisStore)
      → IsRecord codec call thesis number parent r
      → get_by_instrument call.instrument_id before ≡ some thesis
      → append_planned codec call thesis r before ≡ ok (result, s')
      → IsWritten
  unfolding get_by_instrument get_version
  appended-IsWritten thesis number parent r before w read h =
      let a = append_planned-eq-ok codec call thesis r before (result, s') h in
      let tables : s' ≡ after_append codec call thesis r before = ap (λ y. y.1) a.1 in
      let status = thesis_state_value call.content.state in
      let test = is_expected thesis.id thesis.version in
      let expected : test thesis ≡ true = rw (eqb_refl thesis.id) (eqb_refl thesis.version) in
      record {
        thesis = thesis;
        number = number;
        parent = parent;
        row = r;
        planned = w;
        current =
            ap (get_by_instrument call.instrument_id) tables
            ∙ lookup-advance_rows test r.id status call.instrument_id before.theses thesis read
                expected;
        kept = ap (get_version r.id) tables ∙ rw (eqb_refl r.id) refl;
        returned = ap (λ y. y.0) a.1;
      }

  created-IsWritten :
      (r : VersionRecord)
      → IsRecord codec call (new_thesis codec call) 1 none r
      → commit_write codec call (WritePlan.append true (new_thesis codec call) r) s
        ≡ ok (result, s')
      → IsWritten
  unfolding commit_write add_thesis get_by_instrument
  created-IsWritten r w h =
      let thesis = new_thesis codec call in
      let b = >>=-eq-ok (add_thesis thesis s) _ h in
      let c =
        reject_if-eq-ok
          (any (λ t. t.id == thesis.id || t.instrument_id == thesis.instrument_id) s.theses) _ _
          b.1 in
      let grown : record s { theses = thesis ∷ s.theses } ≡ b.0 = ap (returned_or b.0) c.1 in
      appended-IsWritten thesis 1 none r b.0 w
        (sym (ap (get_by_instrument call.instrument_id) grown)
          ∙ rw (eqb_refl call.instrument_id) refl)
        b.2

  pub unchanged_result :
      (planned : ThesisWriteResult)
      → commit_write codec call (WritePlan.unchanged planned) s ≡ ok (result, s')
      → planned.created ≡ result.created
  unfolding commit_write
  unchanged_result planned h = ap (λ y. y.0.created) (ap (returned_or (result, s')) h)

  advanced-IsWritten :
      (thesis : InvestmentThesis) (number : ℕ) (parent : Option ℕ) (r : VersionRecord)
      → IsRecord codec call thesis number parent r
      → get_by_instrument call.instrument_id s ≡ some thesis
      → commit_write codec call (WritePlan.append false thesis r) s ≡ ok (result, s')
      → IsWritten
  unfolding commit_write
  advanced-IsWritten thesis number parent r w read h =
      appended-IsWritten thesis number parent r s w read h

  pub written_lem : write codec call s ≡ ok (result, s') → result.created ≡ true → IsWritten
  unfolding write
  written_lem h created =
      let a = >>=-eq-ok (plan_write codec call s) _ h in
      elim (plan_write-IsPlanned codec call s a.0 a.1) [
        | inl (none_yet, (r, e, w)) ↦
            created-IsWritten r w (ap (λ p. commit_write codec call p s) (sym e) ∙ a.2)
        | inr (thesis, read, next) ↦ elim next.outcome [
          | inl (immaterial, e) ↦
              let wrong =
                unchanged_result _ (ap (λ p. commit_write codec call p s) (sym e) ∙ a.2)
                ∙ created in
              cc wrong
          | inr (material, (r, e, w)) ↦
              advanced-IsWritten thesis _ _ r w read
                (ap (λ p. commit_write codec call p s) (sym e) ∙ a.2)
        ]
      ]
