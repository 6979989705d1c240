-- ===== src/Thesis/Lineage.antt =====
-- The invariant of the Thesis tables.
use jz_investment_os.Base.{
  ℕ, suc, ◌≡◌, refl, sym, ap, ◌∙◌, subst, inl, inr, Bool, true, false, ◌&&◌, ◌||◌, Option, none,
  some, List, [], ◌∷◌, any, All, eqb→eq, eqb_refl, arith, Bool-cases, ◌==◌, if◌then◌else◌,
}
use jz_investment_os.Base.Text.{Text}
use jz_investment_os.Base.Order.{distinct_by, mem_by}
use jz_investment_os.Thesis.Stored.{VersionRecord}
use jz_investment_os.Thesis.Store.{
  InvestmentThesis, ThesisStore, first_where, clashes, advanced, advance_rows, is_expected,
}

-- The newest version of a Thesis.
abbrev pub latest : ℕ → List VersionRecord → Option VersionRecord
latest thesis_id vs = first_where (λ v. v.thesis_id == thesis_id) vs

-- A version is the first of its Thesis and has no parent, or follows the newest one.
abbrev pub Follows : VersionRecord → Option VersionRecord → Type 0
Follows r none = (r.version ≡ 1) × (r.parent_version_id ≡ none)
Follows r (some p) = (r.version ≡ suc p.version) × (r.parent_version_id ≡ some p.id)

abbrev pub IsHistory : List VersionRecord → Type 0
IsHistory [] = Unit {0}
IsHistory (r ∷ rs) = Follows r (latest r.thesis_id rs) × (any (clashes r) rs ≡ false) × IsHistory rs

-- The row of a Thesis points to its newest version.
abbrev pub PointsToLatest : List VersionRecord → InvestmentThesis → Type 0
PointsToLatest vs t =
    (r : VersionRecord) × (latest t.id vs ≡ some r) × (t.current_version_id ≡ some r.id)

abbrev pub same_row : InvestmentThesis → InvestmentThesis → Bool
same_row t u = t.id == u.id || t.instrument_id == u.instrument_id

abbrev pub owns : List InvestmentThesis → VersionRecord → Bool
owns ts v = any (λ t. t.id == v.thesis_id) ts

pub record IsSound (s : ThesisStore) : Type 0 where
  pub history : IsHistory s.versions
  pub current : All (PointsToLatest s.versions) s.theses
  pub rows : distinct_by same_row s.theses ≡ true
  pub owned : All (λ v. owns s.theses v ≡ true) s.versions

-- What a search finds passes its test, and fails a test that nothing passes.
pub found :
    {A : Type 0} (test : A → Bool) (xs : List A) (x : A)
    → first_where test xs ≡ some x
    → test x ≡ true
found test [] x h = cc
found test (y ∷ ys) x h = elim (Bool-cases (test y)) [
  | inl e ↦ let same : y ≡ x = ground (arith, h, e) in sym (ap test same) ∙ e
  | inr e ↦ found test ys x (ground (arith, h, e))
]

pub found_fails :
    {A : Type 0} (test other : A → Bool) (xs : List A) (x : A)
    → first_where test xs ≡ some x
    → any other xs ≡ false
    → other x ≡ false
found_fails test other [] x h k = cc
found_fails test other (y ∷ ys) x h k = elim (Bool-cases (test y)) [
  | inl e ↦ let same : y ≡ x = ground (arith, h, e) in sym (ap other same) ∙ ground (arith, k)
  | inr e ↦ found_fails test other ys x (ground (arith, h, e)) (ground (arith, k))
]

pub found_any :
    {A : Type 0} (test other : A → Bool) (xs : List A) (x : A)
    → first_where test xs ≡ some x
    → other x ≡ true
    → any other xs ≡ true
found_any test other xs x h k = elim (Bool-cases (any other xs)) [
  | inl e ↦ e
  | inr e ↦ cc (found_fails test other xs x h e, k)
]

pub found_All :
    {A : Type 0} (P : A → Type 0) (test : A → Bool) (xs : List A) (x : A)
    → first_where test xs ≡ some x
    → All P xs
    → P x
found_All P test [] x h p = cc
found_All P test (y ∷ ys) x h p = elim (Bool-cases (test y)) [
  | inl e ↦ let same : y ≡ x = ground (arith, h, e) in subst P same p.0
  | inr e ↦ found_All P test ys x (ground (arith, h, e)) p.1
]

-- A version that no other clashes with is found by its identifier.
pub latest-id :
    (thesis_id : ℕ) (vs : List VersionRecord) (r : VersionRecord)
    → IsHistory vs
    → latest thesis_id vs ≡ some r
    → first_where (λ v. v.id == r.id) vs ≡ some r
latest-id thesis_id [] r h e = cc
latest-id thesis_id (v ∷ vs) r h e = elim (Bool-cases (v.thesis_id == thesis_id)) [
  | inl here ↦
      let same : v ≡ r = ground (arith, e, here) in
      subst (λ x. first_where (λ w. w.id == x.id) (v ∷ vs) ≡ some x) same (rw (eqb_refl v.id) refl)
  | inr later ↦
      let below : latest thesis_id vs ≡ some r = ground (arith, e, later) in
      let apart : (v.id == r.id) ≡ false =
        ground (arith, found_fails (λ w. w.thesis_id == thesis_id) (clashes v) vs r below h.1) in
      rw apart (latest-id thesis_id vs r h.2 below)
]

-- A version of another Thesis, or of none that is known.
latest-other :
    (thesis_id : ℕ) (r : VersionRecord) (vs : List VersionRecord)
    → (r.thesis_id == thesis_id) ≡ false
    → latest thesis_id (r ∷ vs) ≡ latest thesis_id vs
latest-other thesis_id r vs h = rw h refl

pub latest-none :
    (thesis_id : ℕ) (ts : List InvestmentThesis) (vs : List VersionRecord)
    → any (λ t. t.id == thesis_id) ts ≡ false
    → All (λ v. owns ts v ≡ true) vs
    → latest thesis_id vs ≡ none
latest-none thesis_id ts [] h o = refl
latest-none thesis_id ts (v ∷ vs) h o = elim (Bool-cases (v.thesis_id == thesis_id)) [
  | inl here ↦
      let same : v.thesis_id ≡ thesis_id = eqb→eq v.thesis_id thesis_id here in
      cc (o.0, ap (λ i. any (λ t. t.id == i) ts) same, h)
  | inr other ↦ rw other (latest-none thesis_id ts vs h o.1)
]

-- Advancing rows keeps their keys.
owns-advance_rows :
    (test : InvestmentThesis → Bool) (id : ℕ) (status : Text) (ts : List InvestmentThesis)
    (v : VersionRecord)
    → owns (advance_rows test id status ts) v ≡ owns ts v
owns-advance_rows test id status [] v = refl
owns-advance_rows test id status (t ∷ ts) v = ground (arith, owns-advance_rows test id status ts v)

mem-advance_rows :
    (test : InvestmentThesis → Bool) (id : ℕ) (status : Text) (b : Bool) (t : InvestmentThesis)
    (ts : List InvestmentThesis)
    → mem_by same_row (if b then advanced id status t else t) (advance_rows test id status ts)
      ≡ mem_by same_row t ts
mem-advance_rows test id status b t [] = refl
mem-advance_rows test id status b t (u ∷ ts) =
    ground (arith, mem-advance_rows test id status b t ts)

rows-advance_rows :
    (test : InvestmentThesis → Bool) (id : ℕ) (status : Text) (ts : List InvestmentThesis)
    → distinct_by same_row (advance_rows test id status ts) ≡ distinct_by same_row ts
rows-advance_rows test id status [] = refl
rows-advance_rows test id status (t ∷ ts) = rw (mem-advance_rows test id status (test t) t ts) (
    ap (λ b. (if mem_by same_row t ts then false else true) && b)
      (rows-advance_rows test id status ts))

-- The rows before a version is appended to a Thesis: the row of that Thesis, if it is there, is the
-- one that was read, and the others point to their newest version.
abbrev pub Before : List VersionRecord → InvestmentThesis → InvestmentThesis → Type 0
Before vs thesis t =
    ((t.id == thesis.id) ≡ true → t.version ≡ thesis.version)
    × ((t.id == thesis.id) ≡ false → PointsToLatest vs t)

module _ (thesis : InvestmentThesis) (r : VersionRecord) (status : Text) where
  at_row :
      (vs : List VersionRecord) (t : InvestmentThesis) (b : Bool)
      → is_expected thesis.id thesis.version t ≡ b
      → PointsToLatest (r ∷ vs) (if b then advanced r.id status t else t)
      → PointsToLatest
          (r ∷ vs)
          (if is_expected thesis.id thesis.version t then advanced r.id status t else t)
  at_row vs t b e p =
      subst (λ c. PointsToLatest (r ∷ vs) (if c then advanced r.id status t else t)) (sym e) p

  current-advance_rows :
      (vs : List VersionRecord) (ts : List InvestmentThesis)
      → r.thesis_id ≡ thesis.id
      → All (Before vs thesis) ts
      → All
          (PointsToLatest (r ∷ vs))
          (advance_rows (is_expected thesis.id thesis.version) r.id status ts)
  current-advance_rows vs [] own b = tt
  current-advance_rows vs (t ∷ ts) own b = elim (Bool-cases (t.id == thesis.id)) [
    | inl same ↦
        let version = ap (λ n. n == thesis.version) (b.0.0 same) ∙ eqb_refl thesis.version in
        let mine : (r.thesis_id == t.id) ≡ true = ground (arith, own, same) in
        (
          at_row vs t true (rw same version) (r, rw mine refl, refl),
          current-advance_rows vs ts own b.1,
        )
    | inr other ↦
        let p = b.0.1 other in
        let apart : (r.thesis_id == t.id) ≡ false = ground (arith, own, other) in
        (
          at_row vs t false (rw other refl) (p.0, latest-other t.id r vs apart ∙ p.1, p.2),
          current-advance_rows vs ts own b.1,
        )
  ]

  owned_still :
      (vs : List VersionRecord) (ts : List InvestmentThesis)
      → All (λ v. owns ts v ≡ true) vs
      → All
          (λ v. owns (advance_rows (is_expected thesis.id thesis.version) r.id status ts) v ≡ true)
          vs
  owned_still [] ts o = tt
  owned_still (v ∷ vs) ts o = (
    owns-advance_rows (is_expected thesis.id thesis.version) r.id status ts v ∙ o.0,
    owned_still vs ts o.1,
  )

  -- Appending a version that follows the newest one and advancing the row keeps the tables sound.
  pub append-IsSound :
      (s : ThesisStore) (links : List (ℕ × ℕ))
      → r.thesis_id ≡ thesis.id
      → Follows r (latest r.thesis_id s.versions)
      → any (clashes r) s.versions ≡ false
      → IsHistory s.versions
      → All (Before s.versions thesis) s.theses
      → distinct_by same_row s.theses ≡ true
      → All (λ v. owns s.theses v ≡ true) (r ∷ s.versions)
      → IsSound (record {
        theses = advance_rows (is_expected thesis.id thesis.version) r.id status s.theses;
        versions = r ∷ s.versions;
        links = links;
        evidence = s.evidence;
      })
  append-IsSound s links own follows apart history before rows owned = record {
    history = (follows, apart, history);
    current = current-advance_rows s.versions s.theses own before;
    rows = rows-advance_rows (is_expected thesis.id thesis.version) r.id status s.theses ∙ rows;
    owned = owned_still (r ∷ s.versions) s.theses owned;
  }
