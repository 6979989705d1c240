-- ===== src/Thesis/Pillars.antt =====
-- The dictionaries of pillars of `semantic_diff`.
use jz_investment_os.Base.{
  ◌≡◌, refl, sym, ap, ◌∙◌, subst, inl, inr, ◌⊎◌, ◌↔◌, true, false, not, some, List, [], ◌∷◌,
  is_empty, is_some, select, arith, Bool-cases, Option-cases,
}
use jz_investment_os.Base.Text.{Text}
use jz_investment_os.Base.Sort.{eqb_list, eqb_list→eq, eqb_list_refl}
use jz_investment_os.Base.Order.{minus, mem_by, distinct_by}
use jz_investment_os.Base.Equality.{
  within_iff, eqb_list-IsEquality, is_empty-select_iff, all→mem, mem→all, mem-minus,
}
use jz_investment_os.Thesis.{ThesisPillar, same_key}
use jz_investment_os.Thesis.Diff.{eqb_pillar, pillar_keys, pillar_at, pillar_changed}
use jz_investment_os.Thesis.Same.{SameSet, Within, eqb_pillar-IsEquality}

-- A key is in the dictionary when a pillar has it.
pub mem-pillar_keys :
    (key : Text) (ps : List ThesisPillar)
    → mem_by eqb_list key (pillar_keys ps) ≡ is_some (pillar_at key ps)
unfolding pillar_at
mem-pillar_keys key [] = refl
mem-pillar_keys key (p ∷ ps) = ground (arith, mem-pillar_keys key ps)

mem-same_key :
    (p : ThesisPillar) (ps : List ThesisPillar)
    → mem_by same_key p ps ≡ is_some (pillar_at p.key ps)
unfolding pillar_at
mem-same_key p [] = refl
mem-same_key p (q ∷ ps) = ground (arith, mem-same_key p ps)

pillar_at_cases :
    (key : Text) (q : ThesisPillar) (ps : List ThesisPillar) (p : ThesisPillar)
    → pillar_at key (q ∷ ps) ≡ some p
    → (pillar_at key ps ≡ some p) ⊎ ((eqb_list key q.key ≡ true) × (q ≡ p))
unfolding pillar_at
pillar_at_cases key q ps p h = ground arith

-- What a dictionary holds under a key has that key.
pub pillar_at-key :
    (key : Text) (ps : List ThesisPillar) (p : ThesisPillar)
    → pillar_at key ps ≡ some p
    → key ≡ p.key
unfolding pillar_at
pillar_at-key key [] p h = cc
pillar_at-key key (q ∷ ps) p h = elim (pillar_at_cases key q ps p h) [
  | inl later ↦ pillar_at-key key ps p later
  | inr here ↦ eqb_list→eq key q.key here.0 ∙ ap (λ r. r.key) here.1
]

-- It is one of the pillars.
pub pillar_at-mem :
    (key : Text) (ps : List ThesisPillar) (p : ThesisPillar)
    → pillar_at key ps ≡ some p
    → mem_by eqb_pillar p ps ≡ true
unfolding pillar_at
pillar_at-mem key [] p h = cc
pillar_at-mem key (q ∷ ps) p h = elim (pillar_at_cases key q ps p h) [
  | inl later ↦ rw (pillar_at-mem key ps p later) (ground arith)
  | inr here ↦
      let same : eqb_pillar p q ≡ true =
        ap (λ r. eqb_pillar p r) here.1 ∙ eqb_pillar-IsEquality.same p in
      rw same refl
]

first_found :
    (q : ThesisPillar) (ps : List ThesisPillar)
    → mem_by same_key q ps ≡ false
    → pillar_at q.key (q ∷ ps) ≡ some q
unfolding pillar_at
first_found q ps h = ground (arith, mem-same_key q ps, eqb_list_refl q.key)

later_found :
    (p q : ThesisPillar) (ps : List ThesisPillar)
    → pillar_at p.key ps ≡ some p
    → pillar_at p.key (q ∷ ps) ≡ some p
unfolding pillar_at
later_found p q ps h = rw h refl

-- Without a repeated key, each pillar is found under its key.
pub mem-pillar_at :
    (p : ThesisPillar) (ps : List ThesisPillar)
    → distinct_by same_key ps ≡ true
    → mem_by eqb_pillar p ps ≡ true
    → pillar_at p.key ps ≡ some p
mem-pillar_at p [] d m = cc
mem-pillar_at p (q ∷ ps) d m = elim (Bool-cases (eqb_pillar p q)) [
  | inl e ↦
      let same : q ≡ p = sym (eqb_pillar-IsEquality.sound p q e) in
      subst (λ r. pillar_at r.key (q ∷ ps) ≡ some r) same (first_found q ps (ground arith))
  | inr e ↦ later_found p q ps (mem-pillar_at p ps (ground arith) (ground arith))
]

-- No pillar was added, removed or changed.
pub record SamePillars (previous current : List ThesisPillar) : Type 0 where
  pub added : is_empty (minus eqb_list (pillar_keys current) (pillar_keys previous)) ≡ true
  pub removed : is_empty (minus eqb_list (pillar_keys previous) (pillar_keys current)) ≡ true
  pub changed :
      is_empty (select (pillar_changed previous current) (minus eqb_list (pillar_keys previous) []))
      ≡ true

-- A pillar that one list holds and of which the other holds the key unchanged is in the other.
module _ (previous current : List ThesisPillar) (once : distinct_by same_key previous ≡ true)
    (once_now : distinct_by same_key current ≡ true) where
  unchanged_at :
      SamePillars previous current
      → (key : Text) (p q : ThesisPillar) → pillar_at key previous ≡ some p
      → pillar_at key current ≡ some q
      → p ≡ q
  unchanged_at s key p q here now =
      let there : mem_by eqb_list key (pillar_keys previous) ≡ true =
        mem-pillar_keys key previous ∙ ap is_some here in
      let listed = mem-minus eqb_list-IsEquality key (pillar_keys previous) ∙ there in
      let kept : not (pillar_changed previous current key) ≡ true =
        all→mem eqb_list-IsEquality (λ k. not (pillar_changed previous current k))
          (minus eqb_list (pillar_keys previous) [])
          ((is_empty-select_iff (pillar_changed previous current) _).0 s.changed) key listed in
      let equal : eqb_pillar p q ≡ true = ground (arith, here, now, kept) in
      eqb_pillar-IsEquality.sound p q equal

  SamePillars-SameSet : SamePillars previous current → SameSet eqb_pillar previous current
  SamePillars-SameSet s = record {
    within = λ p m.
        let here = mem-pillar_at p previous once m in
        let key = mem-pillar_keys p.key previous ∙ ap is_some here in
        let there =
          sym (mem-pillar_keys p.key current)
          ∙ (within_iff eqb_list-IsEquality (pillar_keys previous) (pillar_keys current)).0
              s.removed p.key key in
        elim (Option-cases (pillar_at p.key current)) [
          | inl missing ↦ cc (sym (ap is_some missing) ∙ there)
          | inr (q, now) ↦
              pillar_at-mem p.key current p
                (now ∙ ap some (sym (unchanged_at s p.key p q here now)))
        ];
    covers = λ q m.
        let now = mem-pillar_at q current once_now m in
        let key = mem-pillar_keys q.key current ∙ ap is_some now in
        let there =
          sym (mem-pillar_keys q.key previous)
          ∙ (within_iff eqb_list-IsEquality (pillar_keys current) (pillar_keys previous)).0 s.added
              q.key key in
        elim (Option-cases (pillar_at q.key previous)) [
          | inl missing ↦ cc (sym (ap is_some missing) ∙ there)
          | inr (p, here) ↦
              pillar_at-mem q.key previous q (here ∙ ap some (unchanged_at s q.key p q here now))
        ];
  }

  keys-Within :
      (ps qs : List ThesisPillar)
      → distinct_by same_key qs ≡ true
      → Within eqb_pillar ps qs
      → is_empty (minus eqb_list (pillar_keys ps) (pillar_keys qs)) ≡ true
  keys-Within ps qs d w =
      (within_iff eqb_list-IsEquality (pillar_keys ps) (pillar_keys qs)).1 (λ key m.
        elim (Option-cases (pillar_at key ps)) [
          | inl missing ↦ cc (sym (ap is_some missing) ∙ sym (mem-pillar_keys key ps) ∙ m)
          | inr (p, here) ↦
              let same = pillar_at-key key ps p here in
              let there = mem-pillar_at p qs d (w p (pillar_at-mem key ps p here)) in
              ap (λ k. mem_by eqb_list k (pillar_keys qs)) same
              ∙ mem-pillar_keys p.key qs
              ∙ ap is_some there
        ])

  SameSet-SamePillars : SameSet eqb_pillar previous current → SamePillars previous current
  SameSet-SamePillars s = record {
    added = keys-Within current previous once s.covers;
    removed = keys-Within previous current once_now s.within;
    changed = (is_empty-select_iff (pillar_changed previous current) _).1 (
        mem→all eqb_list-IsEquality (λ k. not (pillar_changed previous current k))
          (minus eqb_list (pillar_keys previous) [])
          (λ key m. elim (Option-cases (pillar_at key previous)) [
            | inl missing ↦ rw (missing, pillar_changed) refl
            | inr (p, here) ↦
                let same = pillar_at-key key previous p here in
                let found =
                  mem-pillar_at p current once_now
                    (s.within p (pillar_at-mem key previous p here)) in
                let now = ap (λ k. pillar_at k current) same ∙ found in
                rw (here, pillar_changed) (rw now (rw (eqb_pillar-IsEquality.same p) refl))
          ]));
  }

  pub SamePillars-iff : SamePillars previous current ↔ SameSet eqb_pillar previous current
  SamePillars-iff = (SamePillars-SameSet, SameSet-SamePillars)
