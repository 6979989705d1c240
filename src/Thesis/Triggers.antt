-- ===== src/Thesis/Triggers.antt =====
-- The pairs of a condition and an observation that `evaluate_invalidation` of
-- src/investment_os/application/thesis.py calls triggered, and the Evidence of their observations.
use jz_investment_os.Base.{
  ℕ, ◌+◌, ◌≡◌, refl, ap, ◌∙◌, Bool, true, false, ◌&&◌, ◌||◌, List, [], ◌∷◌, ◌++◌, map, arith, any,
  select, mem, distinct, if◌then◌else◌, ◌==◌, Bool-cases, inl, inr, eqb→eq,
}
use jz_investment_os.Base.Order.{sort_by, mem_by-sort_by}
use jz_investment_os.Base.Count.{
  total, count, total_ext, total-sort_by, total-select, count-sort_by, count-map-select,
}
use jz_investment_os.Thesis.{InvalidationCondition, ThesisContent, append_new}
use jz_investment_os.Thesis.Payload.{leb_condition}
use jz_investment_os.Thesis.Monitor.{
  MetricObservation, Numerals, triggered, triggered_by, triggers, is_single, leb_observation,
  event_evidence_ids,
}

abbrev pub Trigger : Type 0
Trigger = InvalidationCondition × MetricObservation

-- Sorting does not change what some element passes.
any-sort_by :
    {A : Type 0} (leb : A → A → Bool) (test : A → Bool) (xs : List A)
    → any test (sort_by leb xs) ≡ any test xs
unfolding sort_by
any-sort_by leb test [] = refl
any-sort_by leb test (x ∷ xs) = mem_by-sort_by leb (λ a b. test b) x (x ∷ xs)

any-select :
    {A : Type 0} (test other : A → Bool) (xs : List A)
    → any other (select test xs) ≡ any (λ x. test x && other x) xs
any-select test other [] = refl
any-select test other (x ∷ xs) = ground (arith, any-select test other xs)

any-map-select :
    {A B : Type 0} (chosen : A → Bool) (f : A → B) (test : B → Bool) (rest : List B) (xs : List A)
    → any test (map f (select chosen xs) ++ rest)
      ≡ (any (λ x. chosen x && test (f x)) xs || any test rest)
any-map-select chosen f test rest [] = refl
any-map-select chosen f test rest (x ∷ xs) = ground (arith, any-map-select chosen f test rest xs)

module _ (numerals : Numerals) (test : Trigger → Bool) where
  -- Some single-observation condition and some observation that meets it pass the test.
  abbrev pub some_trigger : List InvalidationCondition → List MetricObservation → Bool
  some_trigger cs os =
      any (λ c. is_single numerals c && any (λ o. triggers numerals c o && test (c, o)) os) cs

  -- How many pairs of a single-observation condition and an observation that meets it pass the test.
  abbrev pub count_triggers : List InvalidationCondition → List MetricObservation → ℕ
  count_triggers cs os =
      total
        (λ c.
          if is_single numerals c then count (λ o. triggers numerals c o && test (c, o)) os else 0)
        cs

  any-triggered_by :
      (os : List MetricObservation) (cs : List InvalidationCondition)
      → any test (triggered_by numerals os cs)
        ≡ any (λ c. any (λ o. triggers numerals c o && test (c, o)) os) cs
  unfolding triggered_by
  any-triggered_by os [] = refl
  any-triggered_by os (c ∷ cs) =
      any-map-select (triggers numerals c) (λ o. (c, o)) test (triggered_by numerals os cs) os
      ∙ ap (λ b. any (λ o. triggers numerals c o && test (c, o)) os || b) (any-triggered_by os cs)

  count-triggered_by :
      (os : List MetricObservation) (cs : List InvalidationCondition)
      → count test (triggered_by numerals os cs)
        ≡ total (λ c. count (λ o. triggers numerals c o && test (c, o)) os) cs
  unfolding triggered_by
  count-triggered_by os [] = refl
  count-triggered_by os (c ∷ cs) =
      count-map-select (triggers numerals c) (λ o. (c, o)) test (triggered_by numerals os cs) os
      ∙ ap (λ n. count (λ o. triggers numerals c o && test (c, o)) os + n)
          (count-triggered_by os cs)

  pub any-triggered :
      (content : ThesisContent) (os : List MetricObservation)
      → any test (triggered numerals content os) ≡ some_trigger content.invalidation_conditions os
  unfolding triggered
  any-triggered content os =
      any-triggered_by (sort_by leb_observation os)
        (sort_by leb_condition (select (is_single numerals) content.invalidation_conditions))
      ∙ any-sort_by leb_condition (λ c. met c (sort_by leb_observation os))
          (select (is_single numerals) content.invalidation_conditions)
      ∙ any-select (is_single numerals) (λ c. met c (sort_by leb_observation os))
          content.invalidation_conditions
      ∙ same_conditions content.invalidation_conditions
    where
      met : InvalidationCondition → List MetricObservation → Bool
      met c ps = any (λ o. triggers numerals c o && test (c, o)) ps

      same_conditions :
          (cs : List InvalidationCondition)
          → any (λ c. is_single numerals c && met c (sort_by leb_observation os)) cs
            ≡ any (λ c. is_single numerals c && met c os) cs
      same_conditions [] = refl
      same_conditions (c ∷ cs) =
          rw (any-sort_by leb_observation (λ o. triggers numerals c o && test (c, o)) os)
            (ap (λ b. is_single numerals c && met c os || b) (same_conditions cs))

  pub count-triggered :
      (content : ThesisContent) (os : List MetricObservation)
      → count test (triggered numerals content os)
        ≡ count_triggers content.invalidation_conditions os
  unfolding triggered
  count-triggered content os =
      count-triggered_by (sort_by leb_observation os)
        (sort_by leb_condition (select (is_single numerals) content.invalidation_conditions))
      ∙ total-sort_by leb_condition (λ c. met c (sort_by leb_observation os))
          (select (is_single numerals) content.invalidation_conditions)
      ∙ total-select (is_single numerals) (λ c. met c (sort_by leb_observation os))
          content.invalidation_conditions
      ∙ total_ext (λ c. if is_single numerals c then met c (sort_by leb_observation os) else 0)
          (λ c. if is_single numerals c then met c os else 0)
          (λ c.
            ap (λ n. if is_single numerals c then n else 0)
              (count-sort_by leb_observation (λ o. triggers numerals c o && test (c, o)) os))
          content.invalidation_conditions
    where
      met : InvalidationCondition → List MetricObservation → ℕ
      met c ps = count (λ o. triggers numerals c o && test (c, o)) ps

-- Appending what is not there yet keeps the members of both and repeats none.
mem-snoc : (k i : ℕ) (is : List ℕ) → mem k (is ++ i ∷ []) ≡ (mem k is || k == i)
mem-snoc k i [] = ground arith
mem-snoc k i (j ∷ js) = ground (arith, mem-snoc k i js)

distinct-snoc :
    (i : ℕ) (is : List ℕ) → distinct is ≡ true → mem i is ≡ false → distinct (is ++ i ∷ []) ≡ true
distinct-snoc i [] h e = refl
distinct-snoc i (j ∷ js) h e = ground (arith, mem-snoc j i js, distinct-snoc i js)

mem_seen :
    (k i : ℕ) (found is : List ℕ)
    → mem i found ≡ true
    → (mem k found || mem k is) ≡ (mem k found || (k == i || mem k is))
mem_seen k i found is e = elim (Bool-cases (k == i)) [
  | inl same ↦ let there : mem k found ≡ true = rw (eqb→eq k i same) e in rw there refl
  | inr other ↦ rw other refl
]

mem-append_new :
    (k : ℕ) (found is : List ℕ) → mem k (append_new found is) ≡ (mem k found || mem k is)
unfolding append_new
mem-append_new k found [] = ground arith
mem-append_new k found (i ∷ is) = elim (Bool-cases (mem i found)) [
  | inl e ↦ rw e (mem-append_new k found is ∙ mem_seen k i found is e)
  | inr e ↦ rw e (mem-append_new k (found ++ i ∷ []) is ∙ ground (arith, mem-snoc k i found))
]

distinct-append_new :
    (found is : List ℕ) → distinct found ≡ true → distinct (append_new found is) ≡ true
unfolding append_new
distinct-append_new found [] h = h
distinct-append_new found (i ∷ is) h = elim (Bool-cases (mem i found)) [
  | inl e ↦ rw e (distinct-append_new found is h)
  | inr e ↦ rw e (distinct-append_new (found ++ i ∷ []) is (distinct-snoc i found h e))
]

mem-++ : (k : ℕ) (is js : List ℕ) → mem k (is ++ js) ≡ (mem k is || mem k js)
mem-++ k [] js = refl
mem-++ k (i ∷ is) js = ground (arith, mem-++ k is js)

mem-event_evidence_ids :
    (k : ℕ) (ts : List Trigger)
    → mem k (event_evidence_ids ts) ≡ any (λ t. mem k t.1.evidence_ids) ts
unfolding event_evidence_ids
mem-event_evidence_ids k [] = refl
mem-event_evidence_ids k (t ∷ ts) =
    mem-++ k t.1.evidence_ids (event_evidence_ids ts)
    ∙ ap (λ b. mem k t.1.evidence_ids || b) (mem-event_evidence_ids k ts)

-- The Evidence of a forced review.
pub mem-evidence :
    (numerals : Numerals) (content : ThesisContent) (os : List MetricObservation) (k : ℕ)
    → mem k (append_new [] (event_evidence_ids (triggered numerals content os)))
      ≡ some_trigger numerals (λ t. mem k t.1.evidence_ids) content.invalidation_conditions os
mem-evidence numerals content os k =
    mem-append_new k [] (event_evidence_ids (triggered numerals content os))
    ∙ mem-event_evidence_ids k (triggered numerals content os)
    ∙ any-triggered numerals (λ t. mem k t.1.evidence_ids) content os

pub distinct-evidence :
    (ts : List Trigger) → distinct (append_new [] (event_evidence_ids ts)) ≡ true
distinct-evidence ts = distinct-append_new [] (event_evidence_ids ts) refl
