-- ===== src/Thesis/Invalidation.antt =====
-- When `evaluate_invalidation` proposes a BROKEN Thesis.
use jz_investment_os.Base.{
  ◌≡◌, refl, ap, ◌∙◌, ◌⊎◌, Bool, true, false, not, ◌&&◌, ◌||◌, none, List, [], ◌∷◌, map, ok, arith,
  any, is_empty, All, Bool-cases, inl, inr,
}
use jz_investment_os.Thesis.{InvalidationCondition, ThesisContent, is_broken}
use jz_investment_os.Thesis.Shape.{IsContent}
use jz_investment_os.Thesis.Proposal.{
  HasEvidence, risk_of, broken_content, IsReport, IsProposal, proposed_content-eq-ok,
  without_proposal-IsReport, with_proposal-IsReport, with_proposal-IsProposal,
}
use jz_investment_os.Thesis.Triggers.{Trigger, some_trigger, any-triggered}
use jz_investment_os.Thesis.Monitor.{
  MetricObservation, Numerals, ThesisInvalidationEvaluation, evaluate_invalidation, triggered,
  triggers, is_single, with_proposal, without_proposal,
}

module _ (numerals : Numerals) where
  -- Some single-observation condition of the content is met by an observation of its measurement.
  abbrev pub is_triggered : ThesisContent → List MetricObservation → Bool
  is_triggered content os =
      any (λ c. is_single numerals c && any (triggers numerals c) os)
        content.invalidation_conditions

  any-and_true :
      (f : MetricObservation → Bool) (os : List MetricObservation)
      → any (λ o. f o && true) os ≡ any f os
  any-and_true f [] = refl
  any-and_true f (o ∷ os) = ground (arith, any-and_true f os)

  some_trigger-any :
      (os : List MetricObservation) (cs : List InvalidationCondition)
      → some_trigger numerals (λ t. true) cs os
        ≡ any (λ c. is_single numerals c && any (triggers numerals c) os) cs
  some_trigger-any os [] = refl
  some_trigger-any os (c ∷ cs) =
      rw (any-and_true (triggers numerals c) os) (
        ap (λ b. is_single numerals c && any (triggers numerals c) os || b)
          (some_trigger-any os cs))

  triggered-any :
      (content : ThesisContent) (os : List MetricObservation)
      → not (is_empty (triggered numerals content os)) ≡ is_triggered content os
  triggered-any content os =
      not_empty-any (triggered numerals content os)
      ∙ any-triggered numerals (λ t. true) content os
      ∙ some_trigger-any os content.invalidation_conditions
    where
      not_empty-any : (ts : List Trigger) → not (is_empty ts) ≡ any (λ t. true) ts
      not_empty-any [] = refl
      not_empty-any (t ∷ ts) = refl

-- The test that ends the evaluation, for `triggers` that are empty or not.
stopped : (a b t : Bool) → not a ≡ t → (a || b) ≡ true → (not b && t) ≡ false
stopped a b t h e = ground arith

went_on : (a b t : Bool) → not a ≡ t → (a || b) ≡ false → (not b && t) ≡ true
went_on a b t h e = ground arith

met_any : (a b t : Bool) → not a ≡ t → (a || b) ≡ false → t ≡ true
met_any a b t h e = ground arith

module _ (numerals : Numerals) (content : ThesisContent) (os : List MetricObservation) where
  some_condition :
      is_triggered numerals content os ≡ true → is_empty content.invalidation_conditions ≡ false
  some_condition h = go content.invalidation_conditions h
    where
      go :
          (cs : List InvalidationCondition)
          → any (λ c. is_single numerals c && any (triggers numerals c) os) cs ≡ true
          → is_empty cs ≡ false
      go [] k = cc
      go (c ∷ cs) k = refl

  -- For content that the constructors return and observations with Evidence, the evaluation
  -- succeeds; it reports a single-observation condition once for every observation of its
  -- measurement that meets its threshold, and all conditions of other windows as unsupported. If the
  -- Thesis is not BROKEN and some condition is met like that, it proposes the content as BROKEN and
  -- forces a review with REDUCE and EXIT as the candidates; otherwise it proposes nothing. The
  -- proposed content differs only in its state, its reason (EVENT) and its risks: for every pair of
  -- such a condition and an observation that meets it, one risk is added, which names the condition
  -- and carries the observation's Evidence. The review's Evidence is that of the observations that
  -- meet such a condition, each identifier once.
  pub evaluate_invalidation_total :
      IsContent content
      → All HasEvidence os
      → (e : ThesisInvalidationEvaluation) × (evaluate_invalidation numerals content os ≡ ok e)
        × IsReport numerals content os e
        × (((not (is_broken content.state) && is_triggered numerals content os) ≡ true)
              × IsProposal numerals content os e
            ⊎ ((not (is_broken content.state) && is_triggered numerals content os) ≡ false)
              × (e.proposed_content ≡ none)
              × (e.forced_review_candidate ≡ none))
  unfolding evaluate_invalidation
  evaluate_invalidation_total valid evidence =
      let ts = triggered numerals content os in
      let met = triggered-any numerals content os in
      elim (Bool-cases (is_empty ts || is_broken content.state)) [
        | inl stop ↦ (
          without_proposal numerals content ts,
          rw stop refl,
          without_proposal-IsReport numerals content os,
          inr (stopped _ _ _ met stop, refl, refl),
        )
        | inr go ↦
            let proposed = broken_content content (map risk_of ts) in
            let found =
              proposed_content-eq-ok numerals content os valid evidence
                (some_condition (met_any _ _ _ met go)) in
            (
              with_proposal numerals content ts proposed,
              rw go (rw found refl),
              with_proposal-IsReport numerals content os proposed,
              inl (went_on _ _ _ met go, with_proposal-IsProposal numerals content os),
            )
      ]
