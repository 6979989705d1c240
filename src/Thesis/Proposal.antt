-- ===== src/Thesis/Proposal.antt =====
-- What `evaluate_invalidation` of src/investment_os/application/thesis.py reports and proposes.
use jz_investment_os.Base.{
  ℕ, ◌≡◌, refl, ◌∙◌, Bool, true, false, not, some, List, [], ◌∷◌, ◌++◌, map, ok, select, is_empty,
  mem, distinct, All, traverse, Bool-cases, inl, inr,
}
use jz_investment_os.Base.Text.{codes, strip, is_space, is_empty-strip}
use jz_investment_os.Base.Order.{sort_by, All-sort_by}
use jz_investment_os.Base.Count.{count, count-map}
use jz_investment_os.Enums.{Action, ThesisState}
use jz_investment_os.Thesis.{
  EvidenceBackedClaim, InvalidationCondition, ThesisContent, ThesisChangeReason, thesis_text,
  unique_evidence_ids, evidence_backed_claim,
}
use jz_investment_os.Thesis.Payload.{leb_condition}
use jz_investment_os.Thesis.Shape.{IsContent, content-IsNormal, IsNormal-content}
use jz_investment_os.Thesis.Unsupported.{unsupported_conditions_lem}
use jz_investment_os.Thesis.Triggers.{
  Trigger, some_trigger, count_triggers, count-triggered, mem-evidence, distinct-evidence,
}
use jz_investment_os.Thesis.Monitor.{
  MetricObservation, Numerals, ThesisInvalidationEvaluation, triggered, triggered_by, triggers,
  is_single, invalidation_risk, proposed_content, leb_observation, with_proposal, without_proposal,
}

-- The Evidence of an observation, as its constructor leaves it.
abbrev pub HasEvidence : MetricObservation → Type 0
HasEvidence o = (is_empty o.evidence_ids ≡ false) × (distinct o.evidence_ids ≡ true)

-- The risk that a trigger adds: a line on the observed condition, with the observation's Evidence.
abbrev pub risk_of : Trigger → EvidenceBackedClaim
risk_of t = record {
  description = strip (codes "Invalidation observed: " ++ t.0.condition);
  evidence_ids = t.1.evidence_ids;
}

-- It can be made of every trigger.
risk_made : (t : Trigger) → HasEvidence t.1 → invalidation_risk t ≡ ok (risk_of t)
unfolding evidence_backed_claim unique_evidence_ids thesis_text is_space
risk_made t h =
    let inked : is_empty (strip (codes "Invalidation observed: " ++ t.0.condition)) ≡ false =
      is_empty-strip 73 _ refl in
    rw inked (rw h.0 (rw h.1 refl))

risks_made :
    (ts : List Trigger)
    → All (λ t. HasEvidence t.1) ts
    → traverse invalidation_risk ts ≡ ok (map risk_of ts)
risks_made [] h = refl
risks_made (t ∷ ts) h = rw (risk_made t h.0) (rw (risks_made ts h.1) refl)

-- The content as BROKEN by an event, with more risks and nothing else changed.
abbrev pub broken_content : ThesisContent → List EvidenceBackedClaim → ThesisContent
broken_content content new_risks = record content {
  state = ThesisState.broken;
  risks = content.risks ++ new_risks;
  change_reason = ThesisChangeReason.event;
}

-- What every evaluation reports: a single-observation condition once for every observation that
-- meets it, and all conditions of other windows as unsupported, in their order.
pub record IsReport (numerals : Numerals) (content : ThesisContent) (os : List MetricObservation)
    (e : ThesisInvalidationEvaluation) : Type 0 where
  pub triggered_count :
      (test : InvalidationCondition → Bool)
      → count test e.triggered_conditions
        ≡ count_triggers numerals (λ t. test t.0) content.invalidation_conditions os
  pub unsupported :
      e.unsupported_conditions
      ≡ select (λ c. not (is_single numerals c)) content.invalidation_conditions

-- The BROKEN content that is proposed: its reason is an event, and it keeps everything but its risks,
-- which grow by one risk for every pair of a single-observation condition and an observation that
-- meets it. The committee is told to reduce or to exit, on exactly the Evidence of the observations
-- that meet such a condition, each identifier once.
pub record IsProposal (numerals : Numerals) (content : ThesisContent) (os : List MetricObservation)
    (e : ThesisInvalidationEvaluation) : Type 0 where
  pub proposed : ThesisContent
  pub new_risks : List EvidenceBackedClaim
  pub is_proposed : e.proposed_content ≡ some proposed
  pub contents : proposed ≡ broken_content content new_risks
  pub risk_count :
      (test : EvidenceBackedClaim → Bool)
      → count test new_risks
        ≡ count_triggers numerals (λ t. test (risk_of t)) content.invalidation_conditions os
  pub evidence : List ℕ
  pub forced :
      e.forced_review_candidate
      ≡ some (record {
        force_committee_review = true;
        action_candidates = Action.reduce ∷ Action.exit ∷ [];
        evidence_ids = evidence;
      })
  pub evidence_mem :
      (k : ℕ)
      → mem k evidence
        ≡ some_trigger numerals (λ t. mem k t.1.evidence_ids) content.invalidation_conditions os
  pub evidence_distinct : distinct evidence ≡ true

module _ (numerals : Numerals) where
  from_select :
      (c : InvalidationCondition) (rest : List (InvalidationCondition × MetricObservation))
      (os : List MetricObservation)
      → All HasEvidence os
      → All (λ t. HasEvidence t.1) rest
      → All (λ t. HasEvidence t.1) (map (λ o. (c, o)) (select (triggers numerals c) os) ++ rest)
  from_select c rest [] h k = k
  from_select c rest (o ∷ os) h k = elim (Bool-cases (triggers numerals c o)) [
    | inl e ↦ rw e (h.0, from_select c rest os h.1 k)
    | inr e ↦ rw e (from_select c rest os h.1 k)
  ]

  triggered_by-HasEvidence :
      (os : List MetricObservation) (cs : List InvalidationCondition)
      → All HasEvidence os
      → All (λ t. HasEvidence t.1) (triggered_by numerals os cs)
  unfolding triggered_by
  triggered_by-HasEvidence os [] h = tt
  triggered_by-HasEvidence os (c ∷ cs) h =
      from_select c (triggered_by numerals os cs) os h (triggered_by-HasEvidence os cs h)

  module _ (content : ThesisContent) (os : List MetricObservation) where
    triggered-HasEvidence :
        All HasEvidence os → All (λ t. HasEvidence t.1) (triggered numerals content os)
    unfolding triggered
    triggered-HasEvidence h =
        triggered_by-HasEvidence (sort_by leb_observation os)
          (sort_by leb_condition (select (is_single numerals) content.invalidation_conditions))
          (All-sort_by leb_observation HasEvidence os h)

    -- The constructor accepts the BROKEN content.
    pub proposed_content-eq-ok :
        IsContent content
        → All HasEvidence os
        → is_empty content.invalidation_conditions ≡ false
        → proposed_content content (triggered numerals content os)
          ≡ ok (broken_content content (map risk_of (triggered numerals content os)))
    unfolding proposed_content
    proposed_content-eq-ok valid evidence some_condition =
        let n = content-IsNormal content valid.content in
        let made =
          IsNormal-content (broken_content content (map risk_of (triggered numerals content os)))
            (record {
              summary = n.summary;
              has_pillar = n.has_pillar;
              keys = n.keys;
              monitoring = n.monitoring;
              broken = some_condition;
            }) in
        rw (risks_made (triggered numerals content os) (triggered-HasEvidence evidence)) made

    reported_once :
        (test : InvalidationCondition → Bool)
        → count test (map (λ t. t.0) (triggered numerals content os))
          ≡ count_triggers numerals (λ t. test t.0) content.invalidation_conditions os
    reported_once test =
        count-map (λ t. t.0) test (triggered numerals content os)
        ∙ count-triggered numerals (λ t. test t.0) content os

    pub without_proposal-IsReport :
        IsReport numerals content os
          (without_proposal numerals content (triggered numerals content os))
    without_proposal-IsReport = record {
      triggered_count = reported_once;
      unsupported = unsupported_conditions_lem numerals content;
    }

    pub with_proposal-IsReport :
        (proposed : ThesisContent)
        → IsReport numerals content os
            (with_proposal numerals content (triggered numerals content os) proposed)
    with_proposal-IsReport proposed = record {
      triggered_count = reported_once;
      unsupported = unsupported_conditions_lem numerals content;
    }

    pub with_proposal-IsProposal :
        let ts = triggered numerals content os in
        IsProposal numerals content os
          (with_proposal numerals content ts (broken_content content (map risk_of ts)))
    with_proposal-IsProposal =
        let ts = triggered numerals content os in
        record {
          proposed = broken_content content (map risk_of ts);
          new_risks = map risk_of ts;
          is_proposed = refl;
          contents = refl;
          risk_count = λ test.
              count-map risk_of test ts
              ∙ count-triggered numerals (λ t. test (risk_of t)) content os;
          evidence = _;
          forced = refl;
          evidence_mem = mem-evidence numerals content os;
          evidence_distinct = distinct-evidence ts;
        }
