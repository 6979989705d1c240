-- ===== src/Thesis/Monitor.antt =====
-- `evaluate_invalidation` of src/investment_os/application/thesis.py.
use jz_investment_os.Base.{
  ℕ, Bool, true, false, not, ◌&&◌, ◌||◌, Option, none, some, List, [], ◌∷◌, ◌++◌, map, Outcome, ok,
  ◌>>=◌, ◌>>◌, reject_if, select, is_empty, distinct, traverse, ltb, ◌==◌, if◌then◌else◌,
}
use jz_investment_os.Base.Text.{Text, codes, strip, strip_left, is_space, lower}
use jz_investment_os.Base.Sort.{eqb_list, mem_list}
use jz_investment_os.Base.Order.{leb_text, sort_by, mem_by}
use jz_investment_os.Base.Decimal.{Decimal, ltb_ℤ, leb_ℤ}
use jz_investment_os.Enums.{Action, DomainErrorCode, ThesisState}
use jz_investment_os.Lifecycle.Transition.{UtcTimestamp}
use jz_investment_os.Values.{NumberInput, exact_decimal}
use jz_investment_os.Thesis.{
  EvidenceBackedClaim, InvalidationCondition, ThesisChangeReason, ThesisContent, append_new,
  evidence_backed_claim, is_broken, thesis_content,
}
use jz_investment_os.Thesis.Payload.{leb_condition}
use jz_investment_os.Thesis.Diff.{eqb_condition}

pub record MetricObservation : Type 0 where
  pub measurement : Text
  pub value : Decimal
  pub observed_at : UtcTimestamp
  pub evidence_ids : List ℕ

-- `MetricObservation.__post_init__`
unfoldable pub metric_observation :
    Text → NumberInput → UtcTimestamp → List ℕ → Outcome DomainErrorCode MetricObservation
metric_observation measurement value observed_at evidence_ids = do
  reject_if (is_empty (strip measurement)) DomainErrorCode.invariant_violation
  reject_if (is_empty evidence_ids) DomainErrorCode.invariant_violation
  reject_if (not (distinct evidence_ids)) DomainErrorCode.invariant_violation
  exact ← exact_decimal value
  ok (record {
    measurement = strip measurement;
    value = exact;
    observed_at = observed_at;
    evidence_ids = evidence_ids;
  })

pub record ForcedReviewCandidate : Type 0 where
  pub force_committee_review : Bool
  pub action_candidates : List Action
  pub evidence_ids : List ℕ

pub record ThesisInvalidationEvaluation : Type 0 where
  pub triggered_conditions : List InvalidationCondition
  pub unsupported_conditions : List InvalidationCondition
  pub proposed_content : Option ThesisContent
  pub forced_review_candidate : Option ForcedReviewCandidate

-- What the standard library does: `\d` of a pattern, `Decimal(text)` of such digits, `casefold`.
pub record Numerals : Type 0 where
  pub is_digit : ℕ → Bool
  pub decimal_of : Text → Decimal
  pub casefold : Text → Text

pub data Comparison : Type 0 where
  less at_most greater at_least : Comparison

abbrev pub holds : Comparison → Decimal → Decimal → Bool
holds Comparison.less value threshold = ltb_ℤ value threshold
holds Comparison.at_most value threshold = leb_ℤ value threshold
holds Comparison.greater value threshold = ltb_ℤ threshold value
holds Comparison.at_least value threshold = leb_ℤ threshold value

abbrev pub leb_observation : MetricObservation → MetricObservation → Bool
leb_observation o p =
    ltb o.observed_at p.observed_at
    || o.observed_at == p.observed_at
      && (if eqb_list o.measurement p.measurement
          then leb_text o.evidence_ids p.evidence_ids
          else leb_text o.measurement p.measurement)

-- `EvidenceBackedClaim(description=f"Invalidation observed: ...", ...)`
abbrev pub invalidation_risk :
    (InvalidationCondition × MetricObservation) → Outcome DomainErrorCode EvidenceBackedClaim
invalidation_risk t = evidence_backed_claim (record {
  description = codes "Invalidation observed: " ++ t.0.condition;
  evidence_ids = t.1.evidence_ids;
})

unfoldable pub event_evidence_ids : List (InvalidationCondition × MetricObservation) → List ℕ
event_evidence_ids [] = []
event_evidence_ids (t ∷ ts) = t.1.evidence_ids ++ event_evidence_ids ts

-- The content that is proposed.
unfoldable pub proposed_content :
    ThesisContent
    → List (InvalidationCondition × MetricObservation)
    → Outcome DomainErrorCode ThesisContent
proposed_content content ts = do
  invalidation_risks ← traverse invalidation_risk ts
  thesis_content (record content {
    state = ThesisState.broken;
    risks = content.risks ++ invalidation_risks;
    change_reason = ThesisChangeReason.event;
  })

-- A text behind a prefix in small letters, whatever the case of the text.
abbrev pub after_prefix : Text → Text → Option Text
after_prefix [] cs = some cs
after_prefix (p ∷ ps) [] = none
after_prefix (p ∷ ps) (c ∷ cs) =
    let rest = after_prefix ps cs in if lower c == p then rest else none

abbrev pub starts_with_space : Text → Bool
starts_with_space [] = false
starts_with_space (c ∷ cs) = is_space c

module _ (numerals : Numerals) where
  -- The longest start of a text that is digits, and the rest.
  abbrev pub span_digits : Text → Text × Text
  span_digits [] = ([], [])
  span_digits (c ∷ cs) =
      let rest = span_digits cs in
      if numerals.is_digit c then (c ∷ rest.0, rest.1) else ([], c ∷ cs)

  -- `%?$`
  abbrev pub is_end : Text → Bool
  is_end [] = true
  is_end (c ∷ []) = c == 37
  is_end _ = false

  -- `(?:\.\d+)?%?$` behind the digits of a number; the number's text.
  abbrev pub after_digits : Text → Text → Option Text
  after_digits whole [] = some whole
  after_digits whole (c ∷ cs) =
      let fraction = span_digits cs in
      if c == 46
      then (if not (is_empty fraction.0) && is_end fraction.1
          then some (whole ++ c ∷ fraction.0)
          else none)
      else if is_end (c ∷ cs)
      then some whole
      else none

  -- `(\d+(?:\.\d+)?)%?$`
  abbrev pub number_text : Text → Option Text
  number_text cs =
      let whole = span_digits cs in if is_empty whole.0 then none else after_digits whole.0 whole.1

  abbrev pub with_comparison : Comparison → Option Text → Option (Comparison × Decimal)
  with_comparison comparison none = none
  with_comparison comparison (some text) = some (comparison, numerals.decimal_of text)

  -- An operator, spaces, and a number.
  abbrev pub match_symbol :
      Comparison → Text → Text → Option (Comparison × Decimal) → Option (Comparison × Decimal)
  match_symbol comparison symbol cs others = elim (after_prefix symbol cs) [
    | none ↦ others
    | some rest ↦ with_comparison comparison (number_text (strip_left rest))
  ]

  -- A word, at least one space, and a number.
  abbrev pub match_word :
      Comparison → Text → Text → Option (Comparison × Decimal) → Option (Comparison × Decimal)
  match_word comparison word cs others = elim (after_prefix word cs) [
    | none ↦ others
    | some rest ↦
        if starts_with_space rest
        then with_comparison comparison (number_text (strip_left rest))
        else none
  ]

  -- `_THRESHOLD_PATTERN.fullmatch(text)`
  abbrev pub match_threshold : Text → Option (Comparison × Decimal)
  match_threshold cs = match_symbol Comparison.at_most (codes "<=") cs (
      match_symbol Comparison.at_least (codes ">=") cs (
        match_symbol Comparison.less (codes "<") cs (
          match_symbol Comparison.greater (codes ">") cs (
            match_word Comparison.less (codes "below") cs
              (match_word Comparison.greater (codes "above") cs none)))))

  -- `_threshold_matches(threshold, value) is True`
  abbrev pub compared : Option (Comparison × Decimal) → Decimal → Bool
  compared none value = false
  compared (some (comparison, threshold)) value = holds comparison value threshold

  unfoldable pub threshold_matches : Text → Decimal → Bool
  threshold_matches threshold value = compared (match_threshold (strip threshold)) value

  -- `_SINGLE_OBSERVATION_WINDOWS`
  abbrev pub is_single : InvalidationCondition → Bool
  is_single c =
      mem_list (numerals.casefold c.window)
        (codes "single observation" ∷ codes "single_observation" ∷ [])

  -- The loops that fill `triggered`.
  abbrev pub triggers : InvalidationCondition → MetricObservation → Bool
  triggers c o = eqb_list o.measurement c.measurement && threshold_matches c.threshold o.value

  unfoldable pub triggered_by :
      List MetricObservation
      → List InvalidationCondition
      → List (InvalidationCondition × MetricObservation)
  triggered_by observations [] = []
  triggered_by observations (c ∷ cs) =
      map (λ o. (c, o)) (select (triggers c) observations) ++ triggered_by observations cs

  unfoldable pub triggered :
      ThesisContent → List MetricObservation → List (InvalidationCondition × MetricObservation)
  triggered content observations =
      triggered_by (sort_by leb_observation observations)
        (sort_by leb_condition (select is_single content.invalidation_conditions))

  -- The two results of `evaluate_invalidation`.
  abbrev pub unsupported_conditions : ThesisContent → List InvalidationCondition
  unsupported_conditions content =
      let supported = select is_single content.invalidation_conditions in
      select (λ c. not (mem_by eqb_condition c supported)) content.invalidation_conditions

  abbrev pub without_proposal :
      ThesisContent
      → List (InvalidationCondition × MetricObservation)
      → ThesisInvalidationEvaluation
  without_proposal content ts = record {
    triggered_conditions = map (λ t. t.0) ts;
    unsupported_conditions = unsupported_conditions content;
    proposed_content = none;
    forced_review_candidate = none;
  }

  abbrev pub with_proposal :
      ThesisContent
      → List (InvalidationCondition × MetricObservation)
      → ThesisContent
      → ThesisInvalidationEvaluation
  with_proposal content ts proposed = record {
    triggered_conditions = map (λ t. t.0) ts;
    unsupported_conditions = unsupported_conditions content;
    proposed_content = some proposed;
    forced_review_candidate = some (record {
      force_committee_review = true;
      action_candidates = Action.reduce ∷ Action.exit ∷ [];
      evidence_ids = append_new [] (event_evidence_ids ts);
    });
  }

  -- `evaluate_invalidation`
  unfoldable pub evaluate_invalidation :
      ThesisContent → List MetricObservation → Outcome DomainErrorCode ThesisInvalidationEvaluation
  evaluate_invalidation content observations =
      let ts = triggered content observations in
      let proposal = proposed_content content ts in
      if is_empty ts || is_broken content.state
      then ok (without_proposal content ts)
      else (proposal >>= λ proposed. ok (with_proposal content ts proposed))
