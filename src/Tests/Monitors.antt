-- ===== src/Tests/Monitors.antt =====
-- A condition that one observation meets.
use jz_investment_os.Base.{
  ℕ, ◌≡◌, refl, ◌⊎◌, ◌+◌, ◌*◌, ◌-◌, ◌^◌, true, false, ◌&&◌, none, [], ◌∷◌, map, leb, ok,
}
use jz_investment_os.Base.Text.{Text, codes, strip, strip_left, is_space, lower}
use jz_investment_os.Base.Decimal.{pos}
use jz_investment_os.Enums.{ThesisState}
use jz_investment_os.Thesis.{
  PillarStatus, ThesisChangeReason, InvalidationCondition, ThesisContent, thesis_text,
  unique_evidence_ids, evidence_backed_claim, thesis_pillar, invalidation_condition, thesis_content,
}
use jz_investment_os.Thesis.Shape.{IsContent}
use jz_investment_os.Thesis.Monitor.{
  MetricObservation, Numerals, ThesisInvalidationEvaluation, threshold_matches,
  evaluate_invalidation,
}
use jz_investment_os.Thesis.Proposal.{IsProposal, IsReport}
use jz_investment_os.Thesis.Invalidation.{is_triggered, evaluate_invalidation_total}

abbrev number_of : ℕ → Text → ℕ
number_of n [] = n
number_of n (c ∷ cs) = number_of (10 * n + (c - 48)) cs

-- Digits of ASCII, and whole numbers.
abbrev numerals : Numerals
numerals = record {
  is_digit = λ c. leb 48 c && leb c 57;
  decimal_of = λ t. pos (number_of 0 t * 10 ^ 28);
  casefold = map lower;
}

abbrev condition : InvalidationCondition
condition = record {
  condition = codes "margin falls";
  measurement = codes "margin";
  threshold = codes "below 20%";
  window = codes "Single Observation";
}

abbrev content : ThesisContent
content = record {
  state = ThesisState.valid;
  long_term_summary = codes "good";
  pillars =
      record {
        key = codes "moat";
        claim = record { description = codes "grows"; evidence_ids = 5 ∷ [] };
        status = PillarStatus.valid;
      }
      ∷ [];
  catalysts = [];
  risks = [];
  invalidation_conditions = condition ∷ [];
  monitoring_conditions = [];
  change_reason = ThesisChangeReason.new_evidence;
}

content-IsContent : IsContent content
unfolding thesis_content evidence_backed_claim unique_evidence_ids thesis_text thesis_pillar
    invalidation_condition strip
content-IsContent = record {
  content = refl;
  pillars = (record { pillar = refl; claim = refl }, tt);
  catalysts = tt;
  risks = tt;
  conditions = (refl, tt);
}

abbrev observation : ℕ → MetricObservation
observation percent = record {
  measurement = codes "margin";
  value = pos (percent * 10 ^ 28);
  observed_at = 40;
  evidence_ids = 9 ∷ [];
}

threshold_tests :
    (threshold_matches numerals (codes "<= 20%") (pos (20 * 10 ^ 28)) ≡ true)
    × (threshold_matches numerals (codes " Above 20") (pos (20 * 10 ^ 28)) ≡ false)
    × (threshold_matches numerals (codes ">2.") (pos (20 * 10 ^ 28)) ≡ false)
unfolding threshold_matches strip strip_left is_space
threshold_tests = (refl, refl, refl)

triggered_test : is_triggered numerals content (observation 15 ∷ []) ≡ true
unfolding threshold_matches strip strip_left is_space
triggered_test = refl

evaluate_invalidation_total_example :
    (e : ThesisInvalidationEvaluation) × (evaluate_invalidation numerals content
        (observation 15 ∷ [])
      ≡ ok e)
    × IsReport numerals content (observation 15 ∷ []) e
    × (((true && is_triggered numerals content (observation 15 ∷ [])) ≡ true)
          × IsProposal numerals content (observation 15 ∷ []) e
        ⊎ ((true && is_triggered numerals content (observation 15 ∷ [])) ≡ false)
          × (e.proposed_content ≡ none)
          × (e.forced_review_candidate ≡ none))
evaluate_invalidation_total_example =
    evaluate_invalidation_total numerals content (observation 15 ∷ []) content-IsContent
      ((refl, refl), tt)
