-- ===== src/Tests/Journals.antt =====
-- A Decision of the journal.
use jz_investment_os.Base.{ℕ, ◌≡◌, ◌++◌, refl, none, List, [], ◌∷◌, ok, mem}
use jz_investment_os.Base.Text.{codes, strip}
use jz_investment_os.Base.Sort.{sorted, insert_sorted}
use jz_investment_os.Base.Decimal.{pos, ◌+ℤ◌}
use jz_investment_os.Enums.{Action, BucketAction, DecisionState, RiskIntent}
use jz_investment_os.Journal.{
  DecisionClaim, DecisionPosition, InvestmentDecision, decision_text, text_items, decision_position,
  validate_hash, validate_bucket_actions, investment_decision, unique, claimed_ids, evidence_ids,
}
use jz_investment_os.Journal.Entry.{IsJournaled, investment_decision-IsJournaled}
use jz_investment_os.Journal.Evidence.{IsAscending, evidence_ids-IsAscending}

abbrev claim : List ℕ → DecisionClaim
claim ids = record { text = codes "cheap"; evidence_ids = ids }

abbrev position_of : ℕ → ℕ → DecisionPosition
position_of core tactical = record {
  total = record { value = pos core +ℤ pos tactical };
  core = record { value = pos core };
  tactical = record { value = pos tactical };
}

position_test : decision_position (position_of 3 4) ≡ ok (position_of 3 4)
unfolding decision_position ◌+ℤ◌
position_test = refl

abbrev decision : InvestmentDecision
decision = record {
  instrument_id = 1;
  portfolio_id = 2;
  thesis_version_id = 3;
  policy_version_id = 4;
  strategy_version_id = 5;
  risk_assessment_id = 6;
  position_sizing_run_id = 7;
  action = Action.buy;
  confidence = record { value = pos 5 };
  risk_intent = RiskIntent.small;
  position_before = position_of 0 0;
  position_after_proposed = position_of 3 0;
  core_action = BucketAction.buy;
  tactical_action = BucketAction.none;
  reasons = claim (9 ∷ 4 ∷ []) ∷ [];
  risks = claim (4 ∷ 2 ∷ []) ∷ [];
  watch_conditions = codes "margin" ∷ [];
  invalidation_conditions = codes "debt" ∷ [];
  unknowns = [];
  dissent = [];
  next_review_at = 90;
  input_snapshot_hash = codes "0123456789abcdef0123456789abcdef0123456789abcdef0123456789abcdef";
  prompt_bundle_version = codes "p1";
  formula_version = codes "f1";
  committee_session_id = none;
  state = DecisionState.draft;
  version = pos 1;
  id = 8;
}

decision_made : investment_decision decision ≡ ok decision
unfolding investment_decision text_items decision_text validate_hash validate_bucket_actions strip
decision_made = refl

evidence_ids_test : evidence_ids decision ≡ 2 ∷ 4 ∷ 9 ∷ []
unfolding evidence_ids claimed_ids unique sorted insert_sorted
evidence_ids_test = refl

investment_decision-IsJournaled_example : IsJournaled decision
investment_decision-IsJournaled_example =
    investment_decision-IsJournaled decision decision decision_made

evidence_ids-IsAscending_example :
    IsAscending (evidence_ids decision)
    × ((i : ℕ)
        → mem i (evidence_ids decision) ≡ mem i (claimed_ids (decision.reasons ++ decision.risks)))
evidence_ids-IsAscending_example = evidence_ids-IsAscending decision
