-- ===== src/Journal.antt =====
-- src/investment_os/domain/decision.py: the Decision Journal. The content hash (SHA-256 of a JSON
-- text) is left out.
pub mod Entry
pub mod Evidence
use jz_investment_os.Base.{
  ℕ, Bool, true, false, not, ◌&&◌, ◌||◌, Option, List, [], ◌∷◌, ◌++◌, Outcome, ok, ◌>>=◌, ◌>>◌,
  reject_if, any, is_empty, length, distinct, mem, leb, ◌==◌, if◌then◌else◌,
}
use jz_investment_os.Base.Text.{Text, strip}
use jz_investment_os.Base.Sort.{sorted}
use jz_investment_os.Base.Decimal.{ℤ, pos, ◌+ℤ◌, ltb_ℤ, eqb_ℤ}
use jz_investment_os.Enums.{
  Action, BucketAction, DecisionState, DomainErrorCode, RiskIntent, is_increase, is_reduction,
}
use jz_investment_os.Lifecycle.Transition.{UtcTimestamp}
use jz_investment_os.Values.{Weight}

-- `_text` and `_text_items`
unfoldable pub decision_text : Text → Outcome DomainErrorCode Text
decision_text value = do
  let normalized = strip value
  reject_if (is_empty normalized) DomainErrorCode.invariant_violation
  ok normalized

unfoldable pub text_items : List Text → Outcome DomainErrorCode (List Text)
text_items [] = ok []
text_items (value ∷ values) = do t ← decision_text value; ts ← text_items values; ok (t ∷ ts)

pub record DecisionClaim : Type 0 where
  pub text : Text
  pub evidence_ids : List ℕ

-- `DecisionClaim.__post_init__`, on the record with the given fields.
unfoldable pub decision_claim : DecisionClaim → Outcome DomainErrorCode DecisionClaim
decision_claim c = do
  t ← decision_text c.text
  reject_if (is_empty c.evidence_ids || not (distinct c.evidence_ids))
      DomainErrorCode.invariant_violation
  ok (record c { text = t })

pub record DecisionPosition : Type 0 where
  pub total : Weight
  pub core : Weight
  pub tactical : Weight

-- `DecisionPosition.__post_init__`
unfoldable pub decision_position : DecisionPosition → Outcome DomainErrorCode DecisionPosition
decision_position p = do
  reject_if (not (eqb_ℤ (p.core.value +ℤ p.tactical.value) p.total.value))
      DomainErrorCode.invariant_violation
  ok p

pub record InvestmentDecision : Type 0 where
  pub instrument_id : ℕ
  pub portfolio_id : ℕ
  pub thesis_version_id : ℕ
  pub policy_version_id : ℕ
  pub strategy_version_id : ℕ
  pub risk_assessment_id : ℕ
  pub position_sizing_run_id : ℕ
  pub action : Action
  pub confidence : Weight
  pub risk_intent : RiskIntent
  pub position_before : DecisionPosition
  pub position_after_proposed : DecisionPosition
  pub core_action : BucketAction
  pub tactical_action : BucketAction
  pub reasons : List DecisionClaim
  pub risks : List DecisionClaim
  pub watch_conditions : List Text
  pub invalidation_conditions : List Text
  pub unknowns : List Text
  pub dissent : List Text
  pub next_review_at : UtcTimestamp
  pub input_snapshot_hash : Text
  pub prompt_bundle_version : Text
  pub formula_version : Text
  pub committee_session_id : Option ℕ
  pub state : DecisionState
  pub version : ℤ
  pub id : ℕ

-- `character in hexdigits`
abbrev pub is_hexdigit : ℕ → Bool
is_hexdigit c = leb 48 c && leb c 57 || leb 97 c && leb c 102 || leb 65 c && leb c 70

-- `_validate_hash`
unfoldable pub validate_hash : Text → Outcome DomainErrorCode (Unit {0})
validate_hash value =
    reject_if (not (length value == 64) || any (λ c. not (is_hexdigit c)) value)
      DomainErrorCode.invariant_violation

-- `action in {Action.WATCH, Action.AVOID}`, and the tests on one bucket action.
abbrev pub is_passive : Action → Bool
is_passive Action.watch = true
is_passive Action.avoid = true
is_passive _ = false

abbrev pub is_no_action : BucketAction → Bool
is_no_action BucketAction.none = true
is_no_action _ = false

abbrev pub increases : BucketAction → Bool
increases BucketAction.buy = true
increases BucketAction.add = true
increases _ = false

abbrev pub reduces : BucketAction → Bool
reduces BucketAction.reduce = true
reduces BucketAction.exit = true
reduces _ = false

-- `_validate_bucket_actions`
unfoldable pub validate_bucket_actions :
    Action → BucketAction → BucketAction → Outcome DomainErrorCode (Unit {0})
unfolding is_increase is_reduction
validate_bucket_actions action core_action tactical_action = do
  reject_if (is_passive action && not (is_no_action core_action && is_no_action tactical_action))
      DomainErrorCode.invariant_violation
  reject_if (is_increase action && not (increases core_action || increases tactical_action))
      DomainErrorCode.invariant_violation
  reject_if (is_reduction action && not (reduces core_action || reduces tactical_action))
      DomainErrorCode.invariant_violation

-- `InvestmentDecision.__post_init__`, on the record with the given fields.
unfoldable pub investment_decision : InvestmentDecision → Outcome DomainErrorCode InvestmentDecision
investment_decision d = do
  reject_if (ltb_ℤ d.version (pos 1)) DomainErrorCode.invariant_violation
  reject_if (is_empty d.reasons) DomainErrorCode.invariant_violation
  watch_conditions ← text_items d.watch_conditions
  invalidation_conditions ← text_items d.invalidation_conditions
  unknowns ← text_items d.unknowns
  dissent ← text_items d.dissent
  prompt_bundle_version ← decision_text d.prompt_bundle_version
  formula_version ← decision_text d.formula_version
  validate_hash d.input_snapshot_hash
  validate_bucket_actions d.action d.core_action d.tactical_action
  ok (record d {
    watch_conditions = watch_conditions;
    invalidation_conditions = invalidation_conditions;
    unknowns = unknowns;
    dissent = dissent;
    prompt_bundle_version = prompt_bundle_version;
    formula_version = formula_version;
  })

-- A set of identifiers, as a list without repetitions.
unfoldable pub unique : List ℕ → List ℕ
unique [] = []
unique (k ∷ ks) = let rest = unique ks in if mem k rest then rest else k ∷ rest

unfoldable pub claimed_ids : List DecisionClaim → List ℕ
claimed_ids [] = []
claimed_ids (c ∷ cs) = c.evidence_ids ++ claimed_ids cs

-- `InvestmentDecision.evidence_ids`; the texts of UUIDs are ordered as their numbers.
unfoldable pub evidence_ids : InvestmentDecision → List ℕ
unfolding claimed_ids unique
evidence_ids d = sorted (unique (claimed_ids (d.reasons ++ d.risks)))
