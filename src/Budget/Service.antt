-- ===== src/Budget/Service.antt =====
-- application/llm_budget.py: the service before the store. A product of tokens and a price is exact
-- (the default context rounds it beyond 28 digits). `get_policy` and `save_policy` of the store are
-- the read and the write of its one policy row.
use jz_investment_os.Base.{
  ℕ, ◌+◌, ◌||◌, Option, none, some, [], ◌∷◌, Outcome, ok, err, ◌>>=◌, ◌>>◌, ensure, reject_if,
  if◌then◌else◌, ltb,
}
use jz_investment_os.Base.Text.{Text, is_blank}
use jz_investment_os.Base.Sort.{eqb_list}
use jz_investment_os.Base.Decimal.{ℤ, pos, Decimal, d0, ◌+ℤ◌, ◌*ℤ◌, ltb_ℤ, leb_ℤ, min_ℤ}
use jz_investment_os.Budget.Ledger.{
  LlmBudgetPolicy, ModelPricing, LlmBudgetReservation, LlmBudgetUsage, Store, BudgetFailure,
  reserve, reconcile, usage,
}

-- What the service reads of a profile and of a request.
pub record ModelProviderProfile : Type 0 where
  pub id : ℕ
  pub max_tokens : ℤ
  pub pricing_version : Option Text
  pub pricing_currency : Option Text
  pub input_token_price : Option Decimal
  pub output_token_price : Option Decimal

pub record LlmGatewayRequest : Type 0 where
  pub request_id : ℕ
  pub max_output_tokens : ℤ
  pub system_instruction : Option Text
  pub input_payload_json : Option Text

-- `_validate_policy`
unfoldable pub validate_policy : LlmBudgetPolicy → Outcome BudgetFailure (Unit {0})
validate_policy p =
    reject_if
      (is_blank p.version
        || is_blank p.currency
        || leb_ℤ p.task_token_limit (pos 0)
        || leb_ℤ p.daily_token_limit (pos 0)
        || ltb_ℤ p.task_cost_limit d0
        || ltb_ℤ p.daily_cost_limit d0)
      BudgetFailure.policy_invalid

-- The tests of `_pricing_for` once the four fields are there.
unfoldable pub checked_pricing : ModelPricing → Outcome BudgetFailure ModelPricing
checked_pricing p = do
  reject_if (is_blank p.version || is_blank p.currency) BudgetFailure.pricing_unavailable
  reject_if (ltb_ℤ p.input_token_price d0 || ltb_ℤ p.output_token_price d0)
      BudgetFailure.pricing_invalid
  ok p

-- `_pricing_for`
unfoldable pub pricing_of :
    Option Text → Option Text → Option Decimal → Option Decimal → Outcome BudgetFailure ModelPricing
unfolding checked_pricing
pricing_of (some version) (some currency) (some input_token_price) (some output_token_price) =
    checked_pricing (record {
      version = version;
      currency = currency;
      input_token_price = input_token_price;
      output_token_price = output_token_price;
    })
pricing_of _ _ _ _ = err BudgetFailure.pricing_unavailable

unfoldable pub pricing_for : ModelProviderProfile → Outcome BudgetFailure ModelPricing
unfolding pricing_of
pricing_for p =
    pricing_of p.pricing_version p.pricing_currency p.input_token_price p.output_token_price

-- `len(text.encode("utf-8"))`
abbrev pub utf8_width : ℕ → ℕ
utf8_width c = if ltb c 128 then 1 else if ltb c 2048 then 2 else if ltb c 65536 then 3 else 4

abbrev pub utf8_length : Text → ℕ
utf8_length [] = 0
utf8_length (c ∷ cs) = utf8_width c + utf8_length cs

-- `_worst_case_input_tokens`
unfoldable pub worst_case_input_tokens : Option Text → Option Text → Outcome BudgetFailure ℤ
worst_case_input_tokens (some system_instruction) (some input_payload_json) =
    ok (pos (utf8_length system_instruction + utf8_length input_payload_json + 256))
worst_case_input_tokens _ _ = err BudgetFailure.prompt_missing

-- `Decimal(input_tokens) * input_token_price + Decimal(output_tokens) * output_token_price`
unfoldable pub cost_of : ModelPricing → ℤ → ℤ → Decimal
cost_of p input_tokens output_tokens =
    input_tokens *ℤ p.input_token_price +ℤ output_tokens *ℤ p.output_token_price

-- What `LLMBudgetService.reserve` computes before it calls the store.
unfoldable pub prepare :
    LlmBudgetPolicy
    → ModelProviderProfile
    → LlmGatewayRequest
    → ℕ
    → ℕ
    → Outcome BudgetFailure LlmBudgetReservation
prepare policy profile request window_date id = do
  validate_policy policy
  pricing ← pricing_for profile
  ensure (eqb_list pricing.currency policy.currency) BudgetFailure.currency_mismatch
  input_tokens ← worst_case_input_tokens request.system_instruction request.input_payload_json
  let output_tokens = min_ℤ profile.max_tokens request.max_output_tokens
  ok (record {
    id = id;
    task_id = request.request_id;
    profile_id = profile.id;
    window_date = window_date;
    pricing = pricing;
    reserved_input_tokens = input_tokens;
    reserved_output_tokens = output_tokens;
    reserved_cost = cost_of pricing input_tokens output_tokens;
  })

granted_or_refused :
    Option LlmBudgetReservation × Store → Outcome BudgetFailure LlmBudgetReservation × Store
granted_or_refused (some r, s) = (ok r, s)
granted_or_refused (none, s) = (err BudgetFailure.budget_exceeded, s)

unfoldable pub reserve_prepared :
    LlmBudgetPolicy
    → Outcome BudgetFailure LlmBudgetReservation
    → Store
    → Outcome BudgetFailure LlmBudgetReservation × Store
unfolding granted_or_refused
reserve_prepared policy (ok r) s = granted_or_refused (reserve policy r s)
reserve_prepared policy (err e) s = (err e, s)

-- `LLMBudgetService.reserve`, with the policy that `get_policy` found.
unfoldable pub reserve_under :
    Option LlmBudgetPolicy
    → ModelProviderProfile
    → LlmGatewayRequest
    → ℕ
    → ℕ
    → Store
    → Outcome BudgetFailure LlmBudgetReservation × Store
unfolding prepare reserve_prepared
reserve_under none profile request window_date id s = (err BudgetFailure.policy_unavailable, s)
reserve_under (some policy) profile request window_date id s =
    reserve_prepared policy (prepare policy profile request window_date id) s

unfoldable pub service_reserve :
    ModelProviderProfile
    → LlmGatewayRequest
    → ℕ
    → ℕ
    → Store
    → Outcome BudgetFailure LlmBudgetReservation × Store
unfolding reserve_under
service_reserve profile request window_date id s =
    reserve_under s.policy profile request window_date id s

-- `LLMBudgetService.reconcile`
unfoldable pub service_reconcile :
    LlmBudgetReservation → ℤ → ℤ → Store → Outcome BudgetFailure (Decimal × Store)
service_reconcile r input_tokens output_tokens s = do
  reject_if (ltb_ℤ input_tokens (pos 0) || ltb_ℤ output_tokens (pos 0)) BudgetFailure.negative_usage
  reject_if
      (ltb_ℤ r.reserved_input_tokens input_tokens || ltb_ℤ r.reserved_output_tokens output_tokens)
      BudgetFailure.usage_exceeded
  s' ← reconcile r.id input_tokens output_tokens (cost_of r.pricing input_tokens output_tokens) s
  ok (cost_of r.pricing input_tokens output_tokens, s')

-- `LLMBudgetService.save_policy`, with the store's.
unfoldable pub save_policy : LlmBudgetPolicy → Store → Outcome BudgetFailure Store
save_policy p s = validate_policy p >> ok (record s { policy = some p })

-- `LLMBudgetService.usage`
usage_under : Option LlmBudgetPolicy → ℕ → Store → Outcome BudgetFailure (Option LlmBudgetUsage)
usage_under none window_date s = ok none
usage_under (some policy) window_date s =
    validate_policy policy >> ok (some (usage window_date policy s))

unfoldable pub service_usage : ℕ → Store → Outcome BudgetFailure (Option LlmBudgetUsage)
unfolding usage_under
service_usage window_date s = usage_under s.policy window_date s
