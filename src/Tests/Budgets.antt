-- ===== src/Tests/Budgets.antt =====
-- A policy, a request and its usage.
use jz_investment_os.Base.{◌≡◌, refl, none, some, [], ok, arith}
use jz_investment_os.Base.Text.{codes}
use jz_investment_os.Base.Decimal.{pos, Decimal, ◌+ℤ◌}
use jz_investment_os.Budget.Ledger.{
  LlmBudgetPolicy, LlmBudgetReservation, Store, over_budget, granted, refused, reserve, reconcile,
  reconcile_record, reconcile_status, reconcile_ledgers,
}
use jz_investment_os.Budget.Caps
use jz_investment_os.Budget.Caps.{WithinCaps, BudgetRun, BudgetRun-WithinCaps}
use jz_investment_os.Budget.Service.{ModelProviderProfile, LlmGatewayRequest}

abbrev policy : LlmBudgetPolicy
policy = record {
  version = codes "v1";
  currency = codes "CNY";
  task_token_limit = pos 2000;
  daily_token_limit = pos 5000;
  task_cost_limit = pos 4000;
  daily_cost_limit = pos 9000;
}

abbrev profile : ModelProviderProfile
profile = record {
  id = 2;
  max_tokens = pos 500;
  pricing_version = some (codes "p1");
  pricing_currency = some (codes "CNY");
  input_token_price = some (pos 1);
  output_token_price = some (pos 3);
}

abbrev gateway_request : LlmGatewayRequest
gateway_request = record {
  request_id = 6;
  max_output_tokens = pos 400;
  system_instruction = some (codes "be brief");
  input_payload_json = some (codes "{}");
}

abbrev opened : Store
opened = record {
  policy = some policy;
  daily = λ d. none;
  task = λ t. none;
  reservations = λ i. none;
  usages = [];
}

abbrev reservation : LlmBudgetReservation
reservation = record {
  id = 11;
  task_id = 6;
  profile_id = 2;
  window_date = 3;
  pricing = record {
    version = codes "p1";
    currency = codes "CNY";
    input_token_price = pos 1;
    output_token_price = pos 3;
  };
  reserved_input_tokens = pos 266;
  reserved_output_tokens = pos 400;
  reserved_cost = pos 1466;
}

opened-WithinCaps : WithinCaps policy opened
unfolding ◌+ℤ◌
opened-WithinCaps = record {
  daily = λ d. (omega arith, omega arith);
  task = λ t. (omega arith, omega arith);
}

abbrev reserved_store : Store
reserved_store = (reserve policy reservation opened).1

reconciled : (s : Store) × (reconcile 11 (pos 200) (pos 150) (pos 650) reserved_store ≡ ok s)
unfolding reserve over_budget granted refused reconcile reconcile_record reconcile_status
    reconcile_ledgers ◌+ℤ◌
reconciled = (_, refl)

BudgetRun-WithinCaps_example : WithinCaps policy reconciled.0
BudgetRun-WithinCaps_example =
    BudgetRun-WithinCaps policy {s = opened} {t = reconciled.0} opened-WithinCaps (
      Caps.next (Caps.next Caps.here (Caps.reserving reservation opened))
        (Caps.reconciling 11 (pos 200) (pos 150) (pos 650) reserved_store reconciled.1))
