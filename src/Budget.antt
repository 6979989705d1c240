-- ===== src/Budget.antt =====
-- src/investment_os/application/llm_budget.py and infrastructure/llm_budget.py: token and cost
-- budgets that are reserved before a model is called and reconciled with its verified usage.
pub mod Ledger
pub mod Caps
pub mod Service
pub mod Cycle
