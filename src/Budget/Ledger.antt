-- ===== src/Budget/Ledger.antt =====
-- infrastructure/llm_budget.py: the store. A database transaction is a function on the whole store;
-- a raised error leaves the store as it was (rollback). Rows are found by key; the row locks and the
-- advisory lock make calls sequential.
use jz_investment_os.Base.{
  ℕ, Bool, ◌||◌, Option, none, some, List, ◌∷◌, Outcome, ok, err, ◌==◌, if◌then◌else◌,
}
use jz_investment_os.Base.Text.{Text}
use jz_investment_os.Base.Decimal.{ℤ, pos, Decimal, d0, ◌+ℤ◌, ◌-ℤ◌, ltb_ℤ, max_ℤ}

pub record LlmBudgetPolicy : Type 0 where
  pub version : Text
  pub currency : Text
  pub task_token_limit : ℤ
  pub daily_token_limit : ℤ
  pub task_cost_limit : Decimal
  pub daily_cost_limit : Decimal

pub record ModelPricing : Type 0 where
  pub version : Text
  pub currency : Text
  pub input_token_price : Decimal
  pub output_token_price : Decimal

pub record LlmBudgetReservation : Type 0 where
  pub id : ℕ
  pub task_id : ℕ
  pub profile_id : ℕ
  pub window_date : ℕ
  pub pricing : ModelPricing
  pub reserved_input_tokens : ℤ
  pub reserved_output_tokens : ℤ
  pub reserved_cost : Decimal

pub record LlmBudgetUsage : Type 0 where
  pub window_date : ℕ
  pub input_tokens : ℤ
  pub output_tokens : ℤ
  pub total_cost : Decimal
  pub remaining_tokens : ℤ
  pub remaining_cost : Decimal
  pub reserved_tokens : ℤ
  pub reserved_cost : Decimal

-- A row of the daily and of the task ledger; a new row holds the column defaults, 0.
pub record Ledger : Type 0 where
  pub reserved_tokens : ℤ
  pub consumed_tokens : ℤ
  pub reserved_cost : Decimal
  pub consumed_cost : Decimal

abbrev pub new_ledger : Ledger
new_ledger = record {
  reserved_tokens = pos 0;
  consumed_tokens = pos 0;
  reserved_cost = d0;
  consumed_cost = d0;
}

pub data ReservationStatus : Type 0 where
  reserved reconciled : ReservationStatus

pub record ReservationRecord : Type 0 where
  pub reservation : LlmBudgetReservation
  pub status : ReservationStatus

pub record UsageRecord : Type 0 where
  pub reservation_id : ℕ
  pub task_id : ℕ
  pub profile_id : ℕ
  pub window_date : ℕ
  pub pricing_version : Text
  pub input_tokens : ℤ
  pub output_tokens : ℤ
  pub total_cost : Decimal

pub record Store : Type 0 where
  pub policy : Option LlmBudgetPolicy
  pub daily : ℕ → Option Ledger
  pub task : ℕ → Option Ledger
  pub reservations : ℕ → Option ReservationRecord
  pub usages : List UsageRecord

-- A table after a row is written.
abbrev pub put : {A : Type 0} → ℕ → A → (ℕ → Option A) → ℕ → Option A
put k v table j = if j == k then some v else table j

-- The row of a ledger, written anew where it is missing.
abbrev pub ledger_or_new : Option Ledger → Ledger
ledger_or_new none = new_ledger
ledger_or_new (some l) = l

-- The capacity test of `reserve`, against one ledger.
abbrev pub exceeds : Ledger → ℤ → Decimal → ℤ → Decimal → Bool
exceeds l tokens cost token_limit cost_limit =
    ltb_ℤ token_limit (l.consumed_tokens +ℤ l.reserved_tokens +ℤ tokens)
    || ltb_ℤ cost_limit (l.consumed_cost +ℤ l.reserved_cost +ℤ cost)

abbrev pub hold : Ledger → ℤ → Decimal → Ledger
hold l tokens cost = record l {
  reserved_tokens = l.reserved_tokens +ℤ tokens;
  reserved_cost = l.reserved_cost +ℤ cost;
}

abbrev pub held_tokens : LlmBudgetReservation → ℤ
held_tokens r = r.reserved_input_tokens +ℤ r.reserved_output_tokens

abbrev pub daily_of : LlmBudgetReservation → Store → Ledger
daily_of r s = ledger_or_new (s.daily r.window_date)

abbrev pub task_of : LlmBudgetReservation → Store → Ledger
task_of r s = ledger_or_new (s.task r.task_id)

-- The four tests of `reserve`.
unfoldable pub over_budget : LlmBudgetPolicy → LlmBudgetReservation → Store → Bool
over_budget p r s =
    exceeds (daily_of r s) (held_tokens r) r.reserved_cost p.daily_token_limit p.daily_cost_limit
    || exceeds (task_of r s) (held_tokens r) r.reserved_cost p.task_token_limit p.task_cost_limit

-- The store after a refusal: the transaction commits the new ledger rows.
unfoldable pub refused : LlmBudgetReservation → Store → Store
refused r s = record s {
  daily = put r.window_date (daily_of r s) s.daily;
  task = put r.task_id (task_of r s) s.task;
}

-- The store after a grant.
unfoldable pub granted : LlmBudgetReservation → Store → Store
granted r s = record s {
  daily = put r.window_date (hold (daily_of r s) (held_tokens r) r.reserved_cost) s.daily;
  task = put r.task_id (hold (task_of r s) (held_tokens r) r.reserved_cost) s.task;
  reservations =
      put r.id (record { reservation = r; status = ReservationStatus.reserved }) s.reservations;
}

-- `SqlAlchemyLLMBudgetStore.reserve`; `r` carries the arguments, and the new row's `uuid4()`.
unfoldable pub reserve :
    LlmBudgetPolicy → LlmBudgetReservation → Store → Option LlmBudgetReservation × Store
reserve policy r s = if over_budget policy r s then (none, refused r s) else (some r, granted r s)

pub data BudgetFailure : Type 0 where
  policy_unavailable policy_invalid currency_mismatch pricing_unavailable : BudgetFailure
  pricing_invalid prompt_missing budget_exceeded negative_usage : BudgetFailure
  usage_exceeded reservation_unavailable ledger_unavailable : BudgetFailure

-- One ledger after the held amounts became used ones.
abbrev pub settle : Ledger → ℤ → Decimal → ℤ → Decimal → Ledger
settle l held_tokens held_cost tokens cost = record {
  reserved_tokens = l.reserved_tokens -ℤ held_tokens;
  consumed_tokens = l.consumed_tokens +ℤ tokens;
  reserved_cost = l.reserved_cost -ℤ held_cost;
  consumed_cost = l.consumed_cost +ℤ cost;
}

-- The store once a reservation is settled.
unfoldable pub settled : LlmBudgetReservation → Ledger → Ledger → ℤ → ℤ → Decimal → Store → Store
settled r daily task input_tokens output_tokens cost s =
    let actual = input_tokens +ℤ output_tokens in
    record s {
      daily = put r.window_date (settle daily (held_tokens r) r.reserved_cost actual cost) s.daily;
      task = put r.task_id (settle task (held_tokens r) r.reserved_cost actual cost) s.task;
      reservations =
          put r.id (record { reservation = r; status = ReservationStatus.reconciled })
            s.reservations;
      usages =
          record {
            reservation_id = r.id;
            task_id = r.task_id;
            profile_id = r.profile_id;
            window_date = r.window_date;
            pricing_version = r.pricing.version;
            input_tokens = input_tokens;
            output_tokens = output_tokens;
            total_cost = cost;
          }
          ∷ s.usages;
    }

abbrev pub over_held : LlmBudgetReservation → ℤ → ℤ → Decimal → Bool
over_held r input_tokens output_tokens cost =
    ltb_ℤ (held_tokens r) (input_tokens +ℤ output_tokens) || ltb_ℤ r.reserved_cost cost

-- The body of `reconcile`, from the rows that it finds.
unfoldable pub reconcile_ledgers :
    LlmBudgetReservation
    → Option Ledger
    → Option Ledger
    → ℤ
    → ℤ
    → Decimal
    → Store
    → Outcome BudgetFailure Store
reconcile_ledgers r (some daily) (some task) input_tokens output_tokens cost s =
    if over_held r input_tokens output_tokens cost
    then err usage_exceeded
    else ok (settled r daily task input_tokens output_tokens cost s)
reconcile_ledgers r _ _ input_tokens output_tokens cost s = err ledger_unavailable

unfoldable pub reconcile_status :
    ReservationStatus → LlmBudgetReservation → ℤ → ℤ → Decimal → Store → Outcome BudgetFailure Store
reconcile_status ReservationStatus.reserved r input_tokens output_tokens cost s =
    reconcile_ledgers r (s.daily r.window_date) (s.task r.task_id) input_tokens output_tokens cost s
reconcile_status ReservationStatus.reconciled r input_tokens output_tokens cost s =
    err reservation_unavailable

unfoldable pub reconcile_record :
    Option ReservationRecord → ℤ → ℤ → Decimal → Store → Outcome BudgetFailure Store
reconcile_record none input_tokens output_tokens cost s = err reservation_unavailable
reconcile_record (some x) input_tokens output_tokens cost s =
    reconcile_status x.status x.reservation input_tokens output_tokens cost s

-- `SqlAlchemyLLMBudgetStore.reconcile`; the stored row, not the argument, says what was held.
unfoldable pub reconcile : ℕ → ℤ → ℤ → Decimal → Store → Outcome BudgetFailure Store
reconcile id input_tokens output_tokens cost s =
    reconcile_record (s.reservations id) input_tokens output_tokens cost s

-- `SqlAlchemyLLMBudgetStore.usage`
unfoldable pub usage : ℕ → LlmBudgetPolicy → Store → LlmBudgetUsage
usage window_date policy s =
    let l = ledger_or_new (s.daily window_date) in
    record {
      window_date = window_date;
      input_tokens = l.consumed_tokens;
      output_tokens = pos 0;
      total_cost = l.consumed_cost;
      remaining_tokens =
          max_ℤ (pos 0) (policy.daily_token_limit -ℤ l.consumed_tokens -ℤ l.reserved_tokens);
      remaining_cost = max_ℤ d0 (policy.daily_cost_limit -ℤ l.consumed_cost -ℤ l.reserved_cost);
      reserved_tokens = l.reserved_tokens;
      reserved_cost = l.reserved_cost;
    }
