-- ===== src/Budget/Caps.antt =====
-- The store of infrastructure/llm_budget.py against the limits of a policy, over sequences of calls.
use jz_investment_os.Base.{
  ℕ, ◌≡◌, refl, inl, inr, Bool, false, ◌||◌, Option, none, some, ok, ◌==◌, arith, Bool-cases, sym,
  subst,
}
use jz_investment_os.Base.Decimal.{ℤ, Decimal, ◌+ℤ◌, ◌≤ℤ◌, int_laws}
use jz_investment_os.Budget.Ledger.{
  LlmBudgetPolicy, LlmBudgetReservation, Ledger, ReservationRecord, ReservationStatus, Store, put,
  ledger_or_new, exceeds, hold, settle, held_tokens, daily_of, task_of, over_budget, refused,
  granted, reserve, settled, over_held, reconcile_ledgers, reconcile_status, reconcile_record,
  reconcile,
}

-- One ledger under its limits.
abbrev pub Capped : Ledger → ℤ → Decimal → Type 0
Capped l token_limit cost_limit =
    (l.consumed_tokens +ℤ l.reserved_tokens ≤ℤ token_limit)
    × (l.consumed_cost +ℤ l.reserved_cost ≤ℤ cost_limit)

-- Every day and every task is within the limits of the policy.
pub record WithinCaps (p : LlmBudgetPolicy) (s : Store) : Type 0 where
  pub daily : (d : ℕ) → Capped (ledger_or_new (s.daily d)) p.daily_token_limit p.daily_cost_limit
  pub task : (t : ℕ) → Capped (ledger_or_new (s.task t)) p.task_token_limit p.task_cost_limit

put-Capped :
    (k : ℕ) (v : Ledger) (table : ℕ → Option Ledger) (t : ℤ) (c : Decimal)
    → ((j : ℕ) → Capped (ledger_or_new (table j)) t c)
    → Capped v t c
    → (j : ℕ) → Capped (ledger_or_new (put k v table j)) t c
put-Capped k v table t c h new j = elim (Bool-cases (j == k)) [
  | inl e ↦ rw e new
  | inr e ↦ rw e (h j)
]

or_false : (a b : Bool) → (a || b) ≡ false → (a ≡ false) × (b ≡ false)
or_false a b h = ground arith

hold-Capped :
    (l : Ledger) (n : ℤ) (x : Decimal) (t : ℤ) (c : Decimal)
    → exceeds l n x t c ≡ false
    → Capped (hold l n x) t c
hold-Capped l n x t c h =
    let fits : (l.consumed_tokens +ℤ l.reserved_tokens +ℤ n ≤ℤ t)
        × (l.consumed_cost +ℤ l.reserved_cost +ℤ x ≤ℤ c) =
      ground (arith, h) in
    (omega (int_laws, fits.0), omega (int_laws, fits.1))

settle-Capped :
    (l : Ledger) (held : ℤ) (price : Decimal) (n : ℤ) (x : Decimal) (t : ℤ) (c : Decimal)
    → Capped l t c
    → n ≤ℤ held
    → x ≤ℤ price
    → Capped (settle l held price n x) t c
settle-Capped l held price n x t c h a b = (omega (int_laws, h.0), omega (int_laws, h.1))

within_budget :
    (p : LlmBudgetPolicy) (r : LlmBudgetReservation) (s : Store)
    → over_budget p r s ≡ false
    → (exceeds (daily_of r s) (held_tokens r) r.reserved_cost p.daily_token_limit p.daily_cost_limit
        ≡ false)
      × (exceeds (task_of r s) (held_tokens r) r.reserved_cost p.task_token_limit p.task_cost_limit
          ≡ false)
unfolding over_budget
within_budget p r s h = or_false _ _ h

-- A reservation, granted or refused, keeps every day and every task within the limits of the policy
-- that it was checked against.
pub reserve-WithinCaps :
    (p : LlmBudgetPolicy) (r : LlmBudgetReservation) (s : Store)
    → WithinCaps p s
    → WithinCaps p (reserve p r s).1
unfolding reserve refused granted
reserve-WithinCaps p r s w = elim (Bool-cases (over_budget p r s)) [
  | inl e ↦ rw e (record {
    daily = put-Capped r.window_date _ s.daily _ _ w.daily (w.daily r.window_date);
    task = put-Capped r.task_id _ s.task _ _ w.task (w.task r.task_id);
  })
  | inr e ↦ rw e (
      let (d, t) = within_budget p r s e in
      record {
        daily = put-Capped r.window_date _ s.daily _ _ w.daily (
            hold-Capped (daily_of r s) (held_tokens r) r.reserved_cost p.daily_token_limit
              p.daily_cost_limit d);
        task = put-Capped r.task_id _ s.task _ _ w.task (
            hold-Capped (task_of r s) (held_tokens r) r.reserved_cost p.task_token_limit
              p.task_cost_limit t);
      })
]

abbrev pub open_record : LlmBudgetReservation → ReservationRecord
open_record r = record { reservation = r; status = ReservationStatus.reserved }

over_held_false :
    (r : LlmBudgetReservation) (n m : ℤ) (c : Decimal)
    → over_held r n m c ≡ false
    → (n +ℤ m ≤ℤ held_tokens r) × (c ≤ℤ r.reserved_cost)
over_held_false r n m c h = ground (arith, h)

-- What a successful reconciliation found, and what it left.
pub record Reconciled (id : ℕ) (n m : ℤ) (c : Decimal) (s s' : Store) : Type 0 where
  pub reservation : LlmBudgetReservation
  pub found : s.reservations id ≡ some (open_record reservation)
  pub daily : Ledger
  pub daily_found : s.daily reservation.window_date ≡ some daily
  pub task : Ledger
  pub task_found : s.task reservation.task_id ≡ some task
  pub within : over_held reservation n m c ≡ false
  pub result : s' ≡ settled reservation daily task n m c s

from_ledgers :
    (id : ℕ) (r : LlmBudgetReservation) (od ot : Option Ledger) (n m : ℤ) (c : Decimal)
    (s s' : Store)
    → s.reservations id ≡ some (open_record r)
    → s.daily r.window_date ≡ od
    → s.task r.task_id ≡ ot
    → reconcile_ledgers r od ot n m c s ≡ ok s'
    → Reconciled id n m c s s'
unfolding reconcile_ledgers
from_ledgers id r none ot n m c s s' f ed et h = cc
from_ledgers id r (some d) none n m c s s' f ed et h = cc
from_ledgers id r (some d) (some t) n m c s s' f ed et h = elim (Bool-cases (over_held r n m c)) [
  | inl e ↦ cc (rw e at h)
  | inr e ↦
      let same : settled r d t n m c s ≡ s' = cc (rw e at h) in
      record {
        reservation = r;
        found = f;
        daily = d;
        daily_found = ed;
        task = t;
        task_found = et;
        within = e;
        result = sym same;
      }
]

from_status :
    (id : ℕ) (st : ReservationStatus) (r : LlmBudgetReservation) (n m : ℤ) (c : Decimal)
    (s s' : Store)
    → s.reservations id ≡ some (record { reservation = r; status = st })
    → reconcile_status st r n m c s ≡ ok s'
    → Reconciled id n m c s s'
unfolding reconcile_status
from_status id ReservationStatus.reserved r n m c s s' f h =
    from_ledgers id r (s.daily r.window_date) (s.task r.task_id) n m c s s' f refl refl h
from_status id ReservationStatus.reconciled r n m c s s' f h = cc

from_record :
    (id : ℕ) (o : Option ReservationRecord) (n m : ℤ) (c : Decimal) (s s' : Store)
    → s.reservations id ≡ o
    → reconcile_record o n m c s ≡ ok s'
    → Reconciled id n m c s s'
unfolding reconcile_record
from_record id none n m c s s' f h = cc
from_record id (some x) n m c s s' f h = from_status id x.status x.reservation n m c s s' f h

pub reconcile-Reconciled :
    (id : ℕ) (n m : ℤ) (c : Decimal) (s s' : Store)
    → reconcile id n m c s ≡ ok s'
    → Reconciled id n m c s s'
unfolding reconcile
reconcile-Reconciled id n m c s s' h = from_record id (s.reservations id) n m c s s' refl h

-- A reconciliation that succeeds keeps every day and every task within the limits.
pub reconcile-WithinCaps :
    (p : LlmBudgetPolicy) (id : ℕ) (n m : ℤ) (c : Decimal) (s s' : Store)
    → WithinCaps p s
    → reconcile id n m c s ≡ ok s'
    → WithinCaps p s'
unfolding settled
reconcile-WithinCaps p id n m c s s' w h =
    let x = reconcile-Reconciled id n m c s s' h in
    let r = x.reservation in
    let below : (n +ℤ m ≤ℤ held_tokens r) × (c ≤ℤ r.reserved_cost) =
      over_held_false r n m c x.within in
    let kept : WithinCaps p (settled r x.daily x.task n m c s) = record {
      daily = put-Capped r.window_date _ s.daily _ _ w.daily (
          settle-Capped x.daily (held_tokens r) r.reserved_cost (n +ℤ m) c _ _
            (subst (λ o. Capped (ledger_or_new o) p.daily_token_limit p.daily_cost_limit)
              x.daily_found (w.daily r.window_date))
            below.0 below.1);
      task = put-Capped r.task_id _ s.task _ _ w.task (
          settle-Capped x.task (held_tokens r) r.reserved_cost (n +ℤ m) c _ _
            (subst (λ o. Capped (ledger_or_new o) p.task_token_limit p.task_cost_limit) x.task_found
              (w.task r.task_id))
            below.0 below.1);
    } in
    subst (WithinCaps p) (sym x.result) kept

-- The calls that change the ledgers under one policy.
pub data BudgetStep (p : LlmBudgetPolicy) : Store → Store → Type 0 where
  reserving : (r : LlmBudgetReservation) (s : Store) → BudgetStep p s (reserve p r s).1
  reconciling :
      (id : ℕ) (n m : ℤ) (c : Decimal) (s : Store) {s' : Store}
      → reconcile id n m c s ≡ ok s'
      → BudgetStep p s s'

pub data BudgetRun (p : LlmBudgetPolicy) (s : Store) : Store → Type 0 where
  here : BudgetRun p s s
  next : {t u : Store} → BudgetRun p s t → BudgetStep p t u → BudgetRun p s u

BudgetStep-WithinCaps :
    (p : LlmBudgetPolicy) {s t : Store} → BudgetStep p s t → WithinCaps p s → WithinCaps p t
BudgetStep-WithinCaps p (reserving r s) w = reserve-WithinCaps p r s w
BudgetStep-WithinCaps p (reconciling id n m c s h) w = reconcile-WithinCaps p id n m c s _ w h

-- From a store within the limits of a policy, no sequence of reservations checked against that
-- policy (granted or refused) and successful reconciliations brings the consumed and reserved
-- tokens or costs of any day or task above its limit.
pub BudgetRun-WithinCaps :
    (p : LlmBudgetPolicy) {s t : Store} → WithinCaps p s → BudgetRun p s t → WithinCaps p t
BudgetRun-WithinCaps p w here = w
BudgetRun-WithinCaps p w (next run step) =
    BudgetStep-WithinCaps p step (BudgetRun-WithinCaps p w run)
