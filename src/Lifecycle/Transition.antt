-- ===== src/Lifecycle/Transition.antt =====
-- What the four machines of src/investment_os/domain/state_machines.py share: the record of a
-- transition, `_start_transition` and `_guard`. A caller passes the membership test of its table.
use jz_investment_os.Base.{
  ℕ, ◌≡◌, ◌≢◌, Bool, false, ◌||◌, List, [], ◌∷◌, Outcome, ok, err, ◌>>◌, ensure, any, is_empty,
  reject_if, All, arith,
}
use jz_investment_os.Base.Text.{Text, is_blank}
use jz_investment_os.Enums.{DomainErrorCode}

-- A `UtcTimestamp`: microseconds from a fixed origin before every datetime.
abbrev pub UtcTimestamp : Type 0
UtcTimestamp = ℕ

pub record StateTransition (S : Type 0) : Type 0 where
  pub from_state : S
  pub to_state : S
  pub reason_codes : List Text
  pub occurred_at : UtcTimestamp

-- `StateTransition(current, target, reason_codes, occurred_at)`
abbrev pub state_transition : {S : Type 0} → S → S → List Text → UtcTimestamp → StateTransition S
state_transition s t rs at = record {
  from_state = s;
  to_state = t;
  reason_codes = rs;
  occurred_at = at;
}

-- `_guard` without and with its `code` argument.
abbrev pub guard : Bool → Outcome DomainErrorCode (Unit {0})
guard condition = ensure condition DomainErrorCode.transition_guard_failed

abbrev pub guard_as : DomainErrorCode → Bool → Outcome DomainErrorCode (Unit {0})
guard_as code condition = ensure condition code

-- `_start_transition`; `permitted` is `target in allowed.get(current, frozenset())`.
unfoldable pub start_transition : Bool → List Text → Outcome DomainErrorCode (Unit {0})
start_transition permitted reason_codes =
    reject_if (is_empty reason_codes || any is_blank reason_codes) DomainErrorCode.reason_required
    >> ensure permitted DomainErrorCode.invalid_transition

-- What comes out behind two checks is what was put in.
pub checked_result :
    {A : Type 0} (m g : Outcome DomainErrorCode (Unit {0})) (y : A) {x : A}
    → (m >> (g >> ok y)) ≡ ok x
    → y ≡ x
checked_result (ok _) (ok _) y h = cc
checked_result (ok _) (err e) y h = cc
checked_result (err e) g y h = cc

-- A transition is explained: there is a reason, and none is blank.
abbrev pub HasReasons : List Text → Type 0
HasReasons reason_codes = (reason_codes ≢ []) × All (λ r. is_blank r ≡ false) reason_codes

All-stated : (rs : List Text) → All (λ r. is_blank r ≡ false) rs → any is_blank rs ≡ false
All-stated [] h = ground arith
All-stated (r ∷ rs) h = ground (arith, All-stated rs h.1)

stated-All : (rs : List Text) → any is_blank rs ≡ false → All (λ r. is_blank r ≡ false) rs
stated-All [] h = tt
stated-All (r ∷ rs) h = ground (arith, stated-All rs)

-- The reasons pass the test of `start_transition` exactly if they explain the transition.
pub HasReasons-test : (rs : List Text) → HasReasons rs → (is_empty rs || any is_blank rs) ≡ false
HasReasons-test [] h = absurd (h.0 (ground arith))
HasReasons-test (r ∷ rs) h = All-stated (r ∷ rs) h.1

pub test-HasReasons : (rs : List Text) → (is_empty rs || any is_blank rs) ≡ false → HasReasons rs
test-HasReasons [] h = cc
test-HasReasons (r ∷ rs) h = (λ e. cc, stated-All (r ∷ rs) h)
