-- ===== src/Risk.antt =====
-- src/investment_os/domain/risk.py: risk flags, and the gate that an assessment opens or shuts. The
-- content hash (SHA-256 of a JSON text) is left out.
pub mod Gate
use jz_investment_os.Base.{
  ℕ, Bool, true, false, not, ◌||◌, List, map, Outcome, ok, ◌>>=◌, ◌>>◌, reject_if, any, is_empty,
  leb, ltb, distinct, if◌then◌else◌,
}
use jz_investment_os.Base.Text.{Text, strip, is_blank}
use jz_investment_os.Base.Sort.{distinct_lists}
use jz_investment_os.Base.Decimal.{ℤ, pos, leb_ℤ}
use jz_investment_os.Enums.{Action, RiskGateState, DomainErrorCode, is_reduction}
use jz_investment_os.Lifecycle.Transition.{UtcTimestamp}

pub data RiskFlagKind : Type 0 where
  hard soft : RiskFlagKind

pub data RiskSeverity : Type 0 where
  low medium high critical : RiskSeverity

pub record RiskFlag : Type 0 where
  pub code : Text
  pub kind : RiskFlagKind
  pub severity : RiskSeverity
  pub evidence_ids : List ℕ
  pub release_condition : Text

-- `_require_text`
unfoldable pub require_text : Text → Outcome DomainErrorCode Text
require_text value =
    reject_if (is_blank value) DomainErrorCode.invariant_violation >> ok (strip value)

-- `RiskFlag.__post_init__`, on the record with the given fields.
unfoldable pub risk_flag : RiskFlag → Outcome DomainErrorCode RiskFlag
risk_flag f = do
  code ← require_text f.code
  release_condition ← require_text f.release_condition
  reject_if (is_empty f.evidence_ids || not (distinct f.evidence_ids))
      DomainErrorCode.invariant_violation
  ok (record f { code = code; release_condition = release_condition })

-- A Python `int` is a signed number.
pub record RiskAssessment : Type 0 where
  pub id : ℕ
  pub version : ℤ
  pub as_of : UtcTimestamp
  pub expires_at : UtcTimestamp
  pub flags : List RiskFlag

-- `RiskAssessment.__post_init__`, on the record with the given fields.
unfoldable pub risk_assessment : RiskAssessment → Outcome DomainErrorCode RiskAssessment
risk_assessment a = do
  reject_if (leb_ℤ a.version (pos 0)) DomainErrorCode.invariant_violation
  reject_if (leb a.expires_at a.as_of) DomainErrorCode.invariant_violation
  reject_if (not (distinct_lists (map (λ f. f.code) a.flags))) DomainErrorCode.invariant_violation
  ok a

abbrev pub is_hard : RiskFlag → Bool
is_hard f = elim f.kind [ RiskFlagKind.hard ↦ true | RiskFlagKind.soft ↦ false ]

-- `RiskAssessment.gate`
unfoldable pub gate : RiskAssessment → RiskGateState
gate a =
    if is_empty a.flags
    then RiskGateState.unknown
    else if any is_hard a.flags
    then RiskGateState.veto
    else RiskGateState.pass

abbrev pub is_pass : RiskGateState → Bool
is_pass RiskGateState.pass = true
is_pass _ = false

-- `RiskAssessment.permits_action`
unfoldable pub permits_action : RiskAssessment → Action → Bool
unfolding gate is_reduction
permits_action a action = is_pass (gate a) || is_reduction action

-- `RiskAssessment.is_active_at`
unfoldable pub is_active_at : RiskAssessment → UtcTimestamp → Bool
is_active_at a as_of = ltb as_of a.expires_at
