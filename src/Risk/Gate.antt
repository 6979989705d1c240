-- ===== src/Risk/Gate.antt =====
-- `RiskAssessment.gate` and `permits_action` of src/investment_os/domain/risk.py by the flags.
use jz_investment_os.Base.{
  ◌≡◌, ◌≢◌, ◌↔◌, ◌⊎◌, refl, true, false, List, [], ◌∷◌, arith, any, All, Any, is_empty,
  if◌then◌else◌,
}
use jz_investment_os.Enums.{Action, RiskGateState, is_reduction}
use jz_investment_os.Risk.{RiskFlag, RiskFlagKind, RiskAssessment, is_hard, gate, permits_action}

any_hard : (fs : List RiskFlag) → (any is_hard fs ≡ true) ↔ Any (λ f. f.kind ≡ RiskFlagKind.hard) fs
any_hard [] = (λ h. cc, λ h. absurd h)
any_hard (f ∷ fs) =
    let (to, from) = any_hard fs in (λ h. ground (arith, to), λ h. ground (arith, from))

none_hard :
    (fs : List RiskFlag) → (any is_hard fs ≡ false) ↔ All (λ f. f.kind ≡ RiskFlagKind.soft) fs
none_hard [] = (λ h. tt, λ h. refl)
none_hard (f ∷ fs) =
    let (to, from) = none_hard fs in (λ h. ground (arith, to), λ h. ground (arith, from))

-- The flags of an assessment that lets risk grow: there are some, and all are soft.
abbrev pub OnlySoft : List RiskFlag → Type 0
OnlySoft flags = (flags ≢ []) × All (λ f. f.kind ≡ RiskFlagKind.soft) flags

-- The gate, over the flags alone.
gate_of : List RiskFlag → RiskGateState
gate_of flags =
    if is_empty flags
    then RiskGateState.unknown
    else if any is_hard flags
    then RiskGateState.veto
    else RiskGateState.pass

abbrev GateMeans : RiskGateState → List RiskFlag → Type 0
GateMeans g fs =
    ((g ≡ RiskGateState.veto) ↔ Any (λ f. f.kind ≡ RiskFlagKind.hard) fs)
    × ((g ≡ RiskGateState.pass) ↔ OnlySoft fs)
    × ((g ≡ RiskGateState.unknown) ↔ (fs ≡ []))

gate_of_means : (fs : List RiskFlag) → GateMeans (gate_of fs) fs
unfolding gate_of
gate_of_means [] =
    ((λ h. cc, λ h. absurd h), (λ h. cc, λ h. absurd (h.0 refl)), (λ h. refl, λ h. refl))
gate_of_means (f ∷ fs) =
    let (hard_to, hard_from) = any_hard (f ∷ fs) in
    let (soft_to, soft_from) = none_hard (f ∷ fs) in
    (
      (λ h. hard_to (ground arith), λ h. rw (hard_from h)),
      (λ h. (λ e. cc, soft_to (ground arith)), λ h. rw (soft_from h.1)),
      (λ h. ground arith, λ h. cc),
    )

-- The gate is VETO exactly if some flag is HARD, PASS exactly if there are flags and all of them
-- are SOFT, and UNKNOWN exactly if there is no flag.
gate_iff :
    (a : RiskAssessment)
    → ((gate a ≡ RiskGateState.veto) ↔ Any (λ f. f.kind ≡ RiskFlagKind.hard) a.flags)
      × ((gate a ≡ RiskGateState.pass) ↔ OnlySoft a.flags)
      × ((gate a ≡ RiskGateState.unknown) ↔ (a.flags ≡ []))
unfolding gate gate_of
gate_iff a = gate_of_means a.flags

-- An assessment permits an action exactly if the action reduces risk (REDUCE or EXIT) or there are
-- flags and all of them are SOFT: neither a HARD flag nor the lack of flags blocks a reduction, and
-- both block every other action.
pub permits_action_iff :
    (a : RiskAssessment) (x : Action)
    → (permits_action a x ≡ true) ↔ (OnlySoft a.flags ⊎ (is_reduction x ≡ true))
unfolding permits_action
permits_action_iff a x =
    let (veto, pass, unknown) = gate_iff a in
    (λ h. ground (arith, pass.0), λ h. ground (arith, pass.1))
