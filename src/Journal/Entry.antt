-- ===== src/Journal/Entry.antt =====
-- `InvestmentDecision.__post_init__` of src/investment_os/domain/decision.py: accepted Decisions.
use jz_investment_os.Base.{
  ◌≡◌, ◌≢◌, ◌↔◌, ◌⊎◌, inl, inr, subst, true, false, not, List, [], ◌∷◌, ok, arith, All, any,
  is_empty, length, Bool-cases, >>=-eq-ok, reject_if-eq-ok,
}
use jz_investment_os.Base.Text.{Text}
use jz_investment_os.Base.Decimal.{pos, ltb_ℤ, ◌≤ℤ◌}
use jz_investment_os.Enums.{Action, BucketAction, is_increase, is_reduction}
use jz_investment_os.Journal.{
  InvestmentDecision, decision_text, text_items, is_hexdigit, validate_hash, is_passive, increases,
  reduces, validate_bucket_actions, investment_decision,
}

-- What the actions on the two buckets may be, for an action on the whole position.
pub record ActionsFit (action : Action) (core tactical : BucketAction) : Type 0 where
  pub passive :
      is_passive action ≡ true → (core ≡ BucketAction.none) × (tactical ≡ BucketAction.none)
  pub increase : is_increase action ≡ true → (increases core ≡ true) ⊎ (increases tactical ≡ true)
  pub reduction : is_reduction action ≡ true → (reduces core ≡ true) ⊎ (reduces tactical ≡ true)

-- The bucket actions of a Decision are accepted exactly if WATCH and AVOID come with none, BUY and
-- ADD with an increase of a bucket, and REDUCE and EXIT with a reduction of one.
validate_bucket_actions_iff :
    (a : Action) (c t : BucketAction) → (validate_bucket_actions a c t ≡ ok tt) ↔ ActionsFit a c t
unfolding validate_bucket_actions is_increase is_reduction
validate_bucket_actions_iff a c t = (λ h. ground arith, λ h. ground arith)

-- 64 hexadecimal digits.
abbrev pub IsDigest : Text → Type 0
IsDigest value = (length value ≡ 64) × All (λ c. is_hexdigit c ≡ true) value

hexdigits-All :
    (cs : Text) → any (λ c. not (is_hexdigit c)) cs ≡ false → All (λ c. is_hexdigit c ≡ true) cs
hexdigits-All [] h = tt
hexdigits-All (c ∷ cs) h = elim (Bool-cases (is_hexdigit c)) [
  | inl e ↦ (e, hexdigits-All cs (ground (arith, h, e)))
  | inr e ↦ absurd (ground (arith, h, e))
]

validate_hash-IsDigest : (v : Text) {u : Unit {0}} → validate_hash v ≡ ok u → IsDigest v
unfolding validate_hash
validate_hash-IsDigest v h = elim (Bool-cases (any (λ c. not (is_hexdigit c)) v)) [
  | inl e ↦ absurd (ground (arith, h, e))
  | inr e ↦ (ground (arith, h, e), hexdigits-All v e)
]

decision_text-eq-ok : (v : Text) {t : Text} → decision_text v ≡ ok t → t ≢ []
unfolding decision_text
decision_text-eq-ok v h = λ e. ground (arith, h, e)

text_items-All : (vs ts : List Text) → text_items vs ≡ ok ts → All (λ t. t ≢ []) ts
unfolding text_items
text_items-All [] ts h = subst (All (λ t. t ≢ [])) {x = []} (cc h) tt
text_items-All (v ∷ vs) ts h =
    let (t, made, rest) = >>=-eq-ok (decision_text v) _ h in
    let (us, mades, last) = >>=-eq-ok (text_items vs) _ rest in
    subst (All (λ t. t ≢ [])) {x = t ∷ us} (cc last)
      (decision_text-eq-ok v made, text_items-All vs us mades)

-- What the journal holds of a Decision.
pub record IsJournaled (d : InvestmentDecision) : Type 0 where
  pub versioned : pos 1 ≤ℤ d.version
  pub reasoned : d.reasons ≢ []
  pub watch_stated : All (λ t. t ≢ []) d.watch_conditions
  pub invalidation_stated : All (λ t. t ≢ []) d.invalidation_conditions
  pub unknowns_stated : All (λ t. t ≢ []) d.unknowns
  pub dissent_stated : All (λ t. t ≢ []) d.dissent
  pub prompts : d.prompt_bundle_version ≢ []
  pub formula : d.formula_version ≢ []
  pub digest : IsDigest d.input_snapshot_hash
  pub actions : ActionsFit d.action d.core_action d.tactical_action

-- Every Decision that is accepted has a positive version, a reason, conditions, unknowns and dissent
-- of which none is empty, the versions of its prompts and formula, a digest of 64 hexadecimal
-- digits, and bucket actions that fit its action.
pub investment_decision-IsJournaled :
    (d y : InvestmentDecision) → investment_decision d ≡ ok y → IsJournaled y
unfolding investment_decision
investment_decision-IsJournaled d y h =
    let (v, h1) = reject_if-eq-ok (ltb_ℤ d.version (pos 1)) _ _ h in
    let (r, h2) = reject_if-eq-ok (is_empty d.reasons) _ _ h1 in
    let (ws, w, h3) = >>=-eq-ok (text_items d.watch_conditions) _ h2 in
    let (js, i, h4) = >>=-eq-ok (text_items d.invalidation_conditions) _ h3 in
    let (us, u, h5) = >>=-eq-ok (text_items d.unknowns) _ h4 in
    let (ds, s, h6) = >>=-eq-ok (text_items d.dissent) _ h5 in
    let (p, pm, h7) = >>=-eq-ok (decision_text d.prompt_bundle_version) _ h6 in
    let (f, fm, h8) = >>=-eq-ok (decision_text d.formula_version) _ h7 in
    let (_, digest, h9) = >>=-eq-ok (validate_hash d.input_snapshot_hash) _ h8 in
    let (_, acts, h10) =
      >>=-eq-ok (validate_bucket_actions d.action d.core_action d.tactical_action) _ h9 in
    let made : IsJournaled (record d {
      watch_conditions = ws;
      invalidation_conditions = js;
      unknowns = us;
      dissent = ds;
      prompt_bundle_version = p;
      formula_version = f;
    }) =
      record {
        versioned = ground (arith, v);
        reasoned = λ e. ground (arith, r, e);
        watch_stated = text_items-All d.watch_conditions ws w;
        invalidation_stated = text_items-All d.invalidation_conditions js i;
        unknowns_stated = text_items-All d.unknowns us u;
        dissent_stated = text_items-All d.dissent ds s;
        prompts = decision_text-eq-ok d.prompt_bundle_version pm;
        formula = decision_text-eq-ok d.formula_version fm;
        digest = validate_hash-IsDigest d.input_snapshot_hash digest;
        actions = (validate_bucket_actions_iff d.action d.core_action d.tactical_action).0 acts;
      } in
    subst IsJournaled (cc h10) made
