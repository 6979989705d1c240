-- ===== src/Lifecycle/Machine.antt =====
-- Sequences of transitions of one machine of src/investment_os/domain/state_machines.py: each call
-- starts from the state that the one before reached, and the first refusal ends the sequence.
use jz_investment_os.Base.{
  ℕ, ◌+◌, ◌≤◌, ◌<◌, ◌≡◌, inl, inr, Bool, true, false, List, [], ◌∷◌, Outcome, ok, ◌>>=◌, >>=-eq-ok,
  arith, length, Any, Bool-cases,
}
use jz_investment_os.Base.Text.{Text}
use jz_investment_os.Enums.{DomainErrorCode}
use jz_investment_os.Lifecycle.Transition.{UtcTimestamp}

-- The arguments of one call, apart from the current state.
pub record Request (S C : Type 0) : Type 0 where
  pub target : S
  pub context : C
  pub reason_codes : List Text
  pub occurred_at : UtcTimestamp

module _ {S C : Type 0} (step : S → Request S C → Outcome DomainErrorCode S) where
  unfoldable pub run : S → List (Request S C) → Outcome DomainErrorCode S
  run s [] = ok s
  run s (r ∷ rs) = step s r >>= λ t. run t rs

  pub run_step :
      (s : S) (r : Request S C) (rs : List (Request S C)) {u : S}
      → run s (r ∷ rs) ≡ ok u
      → (t : S) × (step s r ≡ ok t) × (run t rs ≡ ok u)
  unfolding run
  run_step s r rs h = >>=-eq-ok (step s r) (λ t. run t rs) h

  -- Whoever is outside a set of states and ends inside it made a step across its border.
  pub run_crossing :
      (inside : S → Bool) (P : Request S C → Type 0)
      → ((s : S) (r : Request S C) (t : S)
          → step s r ≡ ok t
          → inside s ≡ false
          → inside t ≡ true
          → P r)
      → (rs : List (Request S C)) (s u : S) → run s rs ≡ ok u
      → inside s ≡ false
      → inside u ≡ true
      → Any P rs
  unfolding run
  run_crossing inside P cross [] s u h o i = cc
  run_crossing inside P cross (r ∷ rs) s u h o i =
      let (t, e, f) = run_step s r rs h in
      elim (Bool-cases (inside t)) [
        | inl enters ↦ inl (cross s r t e o enters)
        | inr stays ↦ inr (run_crossing inside P cross rs t u f stays i)
      ]

  -- Where every step climbs, a sequence is no longer than the climb.
  pub run_climb :
      (rank : S → ℕ)
      → ((s : S) (r : Request S C) (t : S) → step s r ≡ ok t → rank s < rank t)
      → (rs : List (Request S C)) (s u : S) → run s rs ≡ ok u
      → rank s + length rs ≤ rank u
  unfolding run
  run_climb rank climb [] s u h = let e : s ≡ u = cc in rw e (omega arith)
  run_climb rank climb (r ∷ rs) s u h =
      let (t, e, f) = run_step s r rs h in
      omega (arith, climb s r t e, run_climb rank climb rs t u f)
