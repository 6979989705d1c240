-- ===== src/Portfolio/Minimum.antt =====
-- The least of a list of decimals, as the built-in `min` finds it.
use jz_investment_os.Base.{
  ◌≡◌, ◌⊎◌, inl, inr, List, [], ◌∷◌, map, All, Any, Bool-cases, ltb→lt, arith, ap, ◌∙◌,
}
use jz_investment_os.Base.Decimal.{Decimal, ◌≤ℤ◌, min_ℤ, ltb_ℤ}
use jz_investment_os.Portfolio.{min_from}

pub min_cases : (x y : Decimal) → ((min_ℤ x y ≡ x) × (x ≤ℤ y)) ⊎ ((min_ℤ x y ≡ y) × (y ≤ℤ x))
min_cases x y = elim (Bool-cases (ltb_ℤ y x)) [
  | inl e ↦ inr (rw e, (let q = ltb→lt _ _ e in omega (arith, q)))
  | inr e ↦ inl (rw e, ground arith)
]

pub ≤ℤ-trans : (a b c : Decimal) → a ≤ℤ b → b ≤ℤ c → a ≤ℤ c
≤ℤ-trans a b c p q = omega arith

module _ {A : Type 0} (f : A → Decimal) where
  -- The least value is below every value of the list.
  pub min_from_le :
      (v x : Decimal) (ys : List A) → v ≡ min_from x (map f ys) → (v ≤ℤ x) × All (λ y. v ≤ℤ f y) ys
  min_from_le v x [] h = (rw h (omega arith), tt)
  min_from_le v x (y ∷ ys) h = elim (min_cases x (f y)) [
    | inl (e, le) ↦
        let (low, rest) = min_from_le v x ys (h ∙ ap (λ m. min_from m (map f ys)) e) in
        (low, (≤ℤ-trans v x (f y) low le, rest))
    | inr (e, le) ↦
        let (low, rest) = min_from_le v (f y) ys (h ∙ ap (λ m. min_from m (map f ys)) e) in
        (≤ℤ-trans v (f y) x low le, (low, rest))
  ]

  -- The least value is one of them.
  pub min_from_mem :
      (v x : Decimal) (ys : List A) → v ≡ min_from x (map f ys) → (v ≡ x) ⊎ Any (λ y. v ≡ f y) ys
  min_from_mem v x [] h = inl h
  min_from_mem v x (y ∷ ys) h = elim (min_cases x (f y)) [
    | inl (e, le) ↦ elim (min_from_mem v x ys (h ∙ ap (λ m. min_from m (map f ys)) e)) [
      | inl q ↦ inl q
      | inr q ↦ inr (inr q)
    ]
    | inr (e, le) ↦ inr (min_from_mem v (f y) ys (h ∙ ap (λ m. min_from m (map f ys)) e))
  ]
