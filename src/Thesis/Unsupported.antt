-- ===== src/Thesis/Unsupported.antt =====
-- The conditions that `evaluate_invalidation` of src/investment_os/application/thesis.py cannot
-- evaluate: a condition is not among the supported ones exactly if it is not supported itself.
use jz_investment_os.Base.{
  ◌≡◌, refl, sym, ap, ◌∙◌, Bool, true, false, not, ◌||◌, List, [], ◌∷◌, arith, select, All, All-map,
  if◌then◌else◌, Bool-cases, inl, inr,
}
use jz_investment_os.Base.Order.{mem_by}
use jz_investment_os.Base.Equality.{IsEquality}
use jz_investment_os.Thesis.{ThesisContent}
use jz_investment_os.Thesis.Same.{eqb_condition-IsEquality}
use jz_investment_os.Thesis.Monitor.{Numerals, is_single, unsupported_conditions}

module _ {A : Type 0} {eqb : A → A → Bool} (equality : IsEquality eqb) (test : A → Bool) where
  -- Equal elements pass the same tests.
  stays_out : (x : A) (xs : List A) → test x ≡ false → mem_by eqb x (select test xs) ≡ false
  stays_out x [] h = refl
  stays_out x (y ∷ ys) h = elim (Bool-cases (test y)) [
    | inl e ↦ elim (Bool-cases (eqb x y)) [
      | inl same ↦
          let equal : x ≡ y = equality.sound x y same in
          let passes : test x ≡ true = rw equal e in cc (h, passes)
      | inr other ↦ rw e (rw other (stays_out x ys h))
    ]
    | inr e ↦ rw e (stays_out x ys h)
  ]

  stays_in : (x : A) (xs : List A) → test x ≡ true → mem_by eqb x (select test xs) ≡ mem_by eqb x xs
  stays_in x [] h = refl
  stays_in x (y ∷ ys) h = elim (Bool-cases (test y)) [
    | inl e ↦ rw e (ap (λ b. eqb x y || b) (stays_in x ys h))
    | inr e ↦ elim (Bool-cases (eqb x y)) [
      | inl same ↦
          let equal : x ≡ y = equality.sound x y same in
          let passes : test y ≡ true = rw (sym equal) h in cc (e, passes)
      | inr other ↦ rw e (rw other (stays_in x ys h))
    ]
  ]

  or_true : (a b : Bool) → b ≡ true → (a || b) ≡ true
  or_true a b h = ground arith

  members : (xs : List A) → All (λ x. mem_by eqb x xs ≡ true) xs
  members [] = tt
  members (x ∷ xs) = (
    rw (equality.same x) refl,
    All-map (λ z. mem_by eqb z xs ≡ true) (λ z. mem_by eqb z (x ∷ xs) ≡ true)
        (λ z h. or_true (eqb z x) (mem_by eqb z xs) h) xs (members xs),
  )

  mem-select :
      (x : A) (ys : List A) → mem_by eqb x ys ≡ true → mem_by eqb x (select test ys) ≡ test x
  mem-select x ys m = elim (Bool-cases (test x)) [
    | inl e ↦ stays_in x ys e ∙ m ∙ sym e
    | inr e ↦ stays_out x ys e ∙ sym e
  ]

  select-not_mem :
      (ys xs : List A)
      → All (λ x. mem_by eqb x ys ≡ true) xs
      → select (λ x. not (mem_by eqb x (select test ys))) xs ≡ select (λ x. not (test x)) xs
  select-not_mem ys [] h = refl
  select-not_mem ys (x ∷ xs) h =
      rw (mem-select x ys (h.0))
        (ap (λ rest. if not (test x) then x ∷ rest else rest) (select-not_mem ys xs h.1))

-- What is reported as unsupported are the conditions of another window, in the content's order.
pub unsupported_conditions_lem :
    (numerals : Numerals) (content : ThesisContent)
    → unsupported_conditions numerals content
      ≡ select (λ c. not (is_single numerals c)) content.invalidation_conditions
unsupported_conditions_lem numerals content =
    select-not_mem eqb_condition-IsEquality (is_single numerals) content.invalidation_conditions
      content.invalidation_conditions
      (members eqb_condition-IsEquality (is_single numerals) content.invalidation_conditions)
