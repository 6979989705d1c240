-- ===== src/Base/Equality.antt =====
-- Boolean equality tests that agree with equality, and membership by such a test.
use mathlib.Core.Path.{◌≡◌, refl, ap, ◌∙◌}
use mathlib.Core.Logic.{◌↔◌, inl, inr}
use mathlib.Core.Bool.{Bool, true, not, ◌||◌}
use mathlib.Core.List.{List, [], ◌∷◌}
use native.Mathlib.Omega.{arith}
use jz_investment_os.Base.Tests.{Bool-cases}
use jz_investment_os.Base.Lists.{all, is_empty, select}
use jz_investment_os.Base.Sort.{eqb_list, eqb_list→eq, eqb_list_refl}
use jz_investment_os.Base.Order.{mem_by, minus, minus_empty_iff}

pub record IsEquality {A : Type 0} (eqb : A → A → Bool) : Type 0 where
  pub sound : (x y : A) → eqb x y ≡ true → x ≡ y
  pub same : (x : A) → eqb x x ≡ true

pub eqb_list-IsEquality : IsEquality eqb_list
eqb_list-IsEquality = record { sound = eqb_list→eq; same = eqb_list_refl }

pub is_empty-select_iff :
    {A : Type 0} (test : A → Bool) (xs : List A)
    → (is_empty (select test xs) ≡ true) ↔ (all (λ x. not (test x)) xs ≡ true)
is_empty-select_iff test [] = (λ h. refl, λ h. refl)
is_empty-select_iff test (x ∷ xs) = ground (arith, is_empty-select_iff test xs)

module _ {A : Type 0} {eqb : A → A → Bool} (law : IsEquality eqb) where
  pub all→mem :
      (test : A → Bool) (xs : List A)
      → all test xs ≡ true
      → (x : A) → mem_by eqb x xs ≡ true
      → test x ≡ true
  all→mem test [] h x m = cc
  all→mem test (y ∷ ys) h x m = elim (Bool-cases (eqb x y)) [
    | inl e ↦ ap test (law.sound x y e) ∙ ground arith
    | inr e ↦ all→mem test ys (ground arith) x (ground arith)
  ]

  pub mem→all :
      (test : A → Bool) (xs : List A)
      → ((x : A) → mem_by eqb x xs ≡ true → test x ≡ true)
      → all test xs ≡ true
  mem→all test [] h = refl
  mem→all test (y ∷ ys) h = rw (h y (rw (law.same y) refl)) (
      mem→all test ys
        (λ x m. h x (elim (Bool-cases (eqb x y)) [ inl e ↦ rw e refl | inr e ↦ rw e m ])))

  -- `set(xs)` has the elements of `xs`.
  pub mem-minus : (x : A) (xs : List A) → mem_by eqb x (minus eqb xs []) ≡ mem_by eqb x xs
  unfolding minus
  mem-minus x [] = refl
  mem-minus x (y ∷ ys) = elim (Bool-cases (mem_by eqb y (minus eqb ys []))) [
    | inl e ↦ elim (Bool-cases (eqb x y)) [
      | inl same ↦
          rw e (rw same (ap (λ z. mem_by eqb z (minus eqb ys [])) (law.sound x y same) ∙ e))
      | inr other ↦ rw e (rw other (mem-minus x ys))
    ]
    | inr e ↦ rw e (ap (λ b. eqb x y || b) (mem-minus x ys))
  ]

  -- Every element of the first list is in the second.
  pub within_iff :
      (xs ys : List A)
      → (is_empty (minus eqb xs ys) ≡ true)
        ↔ ((x : A) → mem_by eqb x xs ≡ true → mem_by eqb x ys ≡ true)
  within_iff xs ys = (
    λ h. all→mem _ xs ((minus_empty_iff eqb xs ys).0 h),
    λ h. (minus_empty_iff eqb xs ys).1 (mem→all _ xs h),
  )
