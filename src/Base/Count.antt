-- ===== src/Base/Count.antt =====
-- How many elements of a list pass a test, whatever their order.
use Prim.Native.Nat.{ℕ, ◌+◌}
use mathlib.Core.Path.{◌≡◌, refl, ap, ◌∙◌}
use mathlib.Core.Logic.{inl, inr}
use mathlib.Core.Bool.{Bool, ◌&&◌}
use mathlib.Core.List.{List, [], ◌∷◌, ◌++◌, map}
use native.Mathlib.Omega.{arith}
use jz_investment_os.Base.Tests.{if◌then◌else◌, Bool-cases}
use jz_investment_os.Base.Lists.{select}
use jz_investment_os.Base.Order.{insert_by, sort_by}

-- `sum(weight(x) for x in xs)`
abbrev pub total : {A : Type 0} → (A → ℕ) → List A → ℕ
total weight [] = 0
total weight (x ∷ xs) = weight x + total weight xs

-- `sum(1 for x in xs if test(x))`
abbrev pub count : {A : Type 0} → (A → Bool) → List A → ℕ
count test [] = 0
count test (x ∷ xs) = (if test x then 1 else 0) + count test xs

module _ {A : Type 0} where
  pub total_ext : (f g : A → ℕ) → ((x : A) → f x ≡ g x) → (xs : List A) → total f xs ≡ total g xs
  total_ext f g h [] = refl
  total_ext f g h (x ∷ xs) = omega (arith, h x, total_ext f g h xs)

  total-insert_by :
      (leb : A → A → Bool) (f : A → ℕ) (x : A) (xs : List A)
      → total f (insert_by leb x xs) ≡ f x + total f xs
  unfolding insert_by
  total-insert_by leb f x [] = refl
  total-insert_by leb f x (y ∷ ys) = elim (Bool-cases (leb x y)) [
    | inl e ↦ rw e refl
    | inr e ↦ rw e (omega (arith, total-insert_by leb f x ys))
  ]

  pub total-sort_by :
      (leb : A → A → Bool) (f : A → ℕ) (xs : List A) → total f (sort_by leb xs) ≡ total f xs
  unfolding sort_by
  total-sort_by leb f [] = refl
  total-sort_by leb f (x ∷ xs) =
      total-insert_by leb f x (sort_by leb xs) ∙ ap (λ n. f x + n) (total-sort_by leb f xs)

  pub total-select :
      (test : A → Bool) (f : A → ℕ) (xs : List A)
      → total f (select test xs) ≡ total (λ x. if test x then f x else 0) xs
  total-select test f [] = refl
  total-select test f (x ∷ xs) = elim (Bool-cases (test x)) [
    | inl e ↦ rw e (ap (λ n. f x + n) (total-select test f xs))
    | inr e ↦ rw e (omega (arith, total-select test f xs))
  ]

  count-insert_by :
      (leb : A → A → Bool) (test : A → Bool) (x : A) (xs : List A)
      → count test (insert_by leb x xs) ≡ (if test x then 1 else 0) + count test xs
  unfolding insert_by
  count-insert_by leb test x [] = refl
  count-insert_by leb test x (y ∷ ys) = elim (Bool-cases (leb x y)) [
    | inl e ↦ rw e refl
    | inr e ↦ rw e (omega (arith, count-insert_by leb test x ys))
  ]

  pub count-sort_by :
      (leb : A → A → Bool) (test : A → Bool) (xs : List A)
      → count test (sort_by leb xs) ≡ count test xs
  unfolding sort_by
  count-sort_by leb test [] = refl
  count-sort_by leb test (x ∷ xs) =
      count-insert_by leb test x (sort_by leb xs)
      ∙ ap (λ n. (if test x then 1 else 0) + n) (count-sort_by leb test xs)

  -- The elements of a selection under a function, in front of a list.
  pub count-map-select :
      {B : Type 0} (chosen : A → Bool) (f : A → B) (test : B → Bool) (rest : List B) (xs : List A)
      → count test (map f (select chosen xs) ++ rest)
        ≡ count (λ x. chosen x && test (f x)) xs + count test rest
  count-map-select chosen f test rest [] = omega arith
  count-map-select chosen f test rest (x ∷ xs) = elim (Bool-cases (chosen x)) [
    | inl e ↦ rw e (omega (arith, count-map-select chosen f test rest xs))
    | inr e ↦ rw e (omega (arith, count-map-select chosen f test rest xs))
  ]

  pub count-map :
      {B : Type 0} (f : A → B) (test : B → Bool) (xs : List A)
      → count test (map f xs) ≡ count (λ x. test (f x)) xs
  count-map f test [] = refl
  count-map f test (x ∷ xs) = ap (λ n. (if test (f x) then 1 else 0) + n) (count-map f test xs)
