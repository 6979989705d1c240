-- ===== src/Base/Order.antt =====
-- Python's `sorted` with a key and its sets, on lists: an order and an equality are Boolean tests.
use Prim.Native.Nat.{ℕ}
use mathlib.Core.Path.{◌≡◌, refl, ap, ◌∙◌}
use mathlib.Core.Logic.{◌↔◌, inl, inr}
use mathlib.Core.Bool.{Bool, true, false, ◌&&◌, ◌||◌}
use mathlib.Core.List.{List, [], ◌∷◌}
use native.Mathlib.Omega.{arith}
use jz_investment_os.Base.Tests.{ltb, ◌==◌, if◌then◌else◌, Bool-cases}
use jz_investment_os.Base.Lists.{All, all, any, is_empty}
use jz_investment_os.Base.Sort.{eqb_list}

-- Texts are compared by code points, and tuples of texts one after the other.
abbrev pub leb_text : List ℕ → List ℕ → Bool
leb_text [] ys = true
leb_text (x ∷ xs) [] = false
leb_text (x ∷ xs) (y ∷ ys) = ltb x y || x == y && leb_text xs ys

abbrev pub leb_texts : List (List ℕ) → List (List ℕ) → Bool
leb_texts [] ys = true
leb_texts (x ∷ xs) [] = false
leb_texts (x ∷ xs) (y ∷ ys) = if eqb_list x y then leb_texts xs ys else leb_text x y

module _ {A : Type 0} where
  -- `sorted(xs, key=key)`, where `leb x y` compares the keys; equal keys keep their order.
  unfoldable pub insert_by : (A → A → Bool) → A → List A → List A
  insert_by leb x [] = x ∷ []
  insert_by leb x (y ∷ ys) =
      let rest = insert_by leb x ys in if leb x y then x ∷ y ∷ ys else y ∷ rest

  unfoldable pub sort_by : (A → A → Bool) → List A → List A
  sort_by leb [] = []
  sort_by leb (x ∷ xs) = insert_by leb x (sort_by leb xs)

  -- `x in xs`
  abbrev pub mem_by : (A → A → Bool) → A → List A → Bool
  mem_by eqb x xs = any (eqb x) xs

  -- `frozenset(xs) - frozenset(ys)`, each element once.
  unfoldable pub minus : (A → A → Bool) → List A → List A → List A
  minus eqb [] ys = []
  minus eqb (x ∷ xs) ys =
      let rest = minus eqb xs ys in if mem_by eqb x ys || mem_by eqb x rest then rest else x ∷ rest

  -- `len(set(xs)) == len(xs)`
  abbrev pub distinct_by : (A → A → Bool) → List A → Bool
  distinct_by eqb [] = true
  distinct_by eqb (x ∷ xs) = (if mem_by eqb x xs then false else true) && distinct_by eqb xs

  -- Sorting keeps the elements.
  module _ (leb : A → A → Bool) where
    is_empty-insert_by : (x : A) (xs : List A) → is_empty (insert_by leb x xs) ≡ false
    unfolding insert_by
    is_empty-insert_by x [] = refl
    is_empty-insert_by x (y ∷ ys) = ground arith

    pub is_empty-sort_by : (xs : List A) → is_empty (sort_by leb xs) ≡ is_empty xs
    unfolding sort_by
    is_empty-sort_by [] = refl
    is_empty-sort_by (x ∷ xs) = is_empty-insert_by x (sort_by leb xs)

    mem_by-insert_by :
        (eqb : A → A → Bool) (z x : A) (xs : List A)
        → mem_by eqb z (insert_by leb x xs) ≡ (eqb z x || mem_by eqb z xs)
    unfolding insert_by
    mem_by-insert_by eqb z x [] = refl
    mem_by-insert_by eqb z x (y ∷ ys) = ground (arith, mem_by-insert_by eqb z x ys)

    pub mem_by-sort_by :
        (eqb : A → A → Bool) (z : A) (xs : List A) → mem_by eqb z (sort_by leb xs) ≡ mem_by eqb z xs
    unfolding sort_by
    mem_by-sort_by eqb z [] = refl
    mem_by-sort_by eqb z (x ∷ xs) =
        mem_by-insert_by eqb z x (sort_by leb xs) ∙ ap (λ b. eqb z x || b) (mem_by-sort_by eqb z xs)

    all-insert_by :
        (test : A → Bool) (x : A) (xs : List A)
        → all test (insert_by leb x xs) ≡ (test x && all test xs)
    unfolding insert_by
    all-insert_by test x [] = refl
    all-insert_by test x (y ∷ ys) = ground (arith, all-insert_by test x ys)

    pub all-sort_by : (test : A → Bool) (xs : List A) → all test (sort_by leb xs) ≡ all test xs
    unfolding sort_by
    all-sort_by test [] = refl
    all-sort_by test (x ∷ xs) =
        all-insert_by test x (sort_by leb xs) ∙ ap (λ b. test x && b) (all-sort_by test xs)

  module _ (leb : A → A → Bool) (P : A → Type 0) where
    All-insert_by : (x : A) (xs : List A) → P x → All P xs → All P (insert_by leb x xs)
    unfolding insert_by
    All-insert_by x [] p h = (p, tt)
    All-insert_by x (y ∷ ys) p h = elim (Bool-cases (leb x y)) [
      | inl e ↦ rw e (p, h)
      | inr e ↦ rw e (h.0, All-insert_by x ys p h.1)
    ]

    pub All-sort_by : (xs : List A) → All P xs → All P (sort_by leb xs)
    unfolding sort_by
    All-sort_by [] h = tt
    All-sort_by (x ∷ xs) h = All-insert_by x (sort_by leb xs) h.0 (All-sort_by xs h.1)

  -- A difference of sets is empty when every element of the first is in the second.
  pub minus_empty_iff :
      (eqb : A → A → Bool) (xs ys : List A)
      → (is_empty (minus eqb xs ys) ≡ true) ↔ (all (λ x. mem_by eqb x ys) xs ≡ true)
  unfolding minus
  minus_empty_iff eqb [] ys = (λ h. refl, λ h. refl)
  minus_empty_iff eqb (x ∷ xs) ys = ground (arith, minus_empty_iff eqb xs ys)

  -- Sorting keeps a list free of repetitions.
  module _ (eqb : A → A → Bool) (eqb_sym : (x y : A) → eqb x y ≡ eqb y x) where
    distinct_by-insert_by :
        (leb : A → A → Bool) (x : A) (xs : List A)
        → distinct_by eqb (insert_by leb x xs) ≡ distinct_by eqb (x ∷ xs)
    unfolding insert_by
    distinct_by-insert_by leb x [] = refl
    distinct_by-insert_by leb x (y ∷ ys) =
        ground (arith, distinct_by-insert_by leb x ys, mem_by-insert_by leb eqb y x ys, eqb_sym x y)

    pub distinct_by-sort_by :
        (leb : A → A → Bool) (xs : List A) → distinct_by eqb (sort_by leb xs) ≡ distinct_by eqb xs
    unfolding sort_by
    distinct_by-sort_by leb [] = refl
    distinct_by-sort_by leb (x ∷ xs) = ground (
      arith,
      distinct_by-insert_by leb x (sort_by leb xs),
      distinct_by-sort_by leb xs,
      mem_by-sort_by leb eqb x xs,
    )
