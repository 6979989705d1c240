-- ===== src/Base/Sort.antt =====
-- Python's `sorted` on numbers, and when a list is its own sorting.
use Prim.Native.Nat.{ℕ, ◌≤◌}
use mathlib.Core.Path.{◌≡◌, refl, sym, ap, ◌∙◌, subst}
use mathlib.Core.Logic.{◌↔◌, inl, inr}
use mathlib.Core.Bool.{Bool, true, false, ◌&&◌, ◌||◌}
use mathlib.Core.List.{List, [], ◌∷◌}
use native.Mathlib.Omega.{arith}
use jz_investment_os.Base.Lists.{is_empty, mem, distinct}
use jz_investment_os.Base.Tests.{leb, ◌==◌, if◌then◌else◌, Bool-cases}

unfoldable pub insert_sorted : ℕ → List ℕ → List ℕ
insert_sorted k [] = k ∷ []
insert_sorted k (j ∷ js) = let rest = insert_sorted k js in if leb k j then k ∷ j ∷ js else j ∷ rest

unfoldable pub sorted : List ℕ → List ℕ
unfolding insert_sorted
sorted [] = []
sorted (k ∷ ks) = insert_sorted k (sorted ks)

-- `xs == ys`
abbrev pub eqb_list : List ℕ → List ℕ → Bool
eqb_list [] [] = true
eqb_list (x ∷ xs) (y ∷ ys) = x == y && eqb_list xs ys
eqb_list _ _ = false

-- No element is below one that stands before it.
abbrev pub AllAbove : ℕ → List ℕ → Type 0
AllAbove k [] = Unit {0}
AllAbove k (j ∷ js) = (k ≤ j) × AllAbove k js

abbrev pub IsSorted : List ℕ → Type 0
IsSorted [] = Unit {0}
IsSorted (k ∷ ks) = AllAbove k ks × IsSorted ks

AllAbove-trans : (i k : ℕ) (ks : List ℕ) → i ≤ k → AllAbove k ks → AllAbove i ks
AllAbove-trans i k [] h a = tt
AllAbove-trans i k (j ∷ js) h a = (omega arith, AllAbove-trans i k js h a.1)

AllAbove-insert_sorted :
    (i k : ℕ) (ks : List ℕ) → i ≤ k → AllAbove i ks → AllAbove i (insert_sorted k ks)
unfolding insert_sorted
AllAbove-insert_sorted i k [] h a = (h, tt)
AllAbove-insert_sorted i k (j ∷ js) h a = ground (arith, AllAbove-insert_sorted i k js)

insert_sorted-IsSorted : (k : ℕ) (ks : List ℕ) → IsSorted ks → IsSorted (insert_sorted k ks)
unfolding insert_sorted
insert_sorted-IsSorted k [] h = (tt, tt)
insert_sorted-IsSorted k (j ∷ js) h = elim (Bool-cases (leb k j)) [
  | inl e ↦ rw e ((ground arith, AllAbove-trans k j js (ground arith) h.0), h)
  | inr e ↦ rw e (AllAbove-insert_sorted j k js (ground arith) h.0, insert_sorted-IsSorted k js h.1)
]

pub sorted-IsSorted : (ks : List ℕ) → IsSorted (sorted ks)
unfolding sorted
sorted-IsSorted [] = tt
sorted-IsSorted (k ∷ ks) = insert_sorted-IsSorted k (sorted ks) (sorted-IsSorted ks)

insert_sorted_below : (k : ℕ) (ks : List ℕ) → AllAbove k ks → insert_sorted k ks ≡ k ∷ ks
unfolding insert_sorted
insert_sorted_below k [] h = refl
insert_sorted_below k (j ∷ js) h = ground arith

pub sorted_fixed : (ks : List ℕ) → IsSorted ks → sorted ks ≡ ks
unfolding sorted
sorted_fixed [] h = refl
sorted_fixed (k ∷ ks) h = rw (sorted_fixed ks h.1) (insert_sorted_below k ks h.0)

pub eqb_list→eq : (xs ys : List ℕ) → eqb_list xs ys ≡ true → xs ≡ ys
eqb_list→eq [] [] h = refl
eqb_list→eq [] (y ∷ ys) h = cc
eqb_list→eq (x ∷ xs) [] h = cc
eqb_list→eq (x ∷ xs) (y ∷ ys) h = ground (arith, eqb_list→eq xs ys)

pub eqb_list_refl : (xs : List ℕ) → eqb_list xs xs ≡ true
eqb_list_refl [] = refl
eqb_list_refl (x ∷ xs) = ground (arith, eqb_list_refl xs)

-- The test `xs == sorted(xs)`.
pub sorted_test : (ks : List ℕ) → (eqb_list ks (sorted ks) ≡ true) ↔ IsSorted ks
sorted_test ks = (
  λ h. subst IsSorted (sym (eqb_list→eq ks (sorted ks) h)) (sorted-IsSorted ks),
  λ h. rw (sorted_fixed ks h) (eqb_list_refl ks),
)

-- Sorting keeps the elements.
mem-insert_sorted : (i k : ℕ) (ks : List ℕ) → mem i (insert_sorted k ks) ≡ (i == k || mem i ks)
unfolding insert_sorted
mem-insert_sorted i k [] = refl
mem-insert_sorted i k (j ∷ js) = ground (arith, mem-insert_sorted i k js)

pub mem-sorted : (i : ℕ) (ks : List ℕ) → mem i (sorted ks) ≡ mem i ks
unfolding sorted
mem-sorted i [] = refl
mem-sorted i (k ∷ ks) = mem-insert_sorted i k (sorted ks) ∙ ap (λ b. i == k || b) (mem-sorted i ks)

is_empty-insert_sorted : (k : ℕ) (ks : List ℕ) → is_empty (insert_sorted k ks) ≡ false
unfolding insert_sorted
is_empty-insert_sorted k [] = refl
is_empty-insert_sorted k (j ∷ js) = ground arith

distinct-insert_sorted :
    (k : ℕ) (ks : List ℕ)
    → distinct (insert_sorted k ks) ≡ ((if mem k ks then false else true) && distinct ks)
unfolding insert_sorted
distinct-insert_sorted k [] = refl
distinct-insert_sorted k (j ∷ js) =
    ground (arith, distinct-insert_sorted k js, mem-insert_sorted j k js)

pub is_empty-sorted : (ks : List ℕ) → is_empty (sorted ks) ≡ is_empty ks
unfolding sorted
is_empty-sorted [] = refl
is_empty-sorted (k ∷ ks) = is_empty-insert_sorted k (sorted ks)

pub distinct-sorted : (ks : List ℕ) → distinct (sorted ks) ≡ distinct ks
unfolding sorted
distinct-sorted [] = refl
distinct-sorted (k ∷ ks) =
    distinct-insert_sorted k (sorted ks)
    ∙ ap (λ b. (if b then false else true) && distinct (sorted ks)) (mem-sorted k ks)
    ∙ ap (λ b. (if mem k ks then false else true) && b) (distinct-sorted ks)

-- `text in texts` and `len(set(texts)) == len(texts)`, for texts as lists of code points.
abbrev pub mem_list : List ℕ → List (List ℕ) → Bool
mem_list k [] = false
mem_list k (j ∷ js) = eqb_list k j || mem_list k js

abbrev pub distinct_lists : List (List ℕ) → Bool
distinct_lists [] = true
distinct_lists (k ∷ ks) = (if mem_list k ks then false else true) && distinct_lists ks

pub eqb_list_sym : (xs ys : List ℕ) → eqb_list xs ys ≡ eqb_list ys xs
eqb_list_sym [] [] = refl
eqb_list_sym [] (y ∷ ys) = refl
eqb_list_sym (x ∷ xs) [] = refl
eqb_list_sym (x ∷ xs) (y ∷ ys) = ground (arith, eqb_list_sym xs ys)
