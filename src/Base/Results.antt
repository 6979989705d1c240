-- ===== src/Base/Results.antt =====
-- A Python call that returns or raises: `err` carries what was raised.
use mathlib.Core.Path.{◌≡◌, refl}
use mathlib.Core.Bool.{Bool, true, false}
use mathlib.Core.List.{List, [], ◌∷◌, map}
use native.Mathlib.Omega.{arith}
use jz_investment_os.Base.Lists.{All}

pub data Outcome (E A : Type 0) : Type 0 where
  err : E → Outcome E A
  ok : A → Outcome E A

-- `if condition: raise e`
abbrev pub reject_if : {E : Type 0} → Bool → E → Outcome E (Unit {0})
reject_if false e = ok tt
reject_if true e = err e

-- `if not condition: raise e`
abbrev pub ensure : {E : Type 0} → Bool → E → Outcome E (Unit {0})
ensure false e = err e
ensure true e = ok tt

module _ {E A B : Type 0} where
  infixl 5 ◌>>=◌ ◌>>◌
  -- What was raised is passed on, and what was returned goes to the rest of the code.
  abbrev pub ◌>>=◌ : Outcome E A → (A → Outcome E B) → Outcome E B
  err raised >>= rest = err raised
  ok returned >>= rest = rest returned

  abbrev pub ◌>>◌ : Outcome E A → Outcome E B → Outcome E B
  first >> rest = first >>= λ _. rest

-- What was returned, with a value in the place of what was raised.
abbrev pub returned_or : {E A : Type 0} → A → Outcome E A → A
returned_or a (err e) = a
returned_or a (ok b) = b

-- `tuple(f(x) for x in xs)`: the first element for which `f` raises ends the loop.
abbrev pub traverse : {E A B : Type 0} → (A → Outcome E B) → List A → Outcome E (List B)
traverse f [] = ok []
traverse f (x ∷ xs) = f x >>= λ y. traverse f xs >>= λ ys. ok (y ∷ ys)

-- A check that passed, and what came of the rest.
module _ {E A : Type 0} (test : Bool) (e : E) (rest : Outcome E A) where
  pub ensure-eq-ok : {y : A} → (ensure test e >> rest) ≡ ok y → (test ≡ true) × (rest ≡ ok y)
  ensure-eq-ok h = ground arith

  pub reject_if-eq-ok : {y : A} → (reject_if test e >> rest) ≡ ok y → (test ≡ false) × (rest ≡ ok y)
  reject_if-eq-ok h = ground arith

-- A chain that returned: its first part did, and so did the rest with that value.
module _ {E A B : Type 0} where
  pub >>=-eq-ok :
      (first : Outcome E A) (rest : A → Outcome E B) {returned : B}
      → (first >>= rest) ≡ ok returned
      → (a : A) × (first ≡ ok a) × (rest a ≡ ok returned)
  >>=-eq-ok (err raised) rest h = cc
  >>=-eq-ok (ok a) rest h = (a, refl, h)

module _ {E A B C : Type 0} where
  -- Reading back what was written element by element.
  pub traverse-map :
      (read : B → Outcome E C) (write : A → B) (as_read : A → C) (xs : List A)
      → All (λ x. read (write x) ≡ ok (as_read x)) xs
      → traverse read (map write xs) ≡ ok (map as_read xs)
  traverse-map read write as_read [] h = refl
  traverse-map read write as_read (x ∷ xs) h =
      rw h.0 (rw (traverse-map read write as_read xs h.1) refl)

module _ {E A : Type 0} (f : A → Outcome E A) where
  pub traverse-fixed : (xs : List A) → All (λ x. f x ≡ ok x) xs → traverse f xs ≡ ok xs
  traverse-fixed [] h = refl
  traverse-fixed (x ∷ xs) h = rw h.0 (rw (traverse-fixed xs h.1) refl)

  pub fixed-traverse : (xs : List A) → traverse f xs ≡ ok xs → All (λ x. f x ≡ ok x) xs
  fixed-traverse [] h = tt
  fixed-traverse (x ∷ xs) h =
      let a = >>=-eq-ok (f x) _ h in
      let b = >>=-eq-ok (traverse f xs) _ a.2 in (cc (a.1, b.2), fixed-traverse xs (cc (b.1, b.2)))
