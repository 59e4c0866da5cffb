-- ===== src/Prelude/Lists.antt =====
-- Lists over the native numbers, membership as a Boolean test, and Python's sets as lists.
use Prim.Native.Nat.{ℕ, suc, ◌+◌}
use mathlib.Core.Path.{◌≡◌, refl}
use mathlib.Core.Bool.{Bool, false, ◌||◌}
use mathlib.Core.List.{List, [], ◌∷◌, ◌++◌}
use native.Mathlib.Omega.{arith}
use heat.Prelude.Tests.{if◌then◌else◌}
use heat.Prelude.Equality.{Eq, ◌==◌}

module _ {ℓ} {A : Type ℓ} where
  abbrev pub length : List A → ℕ
  length [] = 0
  length (x ∷ xs) = suc (length xs)

  pub length-append : (xs ys : List A) → length (xs ++ ys) ≡ length xs + length ys
  length-append [] ys = omega arith
  length-append (x ∷ xs) ys = omega (arith, length-append xs ys)

  -- A predicate by recursion computes to tuples.
  abbrev pub All {κ} : (A → Type κ) → List A → Type κ
  All P [] = Unit
  All P (x ∷ xs) = P x × All P xs

module _ {ℓ} {A : Type ℓ} ⦃e : Eq A⦄ where
  -- `x in s`
  abbrev pub member : A → List A → Bool
  member x [] = false
  member x (y ∷ ys) = x == y || member x ys

  -- `s.add(x)`
  abbrev pub set_add : A → List A → List A
  set_add x s = if member x s then s else x ∷ s

  -- `s.discard(x)`
  abbrev pub set_discard : A → List A → List A
  set_discard x [] = []
  set_discard x (y ∷ ys) = if x == y then set_discard x ys else y ∷ set_discard x ys

  pub member-append : (x : A) (xs ys : List A) → member x (xs ++ ys) ≡ (member x xs || member x ys)
  member-append x [] ys = refl
  member-append x (y ∷ xs) ys = ground (arith, member-append x xs ys)

  pub member-set_add : (x y : A) (s : List A) → member x (set_add y s) ≡ (x == y || member x s)
  member-set_add x y s = ground (arith, e.beq_iff x y)

  pub member-set_discard :
      (x y : A) (s : List A) → member x (set_discard y s) ≡ (if y == x then false else member x s)
  member-set_discard x y [] = ground arith
  member-set_discard x y (z ∷ s) =
      ground (
        arith,
        member-set_discard x y s,
        e.beq_iff x y,
        e.beq_iff y z,
        e.beq_iff x z,
        e.beq_iff y x,
      )
