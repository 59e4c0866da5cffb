-- ===== src/Prelude/Texts.antt =====
-- Python's strings, as lists of code points, and its `str.split`, `str.join` and `str.replace`.
use Prim.Native.Nat.{ℕ, zero, suc, ◌-◌}
use Prim.Native.Char.{code}
use Prim.Native.String.{String}
use mathlib.Core.Path.{◌≡◌}
use mathlib.Core.Logic.{◌↔◌}
use mathlib.Core.Bool.{Bool, true, false, ◌&&◌}
use mathlib.Core.List.{List, [], ◌∷◌, ◌++◌}
use native.Mathlib.Omega.{arith}
use heat.Prelude.Tests.{if◌then◌else◌}
use heat.Prelude.Equality.{Eq, ◌==◌, nat_eq}
use heat.Prelude.Lists.{length}

abbrev pub Text : Type 0
Text = List ℕ

-- The code points of a literal.
abbrev pub codes : String → Text
codes String.[] = []
codes (String.◌∷◌ c s) = code c ∷ codes s

module _ {ℓ} {A : Type ℓ} ⦃e : Eq A⦄ where
  abbrev pub list_beq : List A → List A → Bool
  list_beq [] [] = true
  list_beq (x ∷ xs) (y ∷ ys) = x == y && list_beq xs ys
  list_beq _ _ = false

  pub list_beq_iff : (xs ys : List A) → (list_beq xs ys ≡ true) ↔ (xs ≡ ys)
  list_beq_iff [] [] = ground arith
  list_beq_iff [] (y ∷ ys) = ground arith
  list_beq_iff (x ∷ xs) [] = ground arith
  list_beq_iff (x ∷ xs) (y ∷ ys) = ground (arith, list_beq_iff xs ys, e.beq_iff x y)

instance abbrev pub list_eq {ℓ} : {A : Type ℓ} → ⦃e : Eq A⦄ → Eq (List A)
list_eq = record { beq = λ xs ys. list_beq xs ys; beq_iff = λ xs ys. list_beq_iff xs ys }

-- `s.startswith(p)`
abbrev pub starts_with : Text → Text → Bool
starts_with [] s = true
starts_with (c ∷ p) [] = false
starts_with (c ∷ p) (d ∷ s) = c == d && starts_with p s

-- The first of the pieces gets a character in front.
abbrev pub push_char : ℕ → List Text → List Text
push_char c [] = (c ∷ []) ∷ []
push_char c (p ∷ ps) = (c ∷ p) ∷ ps

-- How much of an occurrence is behind its first character.
abbrev pub skipped : Bool → Text → ℕ
skipped true sep = length sep - 1
skipped false sep = 0

-- `s.split(sep)`, for a separator that is not empty, behind the next `skip` characters: those of an
-- occurrence of the separator.
unfoldable pub split_from : Text → ℕ → Text → List Text
split_from sep skip [] = [] ∷ []
split_from sep (suc skip) (c ∷ s) = split_from sep skip s
split_from sep zero (c ∷ s) =
    let found = starts_with sep (c ∷ s) in
    let rest = split_from sep (skipped found sep) s in if found then [] ∷ rest else push_char c rest

abbrev pub split : Text → Text → List Text
split sep s = split_from sep 0 s

-- `sep.join(parts)`
unfoldable pub join : Text → List Text → Text
join sep [] = []
join sep (p ∷ []) = p
join sep (p ∷ q ∷ ps) = p ++ sep ++ join sep (q ∷ ps)

-- `s.replace(old, new)` for an `old` that is not empty
unfoldable pub replace_from : Text → Text → ℕ → Text → Text
replace_from old new skip [] = []
replace_from old new (suc skip) (c ∷ s) = replace_from old new skip s
replace_from old new zero (c ∷ s) =
    let found = starts_with old (c ∷ s) in
    let rest = replace_from old new (skipped found old) s in if found then new ++ rest else c ∷ rest

-- The empty string occurs before each character and at the end.
unfoldable pub interleave : Text → Text → Text
interleave new [] = new
interleave new (c ∷ s) = new ++ c ∷ interleave new s

unfoldable pub replace_text : Text → Text → Text → Text
unfolding replace_from interleave
replace_text [] new s = interleave new s
replace_text (c ∷ old) new s = replace_from (c ∷ old) new 0 s
