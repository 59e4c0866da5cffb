-- ===== src/Scaling/Sizes.antt =====
-- The template of a scaled group has the size that was asked for, keeps the newest instances, and
-- replaces the definitions of no more of them than was asked for.
use heat.Prelude.{
  ℕ, zero, suc, ◌+◌, ◌-◌, ◌≤◌, ◌<◌, ◌≡◌, refl, List, [], ◌∷◌, map, if◌then◌else◌, length,
  length-append, Eq, ◌==◌, arith, beq_refl,
}
use heat.Scaling.Template.{newest, keep_old, create_new, resource_templates, drop}

length-drop : {A : Type 0} (n : ℕ) (xs : List A) → length (drop n xs) ≡ length xs - n
unfolding drop
length-drop zero xs = omega arith
length-drop (suc n) [] = omega arith
length-drop (suc n) (x ∷ xs) = omega (arith, length-drop n xs)

module _ {Name Def : Type 0} ⦃e : Eq Def⦄ (definition : Def) where
  length-create_new : (fresh : ℕ → Name) (n : ℕ) → length (create_new definition fresh n) ≡ n
  unfolding create_new
  length-create_new fresh zero = refl
  length-create_new fresh (suc n) = omega (arith, length-create_new fresh n)

  length-keep_old :
      (n num_replace : ℕ) (olds : List (Name × Def))
      → length olds ≤ n
      → length (keep_old definition n num_replace olds) ≡ length olds
  unfolding keep_old
  length-keep_old zero num_replace [] h = refl
  length-keep_old zero num_replace (o ∷ olds) h = absurd (omega arith)
  length-keep_old (suc n) num_replace [] h = refl
  length-keep_old (suc n) num_replace ((name, old) ∷ olds) h =
      ground (arith, length-keep_old n num_replace olds, length-keep_old n (num_replace - 1) olds)

  length-newest : (n : ℕ) (xs : List (Name × Def)) → 0 < n → length (newest n xs) ≤ n
  unfolding newest
  length-newest zero xs h = absurd (omega arith)
  length-newest (suc n) xs h = omega (arith, length-drop (length xs - suc n) xs)

  -- The template has as many resources as were asked for, whatever there was before.
  pub length-resource_templates :
      (fresh : ℕ → Name) (olds : List (Name × Def)) (num_resources num_replace : ℕ)
      → length (resource_templates definition fresh olds num_resources num_replace) ≡ num_resources
  unfolding resource_templates keep_old create_new
  length-resource_templates fresh olds zero num_replace =
      omega (arith, length-create_new fresh (0 - length olds))
  length-resource_templates fresh olds (suc n) num_replace =
      let kept = newest (suc n) olds in
      let num_create = suc n - length kept in
      omega (
        arith,
        length-append (keep_old definition (suc n) (num_replace - num_create) kept)
            (create_new definition fresh num_create),
        length-keep_old (suc n) (num_replace - num_create) kept
            (length-newest (suc n) olds (omega arith)),
        length-create_new fresh num_create,
        length-newest (suc n) olds (omega arith),
      )

  -- How many of the resources have the definition of the new template.
  abbrev pub updated : List (Name × Def) → ℕ
  updated [] = 0
  updated ((name, d) ∷ rs) = (if d == definition then 1 else 0) + updated rs

  keep_old-names :
      (n num_replace : ℕ) (olds : List (Name × Def))
      → length olds ≤ n
      → map (λ r. r.0) (keep_old definition n num_replace olds) ≡ map (λ r. r.0) olds
  unfolding keep_old
  keep_old-names zero num_replace [] h = refl
  keep_old-names zero num_replace (o ∷ olds) h = absurd (omega arith)
  keep_old-names (suc n) num_replace [] h = refl
  keep_old-names (suc n) num_replace ((name, old) ∷ olds) h =
      ground (arith, keep_old-names n num_replace olds, keep_old-names n (num_replace - 1) olds)

  -- Of the instances that are kept, as many get the new definition as had it, and at most
  -- `num_replace` more.
  keep_old-updated :
      (n num_replace : ℕ) (olds : List (Name × Def))
      → length olds ≤ n
      → (updated olds ≤ updated (keep_old definition n num_replace olds))
        × (updated (keep_old definition n num_replace olds) ≤ updated olds + num_replace)
  unfolding keep_old
  keep_old-updated zero num_replace [] h = omega arith
  keep_old-updated zero num_replace (o ∷ olds) h = absurd (omega arith)
  keep_old-updated (suc n) num_replace [] h = omega arith
  keep_old-updated (suc n) num_replace ((name, old) ∷ olds) h = ground (
    arith,
    keep_old-updated n num_replace olds,
    keep_old-updated n (num_replace - 1) olds,
    beq_refl definition,
  )
