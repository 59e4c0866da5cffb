-- ===== src/Scaling/Template.antt =====
-- `resource_templates` of heat/scaling/template.py: the resources of the nested stack after a change
-- of size, oldest first. The names that `short_id.generate_id` gives are an argument.
use heat.Prelude.{
  ℕ, zero, suc, ◌-◌, not, ◌&&◌, List, [], ◌∷◌, ◌++◌, ltb, if◌then◌else◌, length, Eq, ◌==◌,
}

unfoldable pub drop : {A : Type 0} → ℕ → List A → List A
drop zero xs = xs
drop (suc n) [] = []
drop (suc n) (x ∷ xs) = drop n xs

-- `old_resources[-num_resources:]`: a slice from -0 is the whole list.
unfoldable pub newest : {A : Type 0} → ℕ → List A → List A
unfolding drop
newest zero xs = xs
newest (suc n) xs = drop (length xs - suc n) xs

module _ {Name Def : Type 0} ⦃e : Eq Def⦄ (definition : Def) where
  -- The rounds `i < len(old_resources)` of the loop, at most `n` of them. `num_replace` is negative
  -- in the source where this stops at 0, with the same test `num_replace > 0`.
  unfoldable pub keep_old : ℕ → ℕ → List (Name × Def) → List (Name × Def)
  keep_old zero num_replace olds = []
  keep_old (suc n) num_replace [] = []
  keep_old (suc n) num_replace ((name, old) ∷ olds) =
      let out_of_date = not (old == definition) && ltb 0 num_replace in
      (name, if out_of_date then definition else old)
      ∷ keep_old n (if out_of_date then num_replace - 1 else num_replace) olds

  -- The rounds behind them.
  unfoldable pub create_new : (ℕ → Name) → ℕ → List (Name × Def)
  create_new fresh zero = []
  create_new fresh (suc n) = (fresh n, definition) ∷ create_new fresh n

  -- `resource_templates(old_resources, definition, num_resources, num_replace)`
  unfoldable pub resource_templates : (ℕ → Name) → List (Name × Def) → ℕ → ℕ → List (Name × Def)
  unfolding newest keep_old create_new
  resource_templates fresh old_resources num_resources num_replace =
      let olds = newest num_resources old_resources in
      let num_create = num_resources - length olds in
      keep_old num_resources (num_replace - num_create) olds ++ create_new fresh num_create
