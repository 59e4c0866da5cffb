-- ===== src/Resource/Difference.antt =====
-- `update_template_diff` and `update_template_diff_properties` of resource.py: what an update changes.
use heat.Prelude.{
  Bool, true, false, ◌&&◌, Option, none, some, List, [], ◌∷◌, ◌++◌, Eq, ◌==◌, member, set_add,
  if◌then◌else◌,
}
use heat.Dict.{Dict, lookup}

module _ {V : Type 0} ⦃v : Eq V⦄ where
  -- `before.get(k) == after.get(k)`
  abbrev pub same_value : Option V → Option V → Bool
  same_value none none = true
  same_value (some a) (some b) = a == b
  same_value _ _ = false

module _ {Key : Type 0} ⦃k : Eq Key⦄ where
  abbrev pub union : List Key → List Key → List Key
  union [] ys = ys
  union (x ∷ xs) ys = set_add x (union xs ys)

  -- The names of the properties whose schema has `update_allowed`.
  abbrev pub updatable : Dict Key Bool → List Key
  updatable [] = []
  updatable ((name, true) ∷ schema) = name ∷ updatable schema
  updatable ((name, false) ∷ schema) = updatable schema

module _ {Key V : Type 0} ⦃k : Eq Key⦄ ⦃v : Eq V⦄ where
  abbrev pub keys_of : Dict Key V → List Key
  keys_of [] = []
  keys_of ((key, value) ∷ d) = set_add key (keys_of d)

  -- The keys that differ, with their values in `after`; None stands for what is gone.
  unfoldable pub changes : Dict Key V → Dict Key V → List Key → Dict Key (Option V)
  unfolding lookup
  changes after before [] = []
  changes after before (key ∷ keys) =
      let rest = changes after before keys in
      if same_value (lookup key before) (lookup key after)
      then rest
      else (key, lookup key after) ∷ rest

  abbrev pub all_allowed : List Key → Dict Key (Option V) → Bool
  all_allowed allowed [] = true
  all_allowed allowed ((key, value) ∷ rest) = member key allowed && all_allowed allowed rest

  -- `update_template_diff(after, before)`; `none` is UpdateReplace.
  unfoldable pub update_template_diff :
      List Key → Dict Key V → Dict Key V → Option (Dict Key (Option V))
  unfolding changes
  update_template_diff allowed after before =
      let changed = changes after before (union (keys_of before) (keys_of after)) in
      if all_allowed allowed changed then some changed else none

  -- `update_template_diff_properties(after, before)`, given the two dicts of properties
  unfoldable pub update_template_diff_properties :
      List Key → Dict Key Bool → Dict Key V → Dict Key V → Option (Dict Key (Option V))
  unfolding update_template_diff
  update_template_diff_properties allowed schema after before =
      update_template_diff (updatable schema ++ allowed) after before
