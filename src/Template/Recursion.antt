-- ===== src/Template/Recursion.antt =====
-- A parameter of type Json whose value refers to the parameter.
use heat.Prelude.{ℕ, zero, suc, true, ◌≡◌, refl, [], ◌∷◌, Text, codes, list_eq, nat_eq}
use heat.Template.Json.{
  Json, text, arr, obj, end, field, from_items, returns, raises, recursion_error,
}
use heat.Template.Resolve.{resolve_in, resolve, in_turn, transform}
use heat.Template.Texts.{pair, reduce_joins}
use heat.Template.References.{
  handle_param_ref, resolve_param_refs, resolve_availability_zones, resolve_resource_facade,
  resolve_find_in_map,
}
use heat.Template.Runtime.{Statics, static_resolvers, resolve_static_data}

abbrev pub ref_to : Text → Json
ref_to name = obj (field (codes "Ref") (text name) end)

-- `["", [{"Ref": name}]]`
abbrev join_args_of : Text → Json
join_args_of name = pair (text []) (arr (from_items (ref_to name ∷ [])))

-- `{"Fn::Join": ["", [{"Ref": name}]]}`
abbrev pub own_value : Text → Json
own_value name = obj (field (codes "Fn::Join") (join_args_of name) end)

module _ (s : Statics) (name : Text) (here : s.params.has name ≡ true)
    (value : s.params.get name ≡ returns (own_value name)) where
  args-recursion :
      (depth : ℕ)
      → transform depth (static_resolvers s) (join_args_of name) ≡ raises recursion_error
  unfolding transform static_resolvers in_turn resolve_param_refs resolve_availability_zones
      resolve_resource_facade resolve_find_in_map reduce_joins resolve resolve_in handle_param_ref
  args-recursion zero = refl
  args-recursion (suc zero) = rw here refl
  args-recursion (suc (suc depth)) = rw (here, value, args-recursion (suc depth)) refl

  -- However deep Python's stack is, a reference to a parameter whose value is a join of a reference to
  -- that parameter itself ends with the RuntimeError of a recursion that is too deep.
  pub resolve_static_data-recursion :
      (depth : ℕ) → resolve_static_data depth s (ref_to name) ≡ raises recursion_error
  unfolding resolve_static_data transform static_resolvers in_turn resolve_param_refs
      resolve_availability_zones resolve_resource_facade resolve_find_in_map reduce_joins resolve
      resolve_in handle_param_ref
  resolve_static_data-recursion zero = refl
  resolve_static_data-recursion (suc zero) = rw here refl
  resolve_static_data-recursion (suc (suc depth)) =
      rw (here, value, args-recursion (suc depth)) refl
