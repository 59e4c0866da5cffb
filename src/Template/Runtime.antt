-- ===== src/Template/Runtime.antt =====
-- `resolve_static_data` and `resolve_runtime_data` of parser.py, for templates of template.py.
use heat.Prelude.{ℕ, List, [], ◌∷◌, Option, Text}
use heat.Dict.{Dict}
use heat.Template.Json.{Json, Res}
use heat.Template.Resolve.{Resolver, transform}
use heat.Template.Texts.{
  reduce_joins, resolve_joins, resolve_split, resolve_replace, resolve_base64,
}
use heat.Template.Select.{resolve_select}
use heat.Template.Members.{resolve_member_list_to_map}
use heat.Template.References.{
  Params, Resource, Parent, resolve_param_refs, resolve_availability_zones, resolve_resource_facade,
  resolve_find_in_map, resolve_resource_refs, resolve_attributes,
}

-- What the static references of a stack refer to.
pub record Statics : Type 0 where
  pub params : Params
  pub zones : Option (Res Json)
  pub parent : Option Parent
  pub maps : Json

unfoldable pub static_resolvers : Statics → List Resolver
static_resolvers s =
    resolve_param_refs s.params
    ∷ resolve_availability_zones s.zones
    ∷ resolve_resource_facade s.parent
    ∷ resolve_find_in_map s.maps
    ∷ reduce_joins
    ∷ []

unfoldable pub resolve_static_data : ℕ → Statics → Json → Res Json
unfolding transform static_resolvers
resolve_static_data depth s snippet = transform depth (static_resolvers s) snippet

-- What Python's own functions do: `s.split()` and `json.loads`.
pub record Library : Type 0 where
  pub whitespace : Text → List Text
  pub loads : Text → Option Json

unfoldable pub runtime_resolvers : Library → Dict Text Resource → List Resolver
runtime_resolvers library resources =
    resolve_resource_refs resources
    ∷ resolve_attributes resources
    ∷ resolve_split library.whitespace
    ∷ resolve_member_list_to_map
    ∷ resolve_select library.loads
    ∷ resolve_joins
    ∷ resolve_replace
    ∷ resolve_base64
    ∷ []

unfoldable pub resolve_runtime_data : ℕ → Library → Dict Text Resource → Json → Res Json
unfolding transform runtime_resolvers
resolve_runtime_data depth library resources snippet =
    transform depth (runtime_resolvers library resources) snippet
