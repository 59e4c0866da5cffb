-- ===== src/Template/Hot.antt =====
-- The functions of HOT templates, hot.py. `attribute v i` is what `getattr(v, i)` gives where
-- `hasattr(v, str(i))` holds: an attribute of Python's own on a value.
use heat.Prelude.{
  Bool, true, false, not, ◌&&◌, ◌||◌, Option, none, some, List, [], ◌∷◌, Text, codes, ◌==◌, list_eq,
  nat_eq, if◌then◌else◌,
}
use heat.Dict.{Dict, lookup}
use heat.Template.Json.{
  Json, null, text, arr, obj, items, Res, returns, raises, type_error, key_error, index_error,
  name_error, invalid_template_attribute, ◌>>=◌,
}
use heat.Template.Resolve.{Resolver, resolve}
use heat.Template.References.{
  Params, Resource, handle_param_ref, handle_resource_ref, in_dict, get_item, or_missing,
  is_readable, subscript,
}

abbrev pub is_null : Json → Bool
is_null null = true
is_null _ = false

-- `value in params`
abbrev pub in_params : Params → Json → Res Bool
in_params params (text s) = returns (params.has s)
in_params params (arr xs) = raises type_error
in_params params (obj fs) = raises type_error
in_params params _ = returns false

abbrev pub match_hot_ref : Params → Text → Json → Res Bool
match_hot_ref params k v =
    if k == codes "Ref" && not (is_null v) then in_params params v else returns false

unfoldable pub resolve_ref : Params → Resolver
unfolding resolve
resolve_ref params transform s =
    resolve (match_hot_ref params) (λ v. handle_param_ref params v) transform s

module _ (attribute : Json → Json → Option Json) where
  -- The loop over the inner parameters or attributes.
  unfoldable pub follow : Json → List Json → Res Json
  unfolding subscript
  follow value [] = returns value
  follow value (inner ∷ rest) = elim (attribute value inner) [
    | some w ↦ follow w rest
    | none ↦ subscript value inner >>= λ w. follow w rest
  ]

  -- `except (KeyError, IndexError, TypeError): return ''`
  abbrev pub or_blank : Res Json → Res Json
  or_blank (raises key_error) = returns (text [])
  or_blank (raises index_error) = returns (text [])
  or_blank (raises type_error) = returns (text [])
  or_blank r = r

  abbrev pub arguments : Json → List Json
  arguments (arr xs) = items xs
  arguments v = v ∷ []

  -- `params[args[0]]`
  abbrev pub parameter_of : Params → Json → Res Json
  parameter_of params (text s) = or_missing (text s) (params.get s)
  parameter_of params (arr xs) = raises type_error
  parameter_of params (obj fs) = raises type_error
  parameter_of params v = or_missing v (raises key_error)

  abbrev pub get_param_of : Params → List Json → Res Json
  unfolding follow
  get_param_of params [] = raises index_error
  get_param_of params (name ∷ inner) = do
    parameter ← parameter_of params name
    or_blank (follow parameter inner)

  unfoldable pub handle_get_param : Params → Json → Res Json
  unfolding get_param_of
  handle_get_param params args = get_param_of params (arguments args)

  abbrev pub match_get_param : Text → Json → Res Bool
  match_get_param k v = returns (k == codes "get_param" && not (is_null v))

  unfoldable pub resolve_get_param : Params → Resolver
  unfolding handle_get_param resolve
  resolve_get_param params transform s =
      resolve match_get_param (λ v. handle_get_param params v) transform s

  unfoldable pub hot_param_refs : Params → Resolver
  unfolding resolve_ref resolve_get_param
  hot_param_refs params transform s =
      resolve_ref params transform s >>= λ resolved. resolve_get_param params transform resolved

  abbrev pub no_null : List Json → Bool
  no_null [] = true
  no_null (v ∷ vs) = not (is_null v) && no_null vs

  -- A list of two values or more, none of them None, the first the name of a resource.
  abbrev pub match_get_attr : Dict Text Resource → Text → Json → Res Bool
  match_get_attr resources k v = if k == codes "get_attr" then listed v else returns false
    where
      listed_items : List Json → Res Bool
      listed_items (resource ∷ att ∷ inner) =
          if no_null (resource ∷ att ∷ inner) then in_dict resource resources else returns false
      listed_items _ = returns false

      listed : Json → Res Bool
      listed (arr xs) = listed_items (items xs)
      listed _ = returns false

  -- `except (KeyError, IndexError)`; the name of the attribute is not known yet if the resource is missing.
  abbrev pub or_unbound : Res Resource → Res Resource
  or_unbound (raises key_error) = raises name_error
  or_unbound r = r

  abbrev pub or_invalid_attribute : Res Json → Res Json
  or_invalid_attribute (raises key_error) = raises invalid_template_attribute
  or_invalid_attribute (raises index_error) = raises invalid_template_attribute
  or_invalid_attribute r = r

  abbrev pub read_inner : Resource → Json → List Json → Res Json
  unfolding follow
  read_inner r att inner =
      if is_readable r.state
      then or_invalid_attribute (r.attribute att >>= λ value. or_blank (follow value inner))
      else returns null

  abbrev pub get_attr_of : Dict Text Resource → List Json → Res Json
  unfolding read_inner lookup
  get_attr_of resources [] = raises index_error
  get_attr_of resources (resource ∷ []) = do
    r ← or_unbound (get_item resource resources)
    if is_readable r.state then raises name_error else returns null
  get_attr_of resources (resource ∷ att ∷ inner) = do
    r ← or_unbound (get_item resource resources)
    read_inner r att inner

  -- The match takes lists alone, and a transformation keeps a list a list.
  unfoldable pub handle_get_attr : Dict Text Resource → Json → Res Json
  unfolding get_attr_of
  handle_get_attr resources (arr xs) = get_attr_of resources (items xs)
  handle_get_attr resources _ = raises type_error

  unfoldable pub hot_attributes : Dict Text Resource → Resolver
  unfolding handle_get_attr resolve
  hot_attributes resources transform s =
      resolve (match_get_attr resources) (λ v. handle_get_attr resources v) transform s

abbrev pub match_get_resource : Dict Text Resource → Text → Json → Res Bool
match_get_resource resources k v =
    if k == codes "get_resource" || k == codes "Ref" then in_dict v resources else returns false

unfoldable pub hot_resource_refs : Dict Text Resource → Resolver
unfolding handle_resource_ref resolve
hot_resource_refs resources transform s =
    resolve (match_get_resource resources) (λ v. handle_resource_ref resources v) transform s
