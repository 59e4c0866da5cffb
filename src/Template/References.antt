-- ===== src/Template/References.antt =====
-- The functions of template.py that look something up: Ref, Fn::GetAtt, Fn::FindInMap, Fn::GetAZs and
-- Fn::ResourceFacade. The parameters and the resources are arguments.
use heat.Prelude.{
  Bool, true, false, ◌&&◌, ◌||◌, Option, none, some, List, [], ◌∷◌, Text, codes, ◌==◌, list_eq,
  nat_eq, ℤ, pos, if◌then◌else◌,
}
use heat.Dict.{Dict, lookup, has_key}
use heat.Resource.Lifecycle.{
  Action, create_action, resume, update_action, Status, in_progress, complete,
}
use heat.Template.Json.{
  Json, null, bool, int, text, arr, obj, items, from_items, fields, Res, returns, raises,
  type_error, value_error, key_error, index_error, attribute_error, user_parameter_missing,
  invalid_template_attribute, from_option, ◌>>=◌, is_text,
}
use heat.Template.Resolve.{Resolver, resolve}
use heat.Template.Texts.{is_key}
use heat.Template.Select.{at_index}

-- A mapping of parameters: `k in params`, and `params[k]`, which may raise.
pub record Params : Type 0 where
  pub has : Text → Bool
  pub get : Text → Res Json

-- What a template sees of a resource.
pub record Resource : Type 0 where
  pub state : Action × Status
  pub ref_id : Res Json
  pub attribute : Json → Res Json

-- `except (KeyError, ValueError)`
abbrev pub or_missing : Json → Res Json → Res Json
or_missing ref (raises key_error) = raises (user_parameter_missing ref)
or_missing ref (raises value_error) = raises (user_parameter_missing ref)
or_missing ref r = r

abbrev pub match_param_ref : Params → Text → Json → Res Bool
match_param_ref params k (text s) = returns (k == codes "Ref" && params.has s)
match_param_ref params k _ = returns false

unfoldable pub handle_param_ref : Params → Json → Res Json
handle_param_ref params (text s) = or_missing (text s) (params.get s)
handle_param_ref params (arr xs) = raises type_error
handle_param_ref params (obj fs) = raises type_error
handle_param_ref params ref = raises (user_parameter_missing ref)

unfoldable pub resolve_param_refs : Params → Resolver
unfolding handle_param_ref resolve
resolve_param_refs params transform s =
    resolve (match_param_ref params) (λ v. handle_param_ref params v) transform s

-- `value in d`, for a dict whose keys are strings: a list or a dict is not hashable.
abbrev pub in_dict {ℓ} : {V : Type ℓ} → Json → Dict Text V → Res Bool
unfolding lookup
in_dict (text s) d = returns (has_key s d)
in_dict (arr xs) d = raises type_error
in_dict (obj fs) d = raises type_error
in_dict _ d = returns false

-- `d[value]`
unfoldable pub get_item {ℓ} : {V : Type ℓ} → Json → Dict Text V → Res V
unfolding lookup
get_item (text s) d = from_option key_error (lookup s d)
get_item (arr xs) d = raises type_error
get_item (obj fs) d = raises type_error
get_item _ d = raises key_error

abbrev pub match_resource_ref : Dict Text Resource → Text → Json → Res Bool
match_resource_ref resources k v = if k == codes "Ref" then in_dict v resources else returns false

unfoldable pub handle_resource_ref : Dict Text Resource → Json → Res Json
handle_resource_ref resources v = do r ← get_item v resources; r.ref_id

unfoldable pub resolve_resource_refs : Dict Text Resource → Resolver
unfolding handle_resource_ref resolve
resolve_resource_refs resources transform s =
    resolve (match_resource_ref resources) (λ v. handle_resource_ref resources v) transform s

-- The states in which an attribute is read.
abbrev pub is_readable : Action × Status → Bool
is_readable (create_action, in_progress) = true
is_readable (create_action, complete) = true
is_readable (resume, in_progress) = true
is_readable (resume, complete) = true
is_readable (update_action, in_progress) = true
is_readable (update_action, complete) = true
is_readable _ = false

abbrev pub chars : Text → List Json
chars [] = []
chars (c ∷ s) = text (c ∷ []) ∷ chars s

abbrev pub keys_of : Dict Text Json → List Json
keys_of [] = []
keys_of ((k, v) ∷ d) = text k ∷ keys_of d

-- What an assignment to several names iterates over.
abbrev pub unpacked : Json → Res (List Json)
unpacked (arr xs) = returns (items xs)
unpacked (text s) = returns (chars s)
unpacked (obj fs) = returns (keys_of (fields fs))
unpacked _ = raises type_error

-- `except KeyError`
abbrev pub or_invalid : Res Json → Res Json
or_invalid (raises key_error) = raises invalid_template_attribute
or_invalid r = r

abbrev pub read_attribute : Resource → Json → Res Json
read_attribute r att = if is_readable r.state then r.attribute att else returns null

abbrev pub getatt_of : Dict Text Resource → List Json → Res Json
getatt_of resources (resource ∷ att ∷ []) =
    or_invalid (do r ← get_item resource resources; read_attribute r att)
getatt_of resources _ = raises value_error

unfoldable pub handle_getatt : Dict Text Resource → Json → Res Json
handle_getatt resources args = unpacked args >>= getatt_of resources

unfoldable pub resolve_attributes : Dict Text Resource → Resolver
unfolding handle_getatt resolve
resolve_attributes resources transform s =
    resolve (is_key (codes "Fn::GetAtt")) (λ v. handle_getatt resources v) transform s

abbrev pub item_at : List Json → ℤ → Res Json
unfolding at_index
item_at xs i = from_option index_error (at_index i xs)

-- `container[key]`
unfoldable pub subscript : Json → Json → Res Json
subscript (obj fs) key = get_item key (fields fs)
subscript (arr xs) (int i) = item_at (items xs) i
subscript (arr xs) (bool true) = item_at (items xs) (pos 1)
subscript (arr xs) (bool false) = item_at (items xs) (pos 0)
subscript (text s) (int i) = item_at (chars s) i
subscript (text s) (bool true) = item_at (chars s) (pos 1)
subscript (text s) (bool false) = item_at (chars s) (pos 0)
subscript _ _ = raises type_error

abbrev pub in_map : Json → List Json → Res Json
unfolding subscript
in_map maps (name ∷ key ∷ value ∷ []) = do
  mapping ← subscript maps name
  entry ← subscript mapping key
  subscript entry value
in_map maps _ = raises value_error

-- `except (ValueError, TypeError)`
abbrev pub or_key_error : Res Json → Res Json
or_key_error (raises value_error) = raises key_error
or_key_error (raises type_error) = raises key_error
or_key_error r = r

unfoldable pub handle_find_in_map : Json → Json → Res Json
unfolding in_map
handle_find_in_map maps args = or_key_error (unpacked args >>= in_map maps)

unfoldable pub resolve_find_in_map : Json → Resolver
unfolding handle_find_in_map resolve
resolve_find_in_map maps transform s =
    resolve (is_key (codes "Fn::FindInMap")) (λ v. handle_find_in_map maps v) transform s

-- The zones of the stack; without a stack there is the zone nova.
unfoldable pub handle_get_az : Option (Res Json) → Json → Res Json
handle_get_az none ref = returns (arr (from_items (text (codes "nova") ∷ [])))
handle_get_az (some zones) ref = zones

abbrev pub match_get_az : Text → Json → Res Bool
match_get_az k v = returns (k == codes "Fn::GetAZs" && is_text v)

unfoldable pub resolve_availability_zones : Option (Res Json) → Resolver
unfolding handle_get_az resolve
resolve_availability_zones zones transform s =
    resolve match_get_az (λ v. handle_get_az zones v) transform s

-- The parent resource of a stack: its metadata and its part of the template.
pub record Parent : Type 0 where
  pub metadata : Res Json
  pub t : Dict Text Json

abbrev pub facade_part : Option Parent → Text → Res Json
unfolding lookup
facade_part none name = raises attribute_error
facade_part (some parent) name =
    if name == codes "Metadata"
    then parent.metadata
    else from_option key_error (lookup name parent.t)

unfoldable pub handle_resource_facade : Option Parent → Json → Res Json
unfolding facade_part
handle_resource_facade parent (text s) =
    if s == codes "Metadata" || s == codes "DeletionPolicy" || s == codes "UpdatePolicy"
    then facade_part parent s
    else raises value_error
handle_resource_facade parent _ = raises value_error

unfoldable pub resolve_resource_facade : Option Parent → Resolver
unfolding handle_resource_facade resolve
resolve_resource_facade parent transform s =
    resolve (is_key (codes "Fn::ResourceFacade")) (λ v. handle_resource_facade parent v) transform s
