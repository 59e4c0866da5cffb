-- ===== src/Parameters/Schema.antt =====
-- `Schema` of parameters.py: its constructor and `from_dict`.
use heat.Prelude.{
  ℕ, Bool, true, false, ◌&&◌, ◌||◌, ◌+◌, leb, Option, none, some, List, [], ◌∷◌, ◌++◌, map, Text,
  codes, ◌==◌, list_eq, nat_eq, split, if◌then◌else◌,
}
use heat.Dict.{Dict, lookup, has_key}
use heat.Template.Json.{
  Json, null, bool, text, arr, from_items, Res, returns, raises, type_error, value_error, key_error,
  invalid_schema, from_option, ◌>>=◌,
}
use heat.Parameters.Constraints.{
  Values, Constraint, range, len, allowed_values, allowed_pattern, custom, is_none, new_range,
  new_length, new_allowed_values, new_allowed_pattern, str_to_num, validate_constraints,
}

pub data ParamType : Type 0 where
  string_type number_type list_type map_type : ParamType

pub record Schema : Type 0 where
  pub data_type : ParamType
  -- None where there is no default
  pub default : Json
  pub constraints : List Constraint
  pub hidden : Bool

-- `required`, which follows the default
abbrev pub required : Schema → Bool
required s = is_none s.default

-- `data_type`, one of TYPES
unfoldable pub type_of : Json → Res ParamType
type_of (text s) =
    if s == codes "String"
    then returns string_type
    else (if s == codes "Number"
        then returns number_type
        else (if s == codes "CommaDelimitedList"
            then returns list_type
            else (if s == codes "Json" then returns map_type else raises invalid_schema)))
type_of _ = raises invalid_schema

-- `_is_valid_constraint(constraint)`: the types for which a constraint is made
abbrev pub is_valid_constraint : ParamType → Constraint → Bool
is_valid_constraint number_type (range least most) = true
is_valid_constraint _ (range least most) = false
is_valid_constraint number_type (len least most) = false
is_valid_constraint _ (len least most) = true
is_valid_constraint map_type (allowed_values allowed) = false
is_valid_constraint _ (allowed_values allowed) = true
is_valid_constraint string_type (allowed_pattern matches) = true
is_valid_constraint _ (allowed_pattern matches) = false
is_valid_constraint map_type (custom check) = false
is_valid_constraint _ (custom check) = true

abbrev pub all_valid : ParamType → List Constraint → Bool
all_valid t [] = true
all_valid t (c ∷ cs) = is_valid_constraint t c && all_valid t cs

abbrev pub as_texts : List Text → List Json
as_texts [] = []
as_texts (s ∷ ss) = text s ∷ as_texts ss

-- `s.split(',')`
abbrev pub comma_split : Text → Json
comma_split s = arr (from_items (as_texts (split (codes ",") s)))

-- The default as it is validated: a list is made from a string.
abbrev pub default_value : ParamType → Json → Res Json
default_value list_type (arr xs) = returns (arr xs)
default_value list_type (text s) = returns (comma_split s)
default_value list_type _ = raises invalid_schema
default_value _ v = returns v

-- `except (ValueError, TypeError)`
abbrev pub or_invalid_schema {ℓ} : {A : Type ℓ} → Res A → Res A
or_invalid_schema (raises value_error) = raises invalid_schema
or_invalid_schema (raises type_error) = raises invalid_schema
or_invalid_schema r = r

module _ (values : Values) (compile : Text → Option (Text → Option ℕ)) where
  -- `_validate_default()`
  unfoldable pub validate_default : ParamType → List Constraint → Json → Res (Unit {0})
  unfolding validate_constraints
  validate_default t cs null = returns tt
  validate_default t cs v = do
    value ← default_value t v
    or_invalid_schema (validate_constraints values cs value)

  -- `Schema(data_type, default, constraints, hidden)`
  unfoldable pub new_schema : Json → Json → List Constraint → Bool → Res Schema
  unfolding type_of validate_default
  new_schema data_type default cs hidden = do
    t ← type_of data_type
    valid ← (if all_valid t cs then returns (tt {0}) else raises invalid_schema)
    checked ← validate_default t cs default
    returns (record { data_type = t; default = default; constraints = cs; hidden = hidden })

  abbrev pub get : Text → Dict Text Json → Json
  unfolding lookup
  get key d = elim (lookup key d) [ none ↦ null | some v ↦ v ]

  -- `get_num(key, context)`
  unfoldable pub get_num : Text → Dict Text Json → Res Json
  unfolding get str_to_num
  get_num key context = elim (get key context) [ null ↦ returns null | v ↦ str_to_num values v ]

  -- `if a in schema_dict or b in schema_dict: yield made(get_num(a), get_num(b))`
  abbrev pub bounds :
      (Json → Json → Res Constraint) → Text → Text → Dict Text Json → Res (List Constraint)
  unfolding get_num lookup
  bounds made least most d = elim (has_key least d || has_key most d) [
    | true ↦ do a ← get_num least d; b ← get_num most d; c ← made a b; returns (c ∷ [])
    | false ↦ returns []
  ]

  -- `if key in schema_dict: yield made(schema_dict[key])`
  abbrev pub made_of : (Json → Res Constraint) → Text → Dict Text Json → Res (List Constraint)
  unfolding lookup
  made_of made key d = elim (lookup key d) [
    | none ↦ returns []
    | some v ↦ do c ← made v; returns (c ∷ [])
  ]

  -- `list(constraints())`
  unfoldable pub constraints_of : Dict Text Json → Res (List Constraint)
  unfolding bounds made_of new_range new_length new_allowed_values new_allowed_pattern
  constraints_of d = do
    ranges ← bounds new_range (codes "MinValue") (codes "MaxValue") d
    lengths ← bounds new_length (codes "MinLength") (codes "MaxLength") d
    allowed ← made_of new_allowed_values (codes "AllowedValues") d
    patterns ← made_of (new_allowed_pattern compile) (codes "AllowedPattern") d
    returns (ranges ++ lengths ++ allowed ++ patterns)

  abbrev pub lower : ℕ → ℕ
  lower c = if leb 65 c && leb c 90 then c + 32 else c

  -- `str(v).lower() == 'true'`
  abbrev pub is_true_text : Json → Bool
  is_true_text (bool b) = b
  is_true_text (text s) = map lower s == codes "true"
  is_true_text _ = false

  -- `Schema.from_dict(schema_dict)`
  unfoldable pub from_dict : Dict Text Json → Res Schema
  unfolding new_schema constraints_of get lookup
  from_dict d = do
    data_type ← from_option key_error (lookup (codes "Type") d)
    cs ← constraints_of d
    new_schema data_type (get (codes "Default") d) cs (is_true_text (get (codes "NoEcho") d))
