-- ===== src/Parameters/Parameter.antt =====
-- `Parameter` of parameters.py and its four classes. `loads` is `json.loads`; `json.dumps` of a dict is
-- taken to be read back as the same dict.
use heat.Prelude.{
  Bool, true, false, not, ◌||◌, Option, none, some, [], ◌∷◌, Text, codes, ◌==◌, list_eq, nat_eq,
  pos, int_beq, parse_int, if◌then◌else◌,
}
use heat.Template.Json.{
  Json, null, bool, int, float, text, arr, obj, nil, cons, end, field, Res, returns, raises,
  type_error, value_error, key_error, user_parameter_missing, from_option, ◌>>=◌,
}
use heat.Parameters.Constraints.{Values, is_none, validate_constraints}
use heat.Parameters.Schema.{
  ParamType, string_type, number_type, list_type, map_type, Schema, comma_split,
}

pub record Parameter : Type 0 where
  pub name : Text
  pub schema : Schema
  pub user_value : Json
  -- of a list or a Json parameter
  pub parsed : Json

-- `bool(v)`
abbrev pub is_truthy : Json → Bool
is_truthy null = false
is_truthy (bool b) = b
is_truthy (int i) = not (int_beq i (pos 0))
is_truthy (float x) = not (x == codes "0.0" || x == codes "-0.0")
is_truthy (text []) = false
is_truthy (text (c ∷ s)) = true
is_truthy (arr nil) = false
is_truthy (arr (cons x xs)) = true
is_truthy (obj end) = false
is_truthy (obj (field k v fs)) = true

-- `CommaDelimitedListParam.parse(value)`
unfoldable pub parse_list : Json → Res Json
parse_list (arr xs) = returns (arr xs)
parse_list (text (c ∷ s)) = returns (comma_split (c ∷ s))
parse_list v = if is_truthy v then raises value_error else returns v

-- `JsonParam.parse(value)`
unfoldable pub parse_json : (loads : Text → Option Json) → Json → Res Json
parse_json loads (obj fs) = returns (obj fs)
parse_json loads (text (c ∷ s)) = from_option value_error (loads (c ∷ s))
parse_json loads v = if is_truthy v then raises value_error else returns v

module _ (values : Values) (loads : Text → Option Json) where
  -- What a value of a type is parsed to before it is validated.
  unfoldable pub parse : ParamType → Json → Res Json
  unfolding parse_list parse_json
  parse string_type v = returns v
  parse number_type v = returns v
  parse list_type v = parse_list v
  parse map_type v = parse_json loads v

  -- `validate(val)` of each class
  unfoldable pub validate_value : Schema → Json → Res (Unit {0})
  unfolding parse validate_constraints
  validate_value schema v = do
    value ← parse schema.data_type v
    validate_constraints values schema.constraints value

  abbrev pub has_default : Schema → Bool
  has_default schema = not (is_none schema.default)

  -- The validation in `__init__`.
  unfoldable pub validate_all : Text → Schema → Json → Res (Unit {0})
  unfolding validate_value
  validate_all name schema value = do
    default_checked ←
        (if has_default schema then validate_value schema schema.default else returns tt)
    (if not (is_none value)
        then validate_value schema value
        else (if has_default schema
            then returns tt
            else raises (user_parameter_missing (text name))))

  -- `self.user_value or self.default()`
  abbrev pub or_default : Json → Schema → Json
  or_default value schema = if is_truthy value then value else schema.default

  -- The value that the class keeps: a string or a number is parsed later, if at all.
  abbrev pub parsed_of : Schema → Json → Res Json
  unfolding parse
  parsed_of schema value = parse schema.data_type (or_default value schema)

  -- `Parameter(name, schema, value, validate_value)`
  unfoldable pub new_parameter : Text → Schema → Json → Bool → Res Parameter
  unfolding validate_all parsed_of
  new_parameter name schema value validate = do
    checked ← (if validate then validate_all name schema value else returns tt)
    parsed ← parsed_of schema value
    returns (record { name = name; schema = schema; user_value = value; parsed = parsed })

  -- `Parameter.value()`
  abbrev pub plain_value : Parameter → Res Json
  plain_value p =
      if not (is_none p.user_value)
      then returns p.user_value
      else (if has_default p.schema then returns p.schema.default else raises key_error)

  -- `int(v)`, and `float(v)` where that is a ValueError; `int` of a float cuts the fraction off.
  abbrev pub number_of : Json → Res Json
  number_of (int i) = returns (int i)
  number_of (bool true) = returns (int (pos 1))
  number_of (bool false) = returns (int (pos 0))
  number_of (float x) = returns (int (values.truncated x))
  number_of (text s) = elim (parse_int s) [
    | some i ↦ returns (int i)
    | none ↦ elim (values.float_of s) [ some x ↦ returns (float x) | none ↦ raises value_error ]
  ]
  number_of _ = raises type_error

  -- `value()` of each class
  unfoldable pub value_of : Parameter → Res Json
  value_of p = elim p.schema.data_type [
    | string_type ↦ plain_value p
    | number_type ↦ plain_value p >>= number_of
    | list_type ↦ returns p.parsed
    | map_type ↦ returns p.parsed
  ]

  -- `str(p)`
  unfoldable pub str_param : (str_of : Json → Res Text) → Parameter → Res Text
  unfolding value_of
  str_param str_of p = do
    v ← value_of p
    (if p.schema.hidden then returns (codes "******") else str_of v)
