-- ===== src/Parameters/Constraints.antt =====
-- The constraints of constraints.py and their validation.
use heat.Prelude.{
  ℕ, Bool, true, false, not, ◌&&◌, ◌||◌, ◌≡◌, Option, none, some, List, [], ◌∷◌, Text, ℤ, pos,
  int_ltb, length, parse_int, nat_eq, ◌==◌, if◌then◌else◌,
}
use heat.Template.Json.{
  Json, null, bool, int, float, text, arr, obj, items, fields, Res, returns, raises, type_error,
  value_error, invalid_schema, pattern_error, ◌>>=◌,
}

-- What Python does with numbers and with equality: `float(s)`, `int(f)`, `a < b`, `a == b`. On integers
-- the order is that of the integers, and a value equals itself.
pub record Values : Type 0 where
  pub float_of : Text → Option Text
  pub truncated : Text → ℤ
  pub less : Json → Json → Bool
  pub equal : Json → Json → Bool
  pub less_int : (a b : ℤ) → less (int a) (int b) ≡ int_ltb a b
  pub equal_refl : (v : Json) → equal v v ≡ true

pub data Constraint : Type 0 where
  -- `min` and `max`
  range : Option Json → Option Json → Constraint
  len : Option Json → Option Json → Constraint
  allowed_values : List Json → Constraint
  -- the compiled pattern's `match`: where a match that begins at the start ends
  allowed_pattern : (Text → Option ℕ) → Constraint
  -- the class that validates, if the environment has one of that name
  custom : Option (Json → Bool) → Constraint

abbrev pub is_numeric : Json → Bool
is_numeric null = true
is_numeric (bool b) = true
is_numeric (int i) = true
is_numeric (float x) = true
is_numeric _ = false

abbrev pub is_integral : Json → Bool
is_integral null = true
is_integral (bool b) = true
is_integral (int i) = true
is_integral _ = false

abbrev pub optional : Json → Option Json
optional null = none
optional v = some v

abbrev pub is_none : Json → Bool
is_none null = true
is_none _ = false

-- `Range(min, max)`
unfoldable pub new_range : Json → Json → Res Constraint
new_range least most =
    if is_numeric least && is_numeric most && not (is_none least && is_none most)
    then returns (range (optional least) (optional most))
    else raises invalid_schema

-- `Length(min, max)`
unfoldable pub new_length : Json → Json → Res Constraint
unfolding new_range
new_length least most = do
  checked ← new_range least most
  (if is_integral least && is_integral most
      then returns (len (optional least) (optional most))
      else raises invalid_schema)

-- `AllowedValues(allowed)`
unfoldable pub new_allowed_values : Json → Res Constraint
new_allowed_values (arr xs) = returns (allowed_values (items xs))
new_allowed_values _ = raises invalid_schema

-- `AllowedPattern(pattern)`; `compile` is `re.compile(pattern).match`.
unfoldable pub new_allowed_pattern :
    (compile : Text → Option (Text → Option ℕ)) → Json → Res Constraint
new_allowed_pattern compile (text s) = elim (compile s) [
  | none ↦ raises pattern_error
  | some matches ↦ returns (allowed_pattern matches)
]
new_allowed_pattern compile _ = raises type_error

module _ (values : Values) where
  -- `str_to_num(value)`
  unfoldable pub str_to_num : Json → Res Json
  str_to_num (int i) = returns (int i)
  str_to_num (bool b) = returns (bool b)
  str_to_num (float x) = returns (float x)
  str_to_num (text s) = elim (parse_int s) [
    | some i ↦ returns (int i)
    | none ↦ elim (values.float_of s) [ some x ↦ returns (float x) | none ↦ raises value_error ]
  ]
  str_to_num _ = raises type_error

  abbrev pub is_below : Json → Option Json → Bool
  is_below v none = false
  is_below v (some least) = values.less v least

  abbrev pub is_above : Json → Option Json → Bool
  is_above v none = false
  is_above v (some most) = values.less most v

  -- `Range._is_valid(value)`
  unfoldable pub in_range : Option Json → Option Json → Json → Res Bool
  unfolding str_to_num
  in_range least most value = do
    v ← str_to_num value
    returns (if is_below v least then false else (if is_above v most then false else true))

  -- `len(value)`
  abbrev pub len_of : Json → Res ℕ
  len_of (text s) = returns (length s)
  len_of (arr xs) = returns (length (items xs))
  len_of (obj fs) = returns (length (fields fs))
  len_of _ = raises type_error

  abbrev pub is_allowed : List Json → Json → Bool
  is_allowed [] v = false
  is_allowed (a ∷ allowed) v = values.equal a v || is_allowed allowed v

  abbrev pub all_allowed : List Json → List Json → Bool
  all_allowed allowed [] = true
  all_allowed allowed (v ∷ vs) = is_allowed allowed v && all_allowed allowed vs

  abbrev pub among : List Json → Json → Bool
  among allowed (arr xs) = all_allowed allowed (items xs)
  among allowed v = is_allowed allowed v

  -- The whole string is matched.
  abbrev pub matches_all : Option ℕ → ℕ → Bool
  matches_all none n = false
  matches_all (some i) n = i == n

  abbrev pub matched : (Text → Option ℕ) → Json → Res Bool
  matched matches (text s) = returns (matches_all (matches s) (length s))
  matched matches _ = raises type_error

  -- `_is_valid(value)` of each class
  unfoldable pub is_valid : Constraint → Json → Res Bool
  unfolding in_range
  is_valid (range least most) v = in_range least most v
  is_valid (len least most) v = do n ← len_of v; in_range least most (int (pos n))
  is_valid (allowed_values allowed) v = returns (among allowed v)
  is_valid (allowed_pattern matches) v = matched matches v
  is_valid (custom none) v = returns false
  is_valid (custom (some check)) v = returns (check v)

  -- `constraint.validate(value)`
  unfoldable pub validate : Constraint → Json → Res (Unit {0})
  unfolding is_valid
  validate c v = do ok ← is_valid c v; (if ok then returns tt else raises value_error)

  unfoldable pub validate_constraints : List Constraint → Json → Res (Unit {0})
  unfolding validate
  validate_constraints [] v = returns tt
  validate_constraints (c ∷ cs) v = do done ← validate c v; validate_constraints cs v
