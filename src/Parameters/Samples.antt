-- ===== src/Parameters/Samples.antt =====
-- Parameters of a template, and the theorems about parameters at them.
use heat.Prelude.{
  String, ℕ, Bool, true, false, ◌&&◌, ◌||◌, ◌≡◌, refl, [], ◌∷◌, Option, none, some, Text, codes,
  ◌==◌, list_eq, nat_eq, beq_refl, pos, int_ltb, int_beq, parse_int, All, arith,
}
use heat.Dict.{Dict, lookup, put, has_key}
use heat.Template.Json.{
  Json, null, bool, int, float, text, arr, obj, Items, nil, cons, Fields, end, field, from_fields,
  returns, raises, unknown_user_parameter, value_error,
}
use heat.Parameters.Constraints.{Values, len, validate, validate_constraints}
use heat.Parameters.Schema.{string_type, Schema, from_dict}
use heat.Parameters.Parameter.{Parameter, new_parameter, value_of}
use heat.Parameters.Container.{pseudo_parameters, new_parameters, mapping}
use heat.Parameters.Validated.{new_parameter-validate_constraints}
use heat.Parameters.Complete.{new_parameters-keys}

mutual
  json_beq : Json → Json → Bool
  json_beq null null = true
  json_beq (bool true) (bool true) = true
  json_beq (bool false) (bool false) = true
  json_beq (int i) (int j) = int_beq i j
  json_beq (float x) (float y) = x == y
  json_beq (text s) (text t) = s == t
  json_beq (arr xs) (arr ys) = items_beq xs ys
  json_beq (obj fs) (obj gs) = fields_beq fs gs
  json_beq _ _ = false

  items_beq : Items → Items → Bool
  items_beq nil nil = true
  items_beq (cons x xs) (cons y ys) = json_beq x y && items_beq xs ys
  items_beq _ _ = false

  fields_beq : Fields → Fields → Bool
  fields_beq end end = true
  fields_beq (field k v fs) (field j w gs) = k == j && json_beq v w && fields_beq fs gs
  fields_beq _ _ = false

mutual
  unfolding json_beq

  json_beq_refl : (v : Json) → json_beq v v ≡ true
  json_beq_refl null = refl
  json_beq_refl (bool true) = refl
  json_beq_refl (bool false) = refl
  json_beq_refl (int i) = ground arith
  json_beq_refl (float x) = beq_refl x
  json_beq_refl (text s) = beq_refl s
  json_beq_refl (arr xs) = items_beq_refl xs
  json_beq_refl (obj fs) = fields_beq_refl fs

  items_beq_refl : (xs : Items) → items_beq xs xs ≡ true
  items_beq_refl nil = refl
  items_beq_refl (cons x xs) = ground (arith, json_beq_refl x, items_beq_refl xs)

  fields_beq_refl : (fs : Fields) → fields_beq fs fs ≡ true
  fields_beq_refl end = refl
  fields_beq_refl (field k v fs) = ground (arith, beq_refl k, json_beq_refl v, fields_beq_refl fs)

abbrev int_less : Json → Json → Bool
int_less (int i) (int j) = int_ltb i j
int_less _ _ = false

abbrev values : Values
values = record {
  float_of = λ s. none;
  truncated = λ x. pos 0;
  less = int_less;
  equal = λ v w. json_beq v w;
  less_int = λ a b. refl;
  equal_refl = λ v. json_beq_refl v;
}

abbrev t : String → Json
t s = text (codes s)

-- `{"Type": "String", "MinLength": 2, "Default": "m1"}`
abbrev flavor : Json
flavor = obj (
    from_fields (
      (codes "Type", t "String")
      ∷ (codes "MinLength", int (pos 2))
      ∷ (codes "Default", t "m1")
      ∷ []))

abbrev section : Dict Text Json
section = (codes "Flavor", flavor) ∷ []

abbrev template : Dict Text Json
template = (codes "Parameters", obj (from_fields section)) ∷ []

abbrev loads : Text → Option Json
loads s = none

abbrev compile : Text → Option (Text → Option ℕ)
compile s = none

program : Unit {0}
unfolding lookup put parse_int validate new_parameter value_of new_parameters pseudo_parameters
    from_dict mapping validate_constraints
program = tt

unknown :
    new_parameters values loads compile none template section ((codes "Image", t "x") ∷ []) true
    ≡ raises unknown_user_parameter
unfolding program
unknown = refl

abbrev flavor_schema : Schema
flavor_schema = record {
  data_type = string_type;
  default = t "m1";
  constraints = len (some (int (pos 2))) none ∷ [];
  hidden = false;
}

abbrev small : Parameter
small = record {
  name = codes "Flavor";
  schema = flavor_schema;
  user_value = t "m2";
  parsed = t "m2";
}

too_short :
    new_parameter values loads (codes "Flavor") flavor_schema (t "m") true ≡ raises value_error
unfolding program
too_short = refl

is_small : new_parameter values loads (codes "Flavor") flavor_schema (t "m2") true ≡ returns small
unfolding program
is_small = refl

value-small : value_of values loads small ≡ returns (t "m2")
unfolding program
value-small = refl

new_parameter-validate_constraints_example :
    validate_constraints values (len (some (int (pos 2))) none ∷ []) (t "m2") ≡ returns tt
new_parameter-validate_constraints_example =
    new_parameter-validate_constraints values loads (codes "Flavor") flavor_schema (t "m2") small
      (t "m2") is_small refl (ground arith) value-small

abbrev user_params : Dict Text Json
user_params = (codes "Flavor", t "m2") ∷ []

abbrev params : Dict Text Parameter
params = put (codes "Flavor") small (pseudo_parameters values loads compile none)

are_params :
    new_parameters values loads compile none template section user_params true ≡ returns params
unfolding program
are_params = refl

new_parameters-keys_example :
    All (λ kv. has_key kv.0 section ≡ true) user_params
    × ((name : Text)
        → has_key name params
          ≡ (has_key name section || has_key name (pseudo_parameters values loads compile none)))
new_parameters-keys_example =
    new_parameters-keys values loads compile none template section user_params true params
      are_params
