-- ===== src/Parameters/Container.antt =====
-- `Parameters` of parameters.py: the parameters of a stack.
use heat.Prelude.{
  ℕ, Bool, true, false, ◌||◌, Option, none, some, List, [], ◌∷◌, Text, codes, ◌==◌, list_eq, nat_eq,
  if◌then◌else◌,
}
use heat.Dict.{Dict, lookup, put, has_key}
use heat.Template.Json.{
  Json, null, text, obj, fields, Res, returns, raises, key_error, attribute_error,
  invalid_template_parameter, unknown_user_parameter, from_option, ◌>>=◌,
}
use heat.Template.References.{Params}
use heat.Parameters.Constraints.{Values, Constraint, allowed_values}
use heat.Parameters.Schema.{string_type, Schema, from_dict}
use heat.Parameters.Parameter.{Parameter, new_parameter, value_of}

abbrev pub is_obj : Json → Bool
is_obj (obj fs) = true
is_obj _ = false

abbrev pub all_dicts : Dict Text Json → Res (Unit {0})
all_dicts [] = returns tt
all_dicts ((name, attrs) ∷ params) =
    if is_obj attrs then all_dicts params else raises invalid_template_parameter

-- The section of the parameters under the first of the two names.
unfoldable pub parameter_section : Dict Text Json → Option Json
parameter_section [] = none
parameter_section ((k, v) ∷ t) =
    if k == codes "Parameters" || k == codes "parameters" then some v else parameter_section t

-- `_validate_tmpl_parameters()`
unfoldable pub validate_template : Dict Text Json → Res (Unit {0})
unfolding parameter_section
validate_template t = elim (parameter_section t) [
  | none ↦ returns tt
  | some (obj params) ↦ all_dicts (fields params)
  | some _ ↦ raises attribute_error
]

-- `_validate(user_params)`
unfoldable pub validate_names : Dict Text Schema → Dict Text Json → Res (Unit {0})
unfolding lookup
validate_names schemata [] = returns tt
validate_names schemata ((name, v) ∷ user_params) =
    if has_key name schemata
    then validate_names schemata user_params
    else raises unknown_user_parameter

module _ (values : Values) (loads : Text → Option Json)
    (compile : Text → Option (Text → Option ℕ)) where
  -- `param_schemata()`
  unfoldable pub param_schemata : Dict Text Json → Res (Dict Text Schema)
  unfolding from_dict
  param_schemata [] = returns []
  param_schemata ((name, obj d) ∷ params) = do
    schema ← from_dict values compile (fields d)
    rest ← param_schemata params
    returns ((name, schema) ∷ rest)
  param_schemata ((name, _) ∷ params) = raises attribute_error

  abbrev pub given : Text → Dict Text Json → Json
  unfolding lookup
  given name user_params = elim (lookup name user_params) [ none ↦ null | some v ↦ v ]

  -- `dict((p.name, p) for p in user_parameters)`, on top of the pseudo parameters
  unfoldable pub user_parameters :
      Dict Text Parameter → Dict Text Json → Bool → Dict Text Schema → Res (Dict Text Parameter)
  unfolding put given new_parameter
  user_parameters done user_params validate [] = returns done
  user_parameters done user_params validate ((name, schema) ∷ schemata) = do
    p ← new_parameter values loads name schema (given name user_params) validate
    user_parameters (put name p done) user_params validate schemata

  abbrev pub pseudo_schema : Text → List Constraint → Schema
  pseudo_schema default cs = record {
    data_type = string_type;
    default = text default;
    constraints = cs;
    hidden = false;
  }

  abbrev pub regions : List Json
  regions =
      text (codes "us-east-1")
      ∷ text (codes "us-west-1")
      ∷ text (codes "us-west-2")
      ∷ text (codes "sa-east-1")
      ∷ text (codes "eu-west-1")
      ∷ text (codes "ap-southeast-1")
      ∷ text (codes "ap-northeast-1")
      ∷ []

  abbrev pub pseudo : Text → Text → List Constraint → Parameter
  pseudo name default cs = record {
    name = name;
    schema = pseudo_schema default cs;
    user_value = null;
    parsed = text default;
  }

  -- `_pseudo_parameters(stack_identifier)`, the identifier being an ARN and the name of the stack
  unfoldable pub pseudo_parameters : Option (Text × Text) → Dict Text Parameter
  pseudo_parameters none =
      (codes "AWS::StackId", pseudo (codes "AWS::StackId") (codes "None") []) ∷ []
  pseudo_parameters (some (arn, [])) =
      (codes "AWS::StackId", pseudo (codes "AWS::StackId") arn []) ∷ []
  pseudo_parameters (some (arn, c ∷ stack_name)) =
      (codes "AWS::StackId", pseudo (codes "AWS::StackId") arn [])
      ∷ (codes "AWS::StackName", pseudo (codes "AWS::StackName") (c ∷ stack_name) [])
      ∷ (
        codes "AWS::Region",
        pseudo (codes "AWS::Region") (codes "ap-southeast-1") (allowed_values regions ∷ []),
      )
      ∷ []

  -- `Parameters(stack_identifier, tmpl, user_params, validate_value)`; `section` is the section of the
  -- parameters in the template `t`.
  unfoldable pub new_parameters :
      Option (Text × Text)
      → Dict Text Json
      → Dict Text Json
      → Dict Text Json
      → Bool
      → Res (Dict Text Parameter)
  unfolding validate_template validate_names param_schemata user_parameters pseudo_parameters
  new_parameters identifier t section user_params validate = do
    checked ← validate_template t
    schemata ← param_schemata section
    known ← validate_names schemata user_params
    user_parameters (pseudo_parameters identifier) user_params validate schemata

  -- `set_stack_id(stack_identifier)`: the default of the schema changes, and with it the value.
  abbrev pub with_default : Text → Parameter → Parameter
  with_default arn p = record p { schema = record p.schema { default = text arn } }

  unfoldable pub set_stack_id : Option Text → Dict Text Parameter → Res (Dict Text Parameter)
  unfolding put lookup
  set_stack_id none params = returns params
  set_stack_id (some arn) params = do
    p ← from_option key_error (lookup (codes "AWS::StackId") params)
    returns (put (codes "AWS::StackId") (with_default arn p) params)

  -- `key in params` and `params[key]`
  unfoldable pub mapping : Dict Text Parameter → Params
  unfolding lookup value_of
  mapping params = record {
    has = λ key. has_key key params;
    get = λ key. from_option key_error (lookup key params) >>= value_of values loads;
  }
