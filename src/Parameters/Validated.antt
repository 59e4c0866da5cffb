-- ===== src/Parameters/Validated.antt =====
-- What the validation of a parameter promises about its value.
use heat.Prelude.{
  true, false, ◌||◌, ◌≡◌, ◌≢◌, ◌↔◌, inl, inr, refl, subst, Option, some, Text, ℤ, ◌≤ℤ◌,
  if◌then◌else◌, Bool-cases, arith,
}
use heat.Template.Json.{Json, null, int, Res, returns, bind-eq-returns}
use heat.Parameters.Constraints.{
  Values, range, is_none, str_to_num, in_range, is_valid, validate, validate_constraints,
}
use heat.Parameters.Schema.{ParamType, string_type, number_type, list_type, map_type, Schema}
use heat.Parameters.Parameter.{
  Parameter, is_truthy, parse, validate_value, has_default, validate_all, or_default, parsed_of,
  new_parameter, value_of,
}

-- A range of integers admits the integers from its least to its greatest, and no others.
pub validate-range_iff :
    (values : Values) (least most v : ℤ)
    → (validate values (range (some (int least)) (some (int most))) (int v) ≡ returns tt)
      ↔ (least ≤ℤ v × v ≤ℤ most)
unfolding validate is_valid in_range str_to_num
validate-range_iff values least most v =
    ground (arith, values.less_int v least, values.less_int most v)

truthy_given : (value : Json) → is_truthy value ≡ true → is_none value ≡ false
truthy_given null h = ground arith
truthy_given _ h = refl

module _ (values : Values) (loads : Text → Option Json) (name : Text) (schema : Schema)
    (value : Json) where
  validate_all-value :
      validate_all values loads name schema value ≡ returns tt
      → is_none value ≡ false
      → validate_value values loads schema value ≡ returns tt
  unfolding validate_all
  validate_all-value h given =
      let b =
        bind-eq-returns
          (if has_default values loads schema
            then validate_value values loads schema schema.default
            else returns tt)
          _ h in
      ground (arith, b.2, given)

  validate_all-default :
      validate_all values loads name schema value ≡ returns tt
      → has_default values loads schema ≡ true
      → validate_value values loads schema schema.default ≡ returns tt
  unfolding validate_all
  validate_all-default h given =
      let b =
        bind-eq-returns
          (if has_default values loads schema
            then validate_value values loads schema schema.default
            else returns tt)
          _ h in
      ground (arith, b.1, given)

  kept : is_truthy value ≡ true → or_default values loads value schema ≡ value
  kept h = ground arith

  replaced : is_truthy value ≡ false → or_default values loads value schema ≡ schema.default
  replaced h = ground arith

  validate_all-or_default :
      validate_all values loads name schema value ≡ returns tt
      → (is_truthy value || has_default values loads schema) ≡ true
      → validate_value values loads schema (or_default values loads value schema) ≡ returns tt
  validate_all-or_default h some_value = elim (Bool-cases (is_truthy value)) [
    | inl t ↦ rw (kept t) (validate_all-value h (truthy_given value t))
    | inr f ↦ rw (replaced f) (validate_all-default h (ground (arith, f, some_value)))
  ]

  abbrev record_of : Json → Parameter
  record_of parsed = record { name = name; schema = schema; user_value = value; parsed = parsed }

  returned :
      (q : Json) (p : Parameter)
      → ◌≡◌ {A = Res Parameter} (returns (record_of q)) (returns p)
      → p ≡ record_of q
  returned q p h = ground arith

  built :
      (t : ParamType)
      → schema.data_type ≡ t
      → (q v : Json) → validate_all values loads name schema value ≡ returns tt
      → parsed_of values loads schema value ≡ returns q
      → (is_truthy value || has_default values loads schema) ≡ true
      → schema.data_type ≢ number_type
      → value_of values loads (record_of q) ≡ returns v
      → validate_constraints values schema.constraints v ≡ returns tt
  unfolding value_of validate_value parse
  built string_type e q v h parsed some_value no_number is_value =
      elim (Bool-cases (is_none value)) [
        | inl n ↦ ground (arith, e, n, validate_all-default h)
        | inr n ↦ ground (arith, e, n, validate_all-value h n)
      ]
  built number_type e q v h parsed some_value no_number is_value = absurd (no_number e)
  built list_type e q v h parsed some_value no_number is_value =
      ground (arith, e, validate_all-or_default h some_value)
  built map_type e q v h parsed some_value no_number is_value =
      ground (arith, e, validate_all-or_default h some_value)

  -- The value of a new parameter that is no number and that was built with `validate_value` satisfies
  -- all constraints of its schema, if a value other than an empty one is given or the schema has a
  -- default.
  pub new_parameter-validate_constraints :
      (p : Parameter) (v : Json)
      → new_parameter values loads name schema value true ≡ returns p
      → (is_truthy value || has_default values loads schema) ≡ true
      → schema.data_type ≢ number_type
      → value_of values loads p ≡ returns v
      → validate_constraints values schema.constraints v ≡ returns tt
  unfolding new_parameter
  new_parameter-validate_constraints p v h some_value no_number is_value =
      let b = bind-eq-returns (validate_all values loads name schema value) _ h in
      let c = bind-eq-returns (parsed_of values loads schema value) _ b.2 in
      built schema.data_type refl c.0 v b.1 c.1 some_value no_number
        (subst (λ r. value_of values loads r ≡ returns v) (returned c.0 p c.2) is_value)
