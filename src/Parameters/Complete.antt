-- ===== src/Parameters/Complete.antt =====
-- The names of the parameters of a stack.
use heat.Prelude.{
  ℕ, Bool, true, ◌||◌, ◌≡◌, sym, ◌∙◌, Option, [], ◌∷◌, Text, ◌==◌, list_eq, nat_eq, All, arith,
}
use heat.Dict.{Dict, lookup, put, has_key, lookup-put}
use heat.Template.Json.{
  Json, null, bool, int, float, text, arr, obj, fields, returns, bind-eq-returns,
}
use heat.Parameters.Constraints.{Values}
use heat.Parameters.Schema.{Schema, from_dict}
use heat.Parameters.Parameter.{Parameter, new_parameter}
use heat.Parameters.Container.{
  validate_template, validate_names, param_schemata, given, user_parameters, pseudo_parameters,
  new_parameters,
}

has_key-put {ℓ} :
    {V : Type ℓ} (k j : Text) (v : V) (d : Dict Text V)
    → has_key j (put k v d) ≡ (k == j || has_key j d)
has_key-put k j v d = rw (lookup-put k j v d) ground arith

has_key-cons {ℓ} :
    {V : Type ℓ} (k j : Text) (v : V) (d : Dict Text V)
    → has_key j ((k, v) ∷ d) ≡ (k == j || has_key j d)
unfolding lookup
has_key-cons k j v d = ground arith

validate_names-All :
    (schemata : Dict Text Schema) (user_params : Dict Text Json)
    → validate_names schemata user_params ≡ returns tt
    → All (λ kv. has_key kv.0 schemata ≡ true) user_params
unfolding validate_names
validate_names-All schemata [] h = tt
validate_names-All schemata ((name, v) ∷ user_params) h =
    (ground arith, validate_names-All schemata user_params (ground arith))

module _ (values : Values) (loads : Text → Option Json)
    (compile : Text → Option (Text → Option ℕ)) where
  param_schemata-keys :
      (section : Dict Text Json) (schemata : Dict Text Schema) (name : Text)
      → param_schemata values loads compile section ≡ returns schemata
      → has_key name schemata ≡ has_key name section
  unfolding param_schemata
  param_schemata-keys [] schemata name h = ground arith
  param_schemata-keys ((k, obj d) ∷ section) schemata name h =
      let a = bind-eq-returns (from_dict values compile (fields d)) _ h in
      let b = bind-eq-returns (param_schemata values loads compile section) _ a.2 in
      ground (
        arith,
        b.2,
        param_schemata-keys section b.0 name b.1,
        has_key-cons k name a.0 b.0,
        has_key-cons k name (obj d) section,
      )
  param_schemata-keys ((k, null) ∷ section) schemata name h = ground arith
  param_schemata-keys ((k, bool b) ∷ section) schemata name h = ground arith
  param_schemata-keys ((k, int i) ∷ section) schemata name h = ground arith
  param_schemata-keys ((k, float x) ∷ section) schemata name h = ground arith
  param_schemata-keys ((k, text s) ∷ section) schemata name h = ground arith
  param_schemata-keys ((k, arr xs) ∷ section) schemata name h = ground arith

  user_parameters-keys :
      (done : Dict Text Parameter) (user_params : Dict Text Json) (validate : Bool)
      (schemata : Dict Text Schema) (params : Dict Text Parameter) (name : Text)
      → user_parameters values loads compile done user_params validate schemata ≡ returns params
      → has_key name params ≡ (has_key name schemata || has_key name done)
  unfolding user_parameters
  user_parameters-keys done user_params validate [] params name h = ground arith
  user_parameters-keys done user_params validate ((k, schema) ∷ schemata) params name h =
      let a =
        bind-eq-returns
          (new_parameter values loads k schema (given values loads compile k user_params) validate)
          _ h in
      ground (
        arith,
        user_parameters-keys (put k a.0 done) user_params validate schemata params name a.2,
        has_key-put k name a.0 done,
        has_key-cons k name schema schemata,
      )

  -- If the parameters of a stack can be made, then the user gave no parameter that the template lacks,
  -- and the parameters are those of the template together with the pseudo parameters.
  pub new_parameters-keys :
      (identifier : Option (Text × Text)) (t section user_params : Dict Text Json) (validate : Bool)
      (params : Dict Text Parameter)
      → new_parameters values loads compile identifier t section user_params validate
        ≡ returns params
      → All (λ kv. has_key kv.0 section ≡ true) user_params
        × ((name : Text)
            → has_key name params ≡ (
                has_key name section
                || has_key name (pseudo_parameters values loads compile identifier)))
  unfolding new_parameters
  new_parameters-keys identifier t section user_params validate params h =
      let a = bind-eq-returns (validate_template t) _ h in
      let b = bind-eq-returns (param_schemata values loads compile section) _ a.2 in
      let c = bind-eq-returns (validate_names b.0 user_params) _ b.2 in
      (
        known user_params b.0 (λ name. param_schemata-keys section b.0 name b.1)
            (validate_names-All b.0 user_params c.1),
        λ name. ground (
          arith,
          user_parameters-keys (pseudo_parameters values loads compile identifier) user_params
              validate b.0 params name c.2,
          param_schemata-keys section b.0 name b.1,
        ),
      )
    where
      known :
          (user_params : Dict Text Json) (schemata : Dict Text Schema)
          → ((name : Text) → has_key name schemata ≡ has_key name section)
          → All (λ kv. has_key kv.0 schemata ≡ true) user_params
          → All (λ kv. has_key kv.0 section ≡ true) user_params
      known [] schemata same all = tt
      known ((k, v) ∷ rest) schemata same all =
          (sym (same k) ∙ all.0, known rest schemata same all.1)
