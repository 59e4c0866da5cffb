-- ===== src/Template/Json.antt =====
-- The values of a parsed template, and what Python does with them: results with exceptions as values.
use heat.Prelude.{
  Bool, true, false, Option, none, some, List, [], ◌∷◌, ℤ, Text, list_eq, nat_eq, ◌≡◌, refl, ap,
  arith,
}
use heat.Dict.{Dict}

mutual
  pub data Json : Type 0 where
    null : Json
    bool : Bool → Json
    int : ℤ → Json
    -- a float is known by its `str`
    float : Text → Json
    text : Text → Json
    arr : Items → Json
    obj : Fields → Json

  pub data Items : Type 0 where
    nil : Items
    cons : Json → Items → Items

  pub data Fields : Type 0 where
    end : Fields
    field : Text → Json → Fields → Fields

abbrev pub items : Items → List Json
items nil = []
items (cons x xs) = x ∷ items xs

abbrev pub from_items : List Json → Items
from_items [] = nil
from_items (x ∷ xs) = cons x (from_items xs)

pub items-from_items : (xs : List Json) → items (from_items xs) ≡ xs
items-from_items [] = refl
items-from_items (x ∷ xs) = ap (λ ys. x ∷ ys) (items-from_items xs)

-- `d.items()`
abbrev pub fields : Fields → Dict Text Json
fields end = []
fields (field k v fs) = (k, v) ∷ fields fs

abbrev pub from_fields : Dict Text Json → Fields
from_fields [] = end
from_fields ((k, v) ∷ kvs) = field k v (from_fields kvs)

pub data Error : Type 0 where
  type_error value_error key_error index_error attribute_error : Error
  -- a local variable that was never assigned
  name_error : Error
  -- the RuntimeError of a recursion that is too deep
  recursion_error : Error
  user_parameter_missing : Json → Error
  invalid_template_attribute : Error
  -- InvalidTemplateReference
  invalid_template_reference : Error
  -- InvalidSchemaError, UnknownUserParameter, InvalidTemplateParameter, and the error of `re.compile`
  invalid_schema unknown_user_parameter invalid_template_parameter pattern_error : Error

pub data Res {ℓ} (A : Type ℓ) : Type ℓ where
  returns : A → Res A
  raises : Error → Res A

infixl 5 ◌>>=◌
abbrev pub ◌>>=◌ {ℓ κ} : {A : Type ℓ} {B : Type κ} → Res A → (A → Res B) → Res B
returns a >>= f = f a
raises e >>= f = raises e

pub bind-eq-returns {ℓ κ} :
    {A : Type ℓ} {B : Type κ} (r : Res A) (f : A → Res B) {b : B}
    → (r >>= f) ≡ returns b
    → (a : A) × (r ≡ returns a) × (f a ≡ returns b)
bind-eq-returns (returns a) f h = (a, refl, h)
bind-eq-returns (raises e) f h = ground arith

abbrev pub from_option {ℓ} : {A : Type ℓ} → Error → Option A → Res A
from_option e none = raises e
from_option e (some a) = returns a

-- `isinstance(v, basestring)`
abbrev pub is_text : Json → Bool
is_text (text s) = true
is_text _ = false

-- `hash(v)` raises a TypeError for lists and dicts, which no key test survives.
abbrev pub is_hashable : Json → Bool
is_hashable (arr xs) = false
is_hashable (obj fs) = false
is_hashable _ = true

-- A key is a string; a value of another type is no key.
abbrev pub key_of : Json → Option Text
key_of (text s) = some s
key_of _ = none

-- The two values of a list that is unpacked into two names.
abbrev pub two : List Json → Res (Json × Json)
two (x ∷ y ∷ []) = returns (x, y)
two _ = raises value_error
