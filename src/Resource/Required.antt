-- ===== src/Resource/Required.antt =====
-- What a resource requires: all that its part of the template refers to.
use heat.Prelude.{
  Bool, true, false, ◌||◌, ◌≡◌, refl, subst, sym, some, List, [], ◌∷◌, ◌++◌, Text, codes, ◌==◌,
  list_eq, nat_eq, member, member-append, beq_refl, if◌then◌else◌, if_ind, All, arith,
}
use heat.Dict.{Dict, lookup, has_key}
use heat.Template.Json.{
  Json, null, bool, int, float, text, arr, obj, Items, nil, cons, Fields, end, field, Res, returns,
  raises, ◌>>=◌, from_option, key_error,
}
use heat.Template.References.{get_item}
use heat.Resource.Requirements.{
  reference_keys, res_list, or_invalid_reference, named, targets, requirements, field_requirements,
  item_requirements,
}

-- A reference by Ref or get_resource to the name stands in the snippet, and not below a key that is
-- itself a reference, such as Fn::GetAtt or DependsOn.
mutual
  pub data Mentions (name : Text) : Json → Type 0 where
    in_dict : {fs : Fields} → FieldMentions name fs → Mentions name (obj fs)
    in_list : {xs : Items} → ItemMentions name xs → Mentions name (arr xs)

  pub data FieldMentions (name : Text) : Fields → Type 0 where
    ref : {fs : Fields} → FieldMentions name (field (codes "Ref") (text name) fs)
    get_resource : {fs : Fields} → FieldMentions name (field (codes "get_resource") (text name) fs)
    within :
        {key : Text} {v : Json} {fs : Fields}
        → member key reference_keys ≡ false
        → Mentions name v
        → FieldMentions name (field key v fs)
    behind :
        {key : Text} {v : Json} {fs : Fields}
        → FieldMentions name fs
        → FieldMentions name (field key v fs)

  pub data ItemMentions (name : Text) : Items → Type 0 where
    first : {x : Json} {xs : Items} → Mentions name x → ItemMentions name (cons x xs)
    later : {x : Json} {xs : Items} → ItemMentions name xs → ItemMentions name (cons x xs)

module _ (stack : Dict Text Bool) where
  -- Sound: each target is in the stack.
  abbrev InStack : Text → Type 0
  InStack name = has_key name stack ≡ true

  All-append : (xs ys : List Text) → All InStack xs → All InStack ys → All InStack (xs ++ ys)
  All-append [] ys hx hy = hy
  All-append (x ∷ xs) ys hx hy = (hx.0, All-append xs ys hx.1 hy)

  -- Each target, if there is a result.
  abbrev pub Sound : Res (List Text) → Type 0
  Sound (returns names) = All InStack names
  Sound (raises e) = Unit

  Sound-bind {ℓ} :
      {A : Type ℓ} (r : Res A) (k : A → Res (List Text))
      → ((a : A) → r ≡ returns a → Sound (k a))
      → Sound (r >>= k)
  Sound-bind (returns a) k h = h a refl
  Sound-bind (raises e) k h = tt

  named-InStack :
      (res : Json) (strict : Bool)
      → or_invalid_reference stack (get_item res stack) ≡ returns strict
      → All InStack (named stack res)
  unfolding get_item
  named-InStack (text s) strict h = (ground arith, tt)
  named-InStack null strict h = tt
  named-InStack (bool b) strict h = tt
  named-InStack (int i) strict h = tt
  named-InStack (float x) strict h = tt
  named-InStack (arr xs) strict h = tt
  named-InStack (obj fs) strict h = tt

  of_eq :
      (r : Res (List Text)) (names : List Text) → r ≡ returns names → Sound r → All InStack names
  of_eq r names h sound = subst Sound h sound

  both : (r s : Res (List Text)) → Sound r → Sound s → Sound (do x ← r; y ← s; returns (x ++ y))
  both (returns x) (returns y) hx hy = All-append x y hx hy
  both (returns x) (raises e) hx hy = tt
  both (raises e) s hx hy = tt

  targets-Sound : (key : Text) (rs : List Json) → Sound (targets stack key rs)
  unfolding targets
  targets-Sound key [] = tt
  targets-Sound key (res ∷ rest) =
      Sound-bind (or_invalid_reference stack (get_item res stack)) _ (λ strict s.
        Sound-bind (targets stack key rest) _ (λ others o.
          if_ind (All InStack) (key == codes "DependsOn" || strict)
            (λ _.
              All-append (named stack res) others (named-InStack res strict s)
                (of_eq (targets stack key rest) others o (targets-Sound key rest)))
            (λ _. of_eq (targets stack key rest) others o (targets-Sound key rest))))

  mutual
    unfolding requirements

    requirements-Sound : (d : Json) → Sound (requirements stack d)
    requirements-Sound (obj fs) = field_requirements-Sound fs
    requirements-Sound (arr xs) = item_requirements-Sound xs
    requirements-Sound null = tt
    requirements-Sound (bool b) = tt
    requirements-Sound (int i) = tt
    requirements-Sound (float x) = tt
    requirements-Sound (text s) = tt

    field_requirements-Sound : (fs : Fields) → Sound (field_requirements stack fs)
    field_requirements-Sound end = tt
    field_requirements-Sound (field key value fs) =
        both
          (if member key reference_keys
            then (do rs ← res_list key value; targets stack key rs)
            else requirements stack value)
          (field_requirements stack fs)
          (if_ind Sound (member key reference_keys)
            (λ _. Sound-bind (res_list key value) _ (λ rs _. targets-Sound key rs))
            (λ _. requirements-Sound value))
          (field_requirements-Sound fs)

    item_requirements-Sound : (xs : Items) → Sound (item_requirements stack xs)
    item_requirements-Sound nil = tt
    item_requirements-Sound (cons x xs) =
        both (requirements stack x) (item_requirements stack xs) (requirements-Sound x)
          (item_requirements-Sound xs)

  -- Complete: a name that is mentioned is a target.
  abbrev pub Has : Text → Res (List Text) → Type 0
  Has name (returns names) = member name names ≡ true
  Has name (raises e) = Unit

  Has-bind {ℓ} :
      {A : Type ℓ} (name : Text) (r : Res A) (k : A → Res (List Text))
      → ((a : A) → r ≡ returns a → Has name (k a))
      → Has name (r >>= k)
  Has-bind name (returns a) k h = h a refl
  Has-bind name (raises e) k h = tt

  has_left :
      (name : Text) (xs ys : List Text) → member name xs ≡ true → member name (xs ++ ys) ≡ true
  has_left name xs ys h = ground (arith, member-append name xs ys)

  has_right :
      (name : Text) (xs ys : List Text) → member name ys ≡ true → member name (xs ++ ys) ≡ true
  has_right name xs ys h = ground (arith, member-append name xs ys)

  in_first :
      (name : Text) (r s : Res (List Text))
      → Has name r
      → Has name (do x ← r; y ← s; returns (x ++ y))
  in_first name (returns x) (returns y) h = has_left name x y h
  in_first name (returns x) (raises e) h = tt
  in_first name (raises e) s h = tt

  in_others :
      (name : Text) (r s : Res (List Text))
      → Has name s
      → Has name (do x ← r; y ← s; returns (x ++ y))
  in_others name (returns x) (returns y) h = has_right name x y h
  in_others name (returns x) (raises e) h = tt
  in_others name (raises e) s h = tt

  strict_target :
      (key name : Text)
      → lookup name stack ≡ some true
      → Has name (targets stack key (text name ∷ []))
  unfolding targets get_item
  strict_target key name strict =
      subst
        (λ l. Has name (
          or_invalid_reference stack (from_option key_error l) >>= λ b.
          returns (if key == codes "DependsOn" || b then name ∷ [] else [])))
        (sym strict)
        (if_ind (λ names. member name names ≡ true) (key == codes "DependsOn" || true)
          (λ _. ground (arith, beq_refl name)) (λ h. absurd (ground (arith, h))))

  mutual
    unfolding requirements

    requirements-Has :
        (name : Text) (d : Json)
        → lookup name stack ≡ some true
        → Mentions name d
        → Has name (requirements stack d)
    requirements-Has name (obj fs) strict (in_dict m) = field_requirements-Has name fs strict m
    requirements-Has name (arr xs) strict (in_list m) = item_requirements-Has name xs strict m
    requirements-Has name null strict m = elim m [ ]
    requirements-Has name (bool b) strict m = elim m [ ]
    requirements-Has name (int i) strict m = elim m [ ]
    requirements-Has name (float x) strict m = elim m [ ]
    requirements-Has name (text s) strict m = elim m [ ]

    field_requirements-Has :
        (name : Text) (fs : Fields)
        → lookup name stack ≡ some true
        → FieldMentions name fs
        → Has name (field_requirements stack fs)
    field_requirements-Has name end strict m = elim m [ ]
    field_requirements-Has name (field key (text _) fs) strict ref =
        in_first name (targets stack (codes "Ref") (text name ∷ [])) (field_requirements stack fs)
          (strict_target (codes "Ref") name strict)
    field_requirements-Has name (field key (text _) fs) strict get_resource =
        in_first name (targets stack (codes "get_resource") (text name ∷ []))
          (field_requirements stack fs) (strict_target (codes "get_resource") name strict)
    field_requirements-Has name (field key v fs) strict (within other m) = rw other (
        in_first name (requirements stack v) (field_requirements stack fs)
          (requirements-Has name v strict m))
    field_requirements-Has name (field key v fs) strict (behind m) =
        in_others name _ (field_requirements stack fs) (field_requirements-Has name fs strict m)

    item_requirements-Has :
        (name : Text) (xs : Items)
        → lookup name stack ≡ some true
        → ItemMentions name xs
        → Has name (item_requirements stack xs)
    item_requirements-Has name nil strict m = elim m [ ]
    item_requirements-Has name (cons x xs) strict (first m) =
        in_first name (requirements stack x) (item_requirements stack xs)
          (requirements-Has name x strict m)
    item_requirements-Has name (cons x xs) strict (later m) =
        in_others name (requirements stack x) (item_requirements stack xs)
          (item_requirements-Has name xs strict m)

  -- If the requirements of a snippet can be collected, each of them is a resource of the stack.
  pub requirements_sound :
      (d : Json) (names : List Text)
      → requirements stack d ≡ returns names
      → All (λ target. has_key target stack ≡ true) names
  requirements_sound d names h = of_eq (requirements stack d) names h (requirements-Sound d)

  -- If the requirements of a snippet can be collected, and the snippet mentions a strict resource of the
  -- stack by Ref or get_resource, other than below a key DependsOn, Ref, Fn::GetAtt, get_attr or
  -- get_resource, the resource is one of them.
  pub requirements_complete :
      (d : Json) (names : List Text) (name : Text)
      → requirements stack d ≡ returns names
      → lookup name stack ≡ some true
      → Mentions name d
      → member name names ≡ true
  requirements_complete d names name h strict m =
      subst (Has name) h (requirements-Has name d strict m)
