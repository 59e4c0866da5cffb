-- ===== src/Resource/Requirements.antt =====
-- Which resources a resource requires: `_add_dependencies` and `add_dependencies` of resource.py, over
-- the resource's part of the template.
use heat.Prelude.{
  Bool, true, false, ◌||◌, Option, none, some, List, [], ◌∷◌, ◌++◌, Text, codes, ◌==◌, list_eq,
  nat_eq, pos, member, if◌then◌else◌,
}
use heat.Dict.{Dict}
use heat.Template.Json.{
  Json, null, bool, int, float, text, arr, obj, Items, nil, cons, Fields, end, field, items, Res,
  returns, raises, key_error, invalid_template_reference, ◌>>=◌,
}
use heat.Template.References.{get_item, subscript}

abbrev pub reference_keys : List Text
reference_keys =
    codes "DependsOn"
    ∷ codes "Ref"
    ∷ codes "Fn::GetAtt"
    ∷ codes "get_attr"
    ∷ codes "get_resource"
    ∷ []

abbrev pub is_list : Json → Bool
is_list (arr xs) = true
is_list _ = false

abbrev pub listed : Json → List Json
listed (arr xs) = items xs
listed v = v ∷ []

-- `res_list`
unfoldable pub res_list : Text → Json → Res (List Json)
unfolding subscript
res_list key value =
    if key == codes "Fn::GetAtt" || key == codes "get_attr"
    then (do res_name ← subscript value (int (pos 0)); returns (res_name ∷ []))
    else returns (if key == codes "DependsOn" then listed value else value ∷ [])

-- The stack has a resource under each name, whose `strict_dependency` is the Boolean.
module _ (stack : Dict Text Bool) where
  abbrev pub or_invalid_reference : Res Bool → Res Bool
  or_invalid_reference (raises key_error) = raises invalid_template_reference
  or_invalid_reference r = r

  abbrev pub named : Json → List Text
  named (text s) = s ∷ []
  named _ = []

  -- The loop over `res_list`: the names of the targets
  unfoldable pub targets : Text → List Json → Res (List Text)
  targets key [] = returns []
  targets key (res ∷ rest) = do
    strict ← or_invalid_reference (get_item res stack)
    others ← targets key rest
    returns (if key == codes "DependsOn" || strict then named res ++ others else others)

  unfoldable mutual
    unfolding targets res_list

    -- `_add_dependencies(deps, path, fragment)`
    pub requirements : Json → Res (List Text)
    requirements (obj fs) = field_requirements fs
    requirements (arr xs) = item_requirements xs
    requirements null = returns []
    requirements (bool b) = returns []
    requirements (int i) = returns []
    requirements (float x) = returns []
    requirements (text s) = returns []

    pub field_requirements : Fields → Res (List Text)
    field_requirements end = returns []
    field_requirements (field key value fs) =
        let here = (do rs ← res_list key value; targets key rs) in
        let deeper = requirements value in
        do
          first ← (if member key reference_keys then here else deeper)
          others ← field_requirements fs
          returns (first ++ others)

    pub item_requirements : Items → Res (List Text)
    item_requirements nil = returns []
    item_requirements (cons x xs) = do
      first ← requirements x
      others ← item_requirements xs
      returns (first ++ others)

  -- `add_dependencies(deps)`, as the edges that are added for the resource `name`
  abbrev pub edges_to : Text → List Text → List (Text × Option Text)
  edges_to name [] = []
  edges_to name (target ∷ rest) = (name, some target) ∷ edges_to name rest

  unfoldable pub add_dependencies : Text → Json → Res (List (Text × Option Text))
  unfolding requirements
  add_dependencies name t = do
    names ← requirements t
    returns (edges_to name names ++ (name, none) ∷ [])
