-- ===== src/Template/Members.antt =====
-- Fn::MemberListToMap of template.py, with `extract_param_pairs` and `extract_param_list` of
-- heat/api/aws/utils.py.
use heat.Prelude.{
  ℕ, Option, none, some, List, [], ◌∷◌, Text, codes, ◌==◌, list_eq, nat_eq, ltb, is_digit,
  parse_nat, split, if◌then◌else◌,
}
use heat.Dict.{Dict, lookup, put}
use heat.Template.Json.{
  Json, text, arr, obj, items, from_fields, Res, returns, raises, type_error, index_error,
  attribute_error, ◌>>=◌,
}
use heat.Template.Resolve.{Resolver, resolve}
use heat.Template.Texts.{is_key}

-- The digits that the string begins with, and the rest.
unfoldable pub span_digits : Text → Text × Text
span_digits [] = ([], [])
span_digits (c ∷ s) =
    let more = span_digits s in if is_digit c then (c ∷ more.0, more.1) else ([], c ∷ s)

-- `.*` does not match a line feed.
unfoldable pub first_line : Text → Text
first_line [] = []
first_line (c ∷ s) = if c == 10 then [] else c ∷ first_line s

unfoldable pub without_prefix : Text → Text → Option Text
without_prefix [] s = some s
without_prefix (c ∷ p) [] = none
without_prefix (c ∷ p) (d ∷ s) = if c == d then without_prefix p s else none

-- Behind the digits: a dot and the key.
abbrev pub index_and_key : Text → Text → Option (ℕ × Text)
unfolding first_line parse_nat
index_and_key digits [] = none
index_and_key digits (c ∷ key) = elim (parse_nat digits) [
  | none ↦ none
  | some i ↦ if c == 46 then some (i, first_line key) else none
]

-- `key_re.match(param_name)`: the prefix, `.member.`, an index, a dot and a key
unfoldable pub match_member : Text → Text → Option (ℕ × Text)
unfolding without_prefix span_digits index_and_key
match_member prefix name = elim (without_prefix prefix name) [
  | none ↦ none
  | some behind ↦ elim (without_prefix (codes ".member.") behind) [
    | none ↦ none
    | some rest ↦ let parts = span_digits rest in index_and_key parts.0 parts.1
  ]
]

-- `get_param_data(params)`
unfoldable pub param_data : Text → Dict Text Text → List (ℕ × Text × Text)
unfolding match_member
param_data prefix [] = []
param_data prefix ((name, value) ∷ params) = elim (match_member prefix name) [
  | none ↦ param_data prefix params
  | some (index, key) ↦ (index, key, value) ∷ param_data prefix params
]

-- `sorted(data, key=key_func)`, which is stable
unfoldable pub insert : ℕ × Text × Text → List (ℕ × Text × Text) → List (ℕ × Text × Text)
insert d [] = d ∷ []
insert (i, k, v) ((j, l, w) ∷ ds) =
    if ltb j i then (j, l, w) ∷ insert (i, k, v) ds else (i, k, v) ∷ (j, l, w) ∷ ds

unfoldable pub sort_members : List (ℕ × Text × Text) → List (ℕ × Text × Text)
unfolding insert
sort_members [] = []
sort_members (d ∷ ds) = insert d (sort_members ds)

-- `[dict(kv for di, kv in m) for mi, m in itertools.groupby(data, key_func)]`, from the group of
-- `index` on
unfoldable pub groups_from : ℕ → Dict Text Text → List (ℕ × Text × Text) → List (Dict Text Text)
unfolding put
groups_from index group [] = group ∷ []
groups_from index group ((i, k, v) ∷ ds) =
    let same = nat_eq.beq index i in
    let rest = groups_from i (put k v (if same then group else [])) ds in
    if same then rest else group ∷ rest

unfoldable pub group_members : List (ℕ × Text × Text) → List (Dict Text Text)
unfolding groups_from put
group_members [] = []
group_members ((i, k, v) ∷ ds) = groups_from i (put k v []) ds

unfoldable pub extract_param_list : Text → Dict Text Text → List (Dict Text Text)
unfolding param_data sort_members group_members
extract_param_list prefix params = group_members (sort_members (param_data prefix params))

-- `dict((p[keyname], p[valuename]) for p in plist if keyname in p and valuename in p)`, on top of `d`
unfoldable pub pairs_from : Text → Text → Dict Text Json → List (Dict Text Text) → Dict Text Json
unfolding put lookup
pairs_from keyname valuename d [] = d
pairs_from keyname valuename d (p ∷ plist) =
    pairs_from keyname valuename
      (elim (lookup keyname p) [
        | none ↦ d
        | some k ↦ elim (lookup valuename p) [ none ↦ d | some v ↦ put k (text v) d ]
      ])
      plist

unfoldable pub extract_param_pairs : Text → Text → Text → Dict Text Text → Dict Text Json
unfolding extract_param_list pairs_from
extract_param_pairs prefix keyname valuename params =
    pairs_from keyname valuename [] (extract_param_list prefix params)

-- `sp = item.split('='); partial[sp[0]] = sp[1]`
abbrev pub put_parts : List Text → Dict Text Text → Res (Dict Text Text)
unfolding put
put_parts (k ∷ v ∷ more) d = returns (put k v d)
put_parts _ d = raises index_error

unfoldable pub partial_from : Dict Text Text → List Json → Res (Dict Text Text)
unfolding put_parts
partial_from d [] = returns d
partial_from d (text s ∷ rest) = do d' ← put_parts (split (codes "=") s) d; partial_from d' rest
partial_from d (item ∷ rest) = raises attribute_error

unfoldable pub handle_member_list : List Json → Res Json
unfolding partial_from extract_param_pairs
handle_member_list (text keyname ∷ text valuename ∷ arr xs ∷ []) = do
  partial ← partial_from [] (items xs)
  returns (obj (from_fields (extract_param_pairs [] keyname valuename partial)))
handle_member_list _ = raises type_error

unfoldable pub handle_member_list_to_map : Json → Res Json
unfolding handle_member_list
handle_member_list_to_map (arr xs) = handle_member_list (items xs)
handle_member_list_to_map _ = raises type_error

unfoldable pub resolve_member_list_to_map : Resolver
unfolding handle_member_list_to_map resolve
resolve_member_list_to_map transform s =
    resolve (is_key (codes "Fn::MemberListToMap")) handle_member_list_to_map transform s
