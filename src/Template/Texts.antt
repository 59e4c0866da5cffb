-- ===== src/Template/Texts.antt =====
-- The functions of template.py that work on strings: Fn::Join, Fn::Split, Fn::Replace, Fn::Base64.
use heat.Prelude.{
  Bool, true, false, List, [], ◌∷◌, ◌++◌, Text, codes, ◌==◌, list_eq, nat_eq, split, join,
  replace_text, str_int,
}
use heat.Dict.{Dict}
use heat.Template.Json.{
  Json, null, bool, int, float, text, arr, obj, field, end, items, from_items, fields, Res, returns,
  raises, type_error, value_error, attribute_error, ◌>>=◌, two,
}
use heat.Template.Resolve.{Resolver, resolve}

abbrev pub is_key : Text → Text → Json → Res Bool
is_key name k v = returns (k == name)

abbrev pub pair : Json → Json → Json
pair x y = arr (from_items (x ∷ y ∷ []))

-- `delim, items = args`, and the list of the items
abbrev pub join_args : Json → Res (Json × List Json)
join_args (arr xs) = do
  two_args ← two (items xs)
  elim two_args.1 [ arr ys ↦ returns (two_args.0, items ys) | _ ↦ raises type_error ]
join_args _ = raises type_error

-- `delim.join(values)`, of strings; the `join` of a delimiter that is no string is looked up in vain.
abbrev pub join_texts : Json → List Text → Res Json
join_texts (text delim) values = returns (text (join delim values))
join_texts _ values = raises attribute_error

-- `if contiguous: reduced.append(delim.join(contiguous))`, in front of what follows
abbrev pub flush : Json → List Text → List Json → Res (List Json)
flush delim [] rest = returns rest
flush delim (s ∷ contiguous) rest = do
  joined ← join_texts delim (s ∷ contiguous)
  returns (joined ∷ rest)

-- The loop of `reduce_joins`, with the strings that are contiguous so far.
unfoldable pub reduce_items : Json → List Text → List Json → Res (List Json)
reduce_items delim contiguous [] = flush delim contiguous []
reduce_items delim contiguous (text s ∷ rest) = reduce_items delim (contiguous ++ s ∷ []) rest
reduce_items delim contiguous (item ∷ rest) = do
  reduced ← reduce_items delim [] rest
  flush delim contiguous (item ∷ reduced)

unfoldable pub handle_reduce_join : Json → Res Json
unfolding reduce_items
handle_reduce_join args = do
  parts ← join_args args
  reduced ← reduce_items parts.0 [] parts.1
  returns (obj (field (codes "Fn::Join") (pair parts.0 (arr (from_items reduced))) end))

unfoldable pub reduce_joins : Resolver
unfolding handle_reduce_join resolve
reduce_joins transform s = resolve (is_key (codes "Fn::Join")) handle_reduce_join transform s

-- The strings that `join` takes, None being empty.
unfoldable pub values_of : List Json → Res (List Text)
values_of [] = returns []
values_of (null ∷ rest) = do values ← values_of rest; returns ([] ∷ values)
values_of (text s ∷ rest) = do values ← values_of rest; returns (s ∷ values)
values_of (item ∷ rest) = raises type_error

-- `delim.join(empty_for_none(value) for value in strings)`
unfoldable pub join_values : Json → List Json → Res Json
unfolding values_of
join_values (text delim) strings = do values ← values_of strings; returns (text (join delim values))
join_values _ strings = raises attribute_error

unfoldable pub handle_join : Json → Res Json
unfolding join_values
handle_join args = do parts ← join_args args; join_values parts.0 parts.1

unfoldable pub resolve_joins : Resolver
unfolding handle_join resolve
resolve_joins transform s = resolve (is_key (codes "Fn::Join")) handle_join transform s

-- `strings.split(delim)`, None being a separator of its own kind: runs of white space.
abbrev pub as_items : List Text → List Json
as_items [] = []
as_items (s ∷ ss) = text s ∷ as_items ss

abbrev pub split_text : (whitespace : Text → List Text) → Text → Json → Res Json
split_text whitespace s (text []) = raises value_error
split_text whitespace s (text (c ∷ delim)) =
    returns (arr (from_items (as_items (split (c ∷ delim) s))))
split_text whitespace s null = returns (arr (from_items (as_items (whitespace s))))
split_text whitespace s _ = raises type_error

unfoldable pub handle_split : (whitespace : Text → List Text) → Json → Res Json
handle_split whitespace (arr xs) = do
  two_args ← two (items xs)
  elim two_args.1 [ text s ↦ split_text whitespace s two_args.0 | _ ↦ raises type_error ]
handle_split whitespace _ = raises type_error

unfoldable pub resolve_split : (whitespace : Text → List Text) → Resolver
unfolding handle_split resolve
resolve_split whitespace transform s =
    resolve (is_key (codes "Fn::Split")) (λ v. handle_split whitespace v) transform s

-- The text that a value of Fn::Replace stands for; a Boolean is an integer to Python.
abbrev pub replacement : Json → Res Text
unfolding str_int
replacement null = returns []
replacement (bool true) = returns (codes "True")
replacement (bool false) = returns (codes "False")
replacement (int i) = returns (str_int i)
replacement (float x) = returns x
replacement (text s) = returns s
replacement (arr xs) = raises type_error
replacement (obj fs) = raises type_error

-- The loop over `mapping.items()`.
unfoldable pub replace_all : Dict Text Json → Text → Res Text
unfolding replacement
replace_all [] s = returns s
replace_all ((k, v) ∷ mapping) s = do
  new ← replacement v
  replace_all mapping (replace_text k new s)

unfoldable pub handle_replace : Json → Res Json
unfolding replace_all
handle_replace (arr xs) = do
  two_args ← two (items xs)
  elim two_args.0 [
    | obj mapping ↦ elim two_args.1 [
      | text s ↦ do t ← replace_all (fields mapping) s; returns (text t)
      | _ ↦ raises type_error
    ]
    | _ ↦ raises type_error
  ]
handle_replace _ = raises type_error

unfoldable pub resolve_replace : Resolver
unfolding handle_replace resolve
resolve_replace transform s = resolve (is_key (codes "Fn::Replace")) handle_replace transform s

unfoldable pub handle_base64 : Json → Res Json
handle_base64 (text s) = returns (text s)
handle_base64 _ = raises type_error

unfoldable pub resolve_base64 : Resolver
unfolding handle_base64 resolve
resolve_base64 transform s = resolve (is_key (codes "Fn::Base64")) handle_base64 transform s
