-- ===== src/Template/StrReplace.antt =====
-- `str_replace` of hot.py. `str_of` is `str` of a list or a dict.
use heat.Prelude.{
  Bool, true, false, ◌&&◌, ◌||◌, Option, none, some, [], ◌∷◌, Text, codes, ◌==◌, list_eq, nat_eq,
  ltb, pos, int_beq, replace_text, str_int, if◌then◌else◌,
}
use heat.Dict.{Dict, lookup}
use heat.Template.Json.{
  Json, null, bool, int, float, text, arr, obj, nil, end, items, fields, Res, returns, raises,
  type_error, value_error, key_error, ◌>>=◌, two,
}
use heat.Template.Resolve.{Resolver, resolve}

abbrev pub is_ascii : Text → Bool
is_ascii [] = true
is_ascii (c ∷ s) = ltb c 128 && is_ascii s

-- `str(params.get(key, '') or "")`: zero, False, and what is empty are the empty string, and `str` of a
-- string that is not ASCII raises a UnicodeEncodeError, which is a ValueError.
unfoldable pub string_of : (str_of : Json → Text) → Json → Res Text
unfolding str_int
string_of str_of null = returns []
string_of str_of (bool true) = returns (codes "True")
string_of str_of (bool false) = returns []
string_of str_of (int i) = returns (if int_beq i (pos 0) then [] else str_int i)
string_of str_of (float x) = returns (if x == codes "0.0" || x == codes "-0.0" then [] else x)
string_of str_of (text s) = if is_ascii s then returns s else raises value_error
string_of str_of (arr nil) = returns []
string_of str_of (arr xs) = returns (str_of (arr xs))
string_of str_of (obj end) = returns []
string_of str_of (obj fs) = returns (str_of (obj fs))

-- The loop over `params.iterkeys()`.
unfoldable pub str_replace_all : (str_of : Json → Text) → Dict Text Json → Text → Res Text
unfolding string_of
str_replace_all str_of [] s = returns s
str_replace_all str_of ((k, v) ∷ params) s = do
  new ← string_of str_of v
  str_replace_all str_of params (replace_text k new s)

abbrev pub or_end : Option Json → Json
or_end none = obj end
or_end (some v) = v

abbrev pub or_null : Option Json → Json
or_null none = null
or_null (some v) = v

-- The parameters and the text of the template
unfoldable pub str_replace_args : Json → Res (Json × Json)
unfolding lookup
str_replace_args (obj fs) =
    returns (
      or_end (lookup (codes "params") (fields fs)),
      or_null (lookup (codes "template") (fields fs)),
    )
str_replace_args (arr xs) = two (items xs)
str_replace_args _ = raises type_error

unfoldable pub str_replace_in : (str_of : Json → Text) → Json → Json → Res Json
unfolding str_replace_all
str_replace_in str_of params null = raises key_error
str_replace_in str_of (obj params) (text s) = do
  t ← str_replace_all str_of (fields params) s
  returns (text t)
str_replace_in str_of _ _ = raises type_error

unfoldable pub handle_str_replace : (str_of : Json → Text) → Json → Res Json
unfolding str_replace_args str_replace_in
handle_str_replace str_of args = do
  parts ← str_replace_args args
  str_replace_in str_of parts.0 parts.1

abbrev pub match_str_replace : Text → Json → Res Bool
match_str_replace k v = returns (k == codes "str_replace" || k == codes "Fn::Replace")

unfoldable pub hot_replace : (str_of : Json → Text) → Resolver
unfolding handle_str_replace resolve
hot_replace str_of transform s =
    resolve match_str_replace (λ v. handle_str_replace str_of v) transform s
