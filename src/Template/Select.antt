-- ===== src/Template/Select.antt =====
-- Fn::Select of template.py. `loads` is `json.loads`.
use heat.Prelude.{
  ℕ, zero, suc, ◌-◌, true, false, Option, none, some, List, [], ◌∷◌, Text, codes, list_eq, nat_eq,
  ℤ, pos, negsuc, ltb, length, parse_int, if◌then◌else◌,
}
use heat.Dict.{lookup}
use heat.Template.Json.{
  Json, null, bool, int, text, arr, obj, items, fields, Res, returns, raises, type_error,
  value_error, from_option, ◌>>=◌, two,
}
use heat.Template.Resolve.{Resolver, resolve}
use heat.Template.Texts.{is_key}

pub data Index : Type 0 where
  at : ℤ → Index
  under : Text → Index

-- `index`: the lookup as an integer, or the string.
unfoldable pub index_of : Json → Res Index
unfolding parse_int
index_of (int i) = returns (at i)
index_of (bool true) = returns (at (pos 1))
index_of (bool false) = returns (at (pos 0))
index_of (text s) = elim (parse_int s) [ some i ↦ returns (at i) | none ↦ returns (under s) ]
index_of _ = raises type_error

unfoldable pub nth {ℓ} : {A : Type ℓ} → ℕ → List A → Option A
nth n [] = none
nth zero (x ∷ xs) = some x
nth (suc n) (x ∷ xs) = nth n xs

-- `xs[i]`; a negative index counts from the end.
unfoldable pub at_index {ℓ} : {A : Type ℓ} → ℤ → List A → Option A
unfolding nth
at_index (pos n) xs = nth n xs
at_index (negsuc n) xs = if ltb n (length xs) then nth (length xs - suc n) xs else none

abbrev pub or_empty : Option Json → Json
or_empty none = text []
or_empty (some v) = v

unfoldable pub pick : Index → Json → Res Json
unfolding at_index lookup
pick (at i) (arr xs) = returns (or_empty (at_index i (items xs)))
pick (under k) (obj fs) = returns (or_empty (lookup k (fields fs)))
pick _ null = returns (text [])
pick _ _ = raises type_error

-- From the test `strings == ''` on.
unfoldable pub select_from : (loads : Text → Option Json) → Index → Json → Res Json
unfolding pick
select_from loads index (text []) = returns (text [])
select_from loads index (text (c ∷ s)) = from_option value_error (loads (c ∷ s)) >>= pick index
select_from loads index strings = pick index strings

unfoldable pub handle_select : (loads : Text → Option Json) → Json → Res Json
unfolding index_of select_from
handle_select loads (arr xs) = do
  two_args ← two (items xs)
  index ← index_of two_args.0
  select_from loads index two_args.1
handle_select loads _ = raises type_error

unfoldable pub resolve_select : (loads : Text → Option Json) → Resolver
unfolding handle_select resolve
resolve_select loads transform s =
    resolve (is_key (codes "Fn::Select")) (λ v. handle_select loads v) transform s
