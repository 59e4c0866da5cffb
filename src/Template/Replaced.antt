-- ===== src/Template/Replaced.antt =====
-- The two ways to replace variables in a string: Fn::Replace and str_replace.
use heat.Prelude.{
  list_eq, nat_eq, true, ◌≡◌, refl, [], ◌∷◌, some, Text, codes, All, replace_text, ap,
}
use heat.Dict.{Dict, lookup}
use heat.Template.Json.{
  Json, null, bool, int, float, text, arr, obj, Fields, fields, from_fields, Res, returns, raises,
  ◌>>=◌,
}
use heat.Template.Texts.{pair, replacement, replace_all, handle_replace}
use heat.Template.StrReplace.{
  is_ascii, string_of, str_replace_all, str_replace_args, str_replace_in, handle_str_replace,
}

-- None, or a string of ASCII characters.
abbrev pub IsAsciiText : Json → Type 0
IsAsciiText null = Unit
IsAsciiText (text s) = is_ascii s ≡ true
IsAsciiText _ = ⊥

string_of-replacement :
    (str_of : Json → Text) (v : Json) → IsAsciiText v → string_of str_of v ≡ replacement v
unfolding string_of
string_of-replacement str_of null h = refl
string_of-replacement str_of (text s) h = rw h refl
string_of-replacement str_of (bool b) h = absurd h
string_of-replacement str_of (int i) h = absurd h
string_of-replacement str_of (float x) h = absurd h
string_of-replacement str_of (arr xs) h = absurd h
string_of-replacement str_of (obj fs) h = absurd h

bind_cong {ℓ κ} :
    {A : Type ℓ} {B : Type κ} (r : Res A) {f g : A → Res B}
    → ((a : A) → f a ≡ g a)
    → (r >>= f) ≡ (r >>= g)
bind_cong (returns a) h = h a
bind_cong (raises e) h = refl

str_replace_all-replace_all :
    (str_of : Json → Text) (params : Dict Text Json) (s : Text)
    → All (λ kv. IsAsciiText kv.1) params
    → str_replace_all str_of params s ≡ replace_all params s
unfolding str_replace_all replace_all
str_replace_all-replace_all str_of [] s h = refl
str_replace_all-replace_all str_of ((k, v) ∷ params) s h = rw (string_of-replacement str_of v h.0) (
    bind_cong (replacement v)
      (λ new. str_replace_all-replace_all str_of params (replace_text k new s) h.1))

fields-from_fields : (d : Dict Text Json) → fields (from_fields d) ≡ d
fields-from_fields [] = refl
fields-from_fields ((k, v) ∷ d) = ap (λ e. (k, v) ∷ e) (fields-from_fields d)

-- If each value of the parameters is None or a string of ASCII characters, the str_replace of HOT, given
-- the list of the parameters and the text, or a dict that has the two under `params` and `template`,
-- comes to what Fn::Replace does with the list.
pub handle_str_replace-handle_replace :
    (str_of : Json → Text) (params : Dict Text Json) (s : Text)
    → All (λ kv. IsAsciiText kv.1) params
    → (args : Fields) → lookup (codes "params") (fields args) ≡ some (obj (from_fields params))
    → lookup (codes "template") (fields args) ≡ some (text s)
    → (handle_str_replace str_of (pair (obj (from_fields params)) (text s))
        ≡ handle_replace (pair (obj (from_fields params)) (text s)))
      × (handle_str_replace str_of (obj args)
          ≡ handle_replace (pair (obj (from_fields params)) (text s)))
unfolding handle_str_replace str_replace_args str_replace_in handle_replace
handle_str_replace-handle_replace str_of params s h args p t = (
  rw (fields-from_fields params, str_replace_all-replace_all str_of params s h) refl,
  rw (p, t, fields-from_fields params, str_replace_all-replace_all str_of params s h) refl,
)
