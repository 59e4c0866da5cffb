-- ===== src/Template/RoundTrip.antt =====
-- Fn::Split, Fn::Join and Fn::Replace against one another.
use heat.Prelude.{◌≡◌, ◌≢◌, refl, List, [], ◌∷◌, Text, split, join, join-split, replace_text-split}
use heat.Template.Json.{text, arr, obj, end, field, from_items, items-from_items, returns, ◌>>=◌}
use heat.Template.Texts.{
  as_items, pair, handle_split, handle_join, join_values, values_of, handle_replace, replace_all,
}

values_of-as_items : (ss : List Text) → values_of (as_items ss) ≡ returns ss
unfolding values_of
values_of-as_items [] = refl
values_of-as_items (s ∷ ss) = rw (values_of-as_items ss) refl

handle_join-as_items :
    (delim : Text) (ss : List Text)
    → handle_join (pair (text delim) (arr (from_items (as_items ss))))
      ≡ returns (text (join delim ss))
unfolding handle_join join_values
handle_join-as_items delim ss = rw (items-from_items (as_items ss), values_of-as_items ss) refl

split-then-join :
    (whitespace : Text → List Text) (delim new s : Text)
    → delim ≢ []
    → (do
      parts ← handle_split whitespace (pair (text delim) (text s))
      handle_join (pair (text new) parts))
      ≡ returns (text (join new (split delim s)))
unfolding handle_split
split-then-join whitespace [] new s h = absurd (h refl)
split-then-join whitespace (c ∷ delim) new s h = handle_join-as_items new (split (c ∷ delim) s)

-- Fn::Join puts together what Fn::Split took apart at the same delimiter, for every string and every
-- delimiter that is not empty.
pub handle_join-split :
    (whitespace : Text → List Text) (delim s : Text)
    → delim ≢ []
    → (do
      parts ← handle_split whitespace (pair (text delim) (text s))
      handle_join (pair (text delim) parts))
      ≡ returns (text s)
handle_join-split whitespace delim s h =
    rw (split-then-join whitespace delim delim s h, join-split delim s h) refl

-- Fn::Replace with one variable, whose name is not empty, splits the string at the variable and joins
-- the parts with the value.
pub handle_replace-split :
    (whitespace : Text → List Text) (name value s : Text)
    → name ≢ []
    → handle_replace (pair (obj (field name (text value) end)) (text s)) ≡ (do
      parts ← handle_split whitespace (pair (text name) (text s))
      handle_join (pair (text value) parts))
unfolding handle_replace replace_all
handle_replace-split whitespace name value s h =
    rw (split-then-join whitespace name value s h, replace_text-split name value s h) refl
