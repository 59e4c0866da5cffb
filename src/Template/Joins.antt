-- ===== src/Template/Joins.antt =====
-- The joins of the static pass, and those of the pass at run time.
use heat.Prelude.{◌≡◌, refl, ap, ◌∙◌, List, [], ◌∷◌, ◌++◌, Text, codes}
use heat.Template.Json.{
  Json, null, bool, int, float, text, arr, obj, end, field, from_items, items-from_items, Res,
  returns, raises, attribute_error, ◌>>=◌,
}
use heat.Template.Resolve.{resolve, resolve_in}
use heat.Template.Texts.{
  resolve_joins, join_args, join_texts, flush, pair, reduce_items, handle_reduce_join, join_values,
  handle_join,
}
use heat.Template.Contiguous.{joined, ComesTo-joined, reduce_items-ComesTo}

-- A delimiter that is no string fails.
module _ (delim : Json)
    (no_text : (values : List Text) → join_texts delim values ≡ raises attribute_error) where
  -- `r` is a result, or the AttributeError.
  MayFail : Res (List Json) → Type 0
  MayFail (returns reduced) = Unit
  MayFail (raises e) = e ≡ attribute_error

  MayFail-bind :
      (r : Res (List Json)) (k : List Json → Res (List Json))
      → MayFail r
      → ((x : List Json) → MayFail (k x))
      → MayFail (r >>= k)
  unfolding MayFail
  MayFail-bind (returns x) k h hk = hk x
  MayFail-bind (raises e) k h hk = h

  flush-MayFail :
      (contiguous : List Text) (rest : List Json) → MayFail (flush delim contiguous rest)
  unfolding MayFail
  flush-MayFail [] rest = tt
  flush-MayFail (p ∷ ps) rest = rw (no_text (p ∷ ps)) refl

  reduce_items-MayFail :
      (contiguous : List Text) (rest : List Json) → MayFail (reduce_items delim contiguous rest)
  unfolding reduce_items
  reduce_items-MayFail contiguous [] = flush-MayFail contiguous []
  reduce_items-MayFail contiguous (text s ∷ rest) = reduce_items-MayFail (contiguous ++ s ∷ []) rest
  reduce_items-MayFail contiguous (null ∷ rest) =
      MayFail-bind (reduce_items delim [] rest) _ (reduce_items-MayFail [] rest)
        (λ x. flush-MayFail contiguous (null ∷ x))
  reduce_items-MayFail contiguous (bool b ∷ rest) =
      MayFail-bind (reduce_items delim [] rest) _ (reduce_items-MayFail [] rest)
        (λ x. flush-MayFail contiguous (bool b ∷ x))
  reduce_items-MayFail contiguous (int i ∷ rest) =
      MayFail-bind (reduce_items delim [] rest) _ (reduce_items-MayFail [] rest)
        (λ x. flush-MayFail contiguous (int i ∷ x))
  reduce_items-MayFail contiguous (float y ∷ rest) =
      MayFail-bind (reduce_items delim [] rest) _ (reduce_items-MayFail [] rest)
        (λ x. flush-MayFail contiguous (float y ∷ x))
  reduce_items-MayFail contiguous (arr xs ∷ rest) =
      MayFail-bind (reduce_items delim [] rest) _ (reduce_items-MayFail [] rest)
        (λ x. flush-MayFail contiguous (arr xs ∷ x))
  reduce_items-MayFail contiguous (obj fs ∷ rest) =
      MayFail-bind (reduce_items delim [] rest) _ (reduce_items-MayFail [] rest)
        (λ x. flush-MayFail contiguous (obj fs ∷ x))

  MayFail-eq :
      (r : Res (List Json))
      → MayFail r
      → ◌>>=◌ {B = Json} r (λ reduced. raises attribute_error) ≡ raises attribute_error
  unfolding MayFail
  MayFail-eq (returns reduced) h = refl
  MayFail-eq (raises e) h = ap raises h

handle_join-pair :
    (delim : Json) (xs : List Json)
    → handle_join (pair delim (arr (from_items xs))) ≡ join_values delim xs
unfolding handle_join join_values
handle_join-pair (text delim) xs = rw (items-from_items xs) refl
handle_join-pair _ xs = refl

reduce_items-join_values :
    (delim : Json) (xs : List Json)
    → (reduce_items delim [] xs >>= join_values delim) ≡ join_values delim xs
unfolding join_values joined
reduce_items-join_values (text delim) xs =
    ComesTo-joined delim xs (reduce_items (text delim) [] xs) (reduce_items-ComesTo delim [] xs)
reduce_items-join_values null xs =
    MayFail-eq null (λ _. refl) (reduce_items null [] xs)
      (reduce_items-MayFail null (λ _. refl) [] xs)
reduce_items-join_values (bool b) xs =
    MayFail-eq (bool b) (λ _. refl) (reduce_items (bool b) [] xs)
      (reduce_items-MayFail (bool b) (λ _. refl) [] xs)
reduce_items-join_values (int i) xs =
    MayFail-eq (int i) (λ _. refl) (reduce_items (int i) [] xs)
      (reduce_items-MayFail (int i) (λ _. refl) [] xs)
reduce_items-join_values (float y) xs =
    MayFail-eq (float y) (λ _. refl) (reduce_items (float y) [] xs)
      (reduce_items-MayFail (float y) (λ _. refl) [] xs)
reduce_items-join_values (arr ys) xs =
    MayFail-eq (arr ys) (λ _. refl) (reduce_items (arr ys) [] xs)
      (reduce_items-MayFail (arr ys) (λ _. refl) [] xs)
reduce_items-join_values (obj fs) xs =
    MayFail-eq (obj fs) (λ _. refl) (reduce_items (obj fs) [] xs)
      (reduce_items-MayFail (obj fs) (λ _. refl) [] xs)

reduced_join : Json → List Json → Json
reduced_join delim reduced =
    obj (field (codes "Fn::Join") (pair delim (arr (from_items reduced))) end)

resolve_reduced :
    (delim : Json) (reduced : List Json)
    → resolve_joins (λ v. returns v) (reduced_join delim reduced) ≡ join_values delim reduced
unfolding resolve_joins resolve resolve_in reduced_join
resolve_reduced delim reduced = handle_join-pair delim reduced

resolve_behind_reduce :
    (delim : Json) (r : Res (List Json))
    → ((do reduced ← r; returns (reduced_join delim reduced)) >>= resolve_joins (λ v. returns v))
      ≡ (r >>= join_values delim)
resolve_behind_reduce delim (returns reduced) = resolve_reduced delim reduced
resolve_behind_reduce delim (raises e) = refl

resolve_behind_args :
    (r : Res (Json × List Json))
    → ((do
      parts ← r
      reduced ← reduce_items parts.0 [] parts.1
      returns (reduced_join parts.0 reduced))
        >>= resolve_joins (λ v. returns v))
      ≡ (do parts ← r; join_values parts.0 parts.1)
resolve_behind_args (returns (delim, xs)) =
    resolve_behind_reduce delim (reduce_items delim [] xs) ∙ reduce_items-join_values delim xs
resolve_behind_args (raises e) = refl

-- To reduce a join first and to resolve what is left comes to the same as to resolve it, for all
-- arguments: the same string or the same exception.
pub reduce_joins-resolve_joins :
    (args : Json) → (handle_reduce_join args >>= resolve_joins (λ v. returns v)) ≡ handle_join args
unfolding handle_reduce_join handle_join reduced_join
reduce_joins-resolve_joins args = resolve_behind_args (join_args args)
