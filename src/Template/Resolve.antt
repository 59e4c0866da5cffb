-- ===== src/Template/Resolve.antt =====
-- `_resolve` of template.py and `transform` of parser.py.
use heat.Prelude.{ℕ, zero, suc, Bool, List, [], ◌∷◌, Text, if◌then◌else◌}
use heat.Template.Json.{
  Json, null, bool, int, float, text, arr, obj, Items, nil, cons, Fields, end, field, Res, returns,
  raises, recursion_error, ◌>>=◌,
}

-- A snippet is resolved, given what its arguments are transformed by; where there is no transformation
-- that is `returns`.
abbrev pub Resolver : Type 0
Resolver = (Json → Res Json) → Json → Res Json

-- `match` may raise: it looks a value up in a dict.
module _ (matches : Text → Json → Res Bool) (handle : Json → Res Json)
    (transform : Json → Res Json) where
  unfoldable mutual
    pub resolve_in : Json → Res Json
    resolve_in (obj end) = returns (obj end)
    resolve_in (obj (field k v end)) =
        let copied = (do w ← resolve_in v; returns (obj (field k w end))) in
        do found ← matches k v; if found then transform v >>= handle else copied
    resolve_in (obj (field k v (field j w fs))) = do
      v' ← resolve_in v
      w' ← resolve_in w
      fs' ← resolve_fields fs
      returns (obj (field k v' (field j w' fs')))
    resolve_in (arr xs) = do ys ← resolve_items xs; returns (arr ys)
    resolve_in null = returns null
    resolve_in (bool b) = returns (bool b)
    resolve_in (int i) = returns (int i)
    resolve_in (float x) = returns (float x)
    resolve_in (text s) = returns (text s)

    pub resolve_items : Items → Res Items
    resolve_items nil = returns nil
    resolve_items (cons x xs) = do y ← resolve_in x; ys ← resolve_items xs; returns (cons y ys)

    pub resolve_fields : Fields → Res Fields
    resolve_fields end = returns end
    resolve_fields (field k v fs) = do
      w ← resolve_in v
      gs ← resolve_fields fs
      returns (field k w gs)

unfoldable pub resolve : (Text → Json → Res Bool) → (Json → Res Json) → Resolver
unfolding resolve_in
resolve matches handle transform snippet = resolve_in matches handle transform snippet

-- The loop of `transform`: each of the transformations in turn.
unfoldable pub in_turn : List Resolver → (Json → Res Json) → Json → Res Json
in_turn [] sub d = returns d
in_turn (t ∷ ts) sub d = t sub d >>= in_turn ts sub

-- `transform(data, transformations)`, as deep as Python's stack is; beyond that it raises.
unfoldable pub transform : ℕ → List Resolver → Json → Res Json
unfolding in_turn
transform zero ts d = raises recursion_error
transform (suc depth) ts d = in_turn ts (λ v. transform depth ts v) d
