-- ===== src/Template/Contiguous.antt =====
-- What the items of a join come to, reduced or not, for a delimiter that is a string.
use heat.Prelude.{
  ◌≡◌, ◌≢◌, refl, sym, ap, subst, List, [], ◌∷◌, ◌++◌, append_assoc, append-nil, Text, join, arith,
}
use heat.Template.Json.{Json, null, bool, int, float, text, arr, obj, Res, returns, raises, ◌>>=◌}
use heat.Template.Texts.{flush, reduce_items, values_of}

join-cons :
    (delim p : Text) (ps : List Text) → ps ≢ [] → join delim (p ∷ ps) ≡ p ++ delim ++ join delim ps
unfolding join
join-cons delim p [] h = absurd (h refl)
join-cons delim p (q ∷ ps) h = refl

append-ne-nil : (before : List Text) (p : Text) (ps : List Text) → (before ++ p ∷ ps) ≢ []
append-ne-nil [] p ps = ground arith
append-ne-nil (b ∷ before) p ps = ground arith

-- A part that is joined already counts as one string.
join-join :
    (delim p : Text) (ps qs : List Text)
    → join delim (join delim (p ∷ ps) ∷ qs) ≡ join delim ((p ∷ ps) ++ qs)
unfolding join
join-join delim p [] qs = refl
join-join delim p (q ∷ ps) [] = ground (arith, append-nil ps)
join-join delim p (q ∷ ps) (r ∷ qs) =
    let x = join delim (q ∷ ps) in
    let y = join delim (r ∷ qs) in
    ground (
      arith,
      join-join delim q ps (r ∷ qs),
      append_assoc (p ++ delim ++ x) delim y,
      append_assoc (p ++ delim) x (delim ++ y),
      append_assoc x delim y,
    )

module _ (delim : Text) where
  join-part :
      (before : List Text) (p : Text) (ps qs : List Text)
      → join delim (before ++ join delim (p ∷ ps) ∷ qs) ≡ join delim (before ++ ((p ∷ ps) ++ qs))
  join-part [] p ps qs = join-join delim p ps qs
  join-part (b ∷ before) p ps qs = ground (
    arith,
    join-part before p ps qs,
    join-cons delim b (before ++ join delim (p ∷ ps) ∷ qs),
    join-cons delim b (before ++ ((p ∷ ps) ++ qs)),
    append-ne-nil before (join delim (p ∷ ps)) qs,
    append-ne-nil before p (ps ++ qs),
  )

  -- Two lists of strings that come to the same behind any others, or the same exception.
  Same : Res (List Text) → Res (List Text) → Type 0
  Same (returns ps) (returns qs) =
      (before : List Text) → join delim (before ++ ps) ≡ join delim (before ++ qs)
  Same (raises e) (raises e') = e ≡ e'
  Same _ _ = ⊥

  push : Text → Res (List Text) → Res (List Text)
  push p r = do ps ← r; returns (p ∷ ps)

  pub push_all : List Text → Res (List Text) → Res (List Text)
  push_all ps r = do qs ← r; returns (ps ++ qs)

  push_nothing : (r : Res (List Text)) → r ≡ push_all [] r
  unfolding push_all
  push_nothing (returns ps) = refl
  push_nothing (raises e) = refl

  Same-refl : (r : Res (List Text)) → Same r r
  unfolding Same
  Same-refl (returns ps) = λ before. refl
  Same-refl (raises e) = refl

  Same-push : (p : Text) (r r' : Res (List Text)) → Same r r' → Same (push p r) (push p r')
  unfolding Same push
  Same-push p (returns ps) (returns qs) h = λ before. ground (
    arith,
    h (before ++ p ∷ []),
    append_assoc before (p ∷ []) ps,
    append_assoc before (p ∷ []) qs,
  )
  Same-push p (raises e) (raises e') h = h
  Same-push p (returns ps) (raises e') h = absurd h
  Same-push p (raises e) (returns qs) h = absurd h

  Same-joined :
      (p : Text) (ps : List Text) (r r' : Res (List Text))
      → Same r r'
      → Same (push (join delim (p ∷ ps)) r) (push_all (p ∷ ps) r')
  unfolding Same push push_all
  Same-joined p ps (returns us) (returns vs) h = λ before. ground (
    arith,
    join-part before p ps us,
    h (before ++ (p ∷ ps)),
    append_assoc before (p ∷ ps) us,
    append_assoc before (p ∷ ps) vs,
  )
  Same-joined p ps (raises e) (raises e') h = h
  Same-joined p ps (returns us) (raises e') h = absurd h
  Same-joined p ps (raises e) (returns vs) h = absurd h

  -- The reduced items come to `target`.
  pub ComesTo : Res (List Text) → Res (List Json) → Type 0
  unfolding Same
  ComesTo target (returns reduced) = Same (values_of reduced) target
  ComesTo target (raises e) = ⊥

  flush-ComesTo :
      (contiguous : List Text) (reduced : List Json) (target : Res (List Text))
      → Same (values_of reduced) target
      → ComesTo (push_all contiguous target) (flush (text delim) contiguous reduced)
  unfolding ComesTo push_all values_of push
  flush-ComesTo [] reduced target h = subst (Same (values_of reduced)) (push_nothing target) h
  flush-ComesTo (p ∷ ps) reduced target h = Same-joined p ps (values_of reduced) target h

  ComesTo-bind :
      (target target' : Res (List Text)) (r : Res (List Json)) (k : List Json → Res (List Json))
      → ComesTo target r
      → ((reduced : List Json) → Same (values_of reduced) target → ComesTo target' (k reduced))
      → ComesTo target' (r >>= k)
  unfolding ComesTo
  ComesTo-bind target target' (returns reduced) k h hk = hk reduced h
  ComesTo-bind target target' (raises e) k h hk = absurd h

  push_all-push :
      (ps : List Text) (s : Text) (r : Res (List Text))
      → push_all (ps ++ s ∷ []) r ≡ push_all ps (push s r)
  unfolding push_all push
  push_all-push ps s (returns qs) = ap returns (append_assoc ps (s ∷ []) qs)
  push_all-push ps s (raises e) = refl

  -- Behind an item that is no string: `head` is what `values_of` makes of it.
  item-ComesTo :
      (contiguous : List Text) (item : Json) (rest : List Json)
      → ((reduced : List Json)
          → Same (values_of reduced) (values_of rest)
          → Same (values_of (item ∷ reduced)) (values_of (item ∷ rest)))
      → ComesTo (push_all [] (values_of rest)) (reduce_items (text delim) [] rest)
      → ComesTo (push_all contiguous (values_of (item ∷ rest))) (do
        reduced ← reduce_items (text delim) [] rest
        flush (text delim) contiguous (item ∷ reduced))
  item-ComesTo contiguous item rest keeps h =
      ComesTo-bind (push_all [] (values_of rest)) _ (reduce_items (text delim) [] rest) _ h
        (λ reduced same. flush-ComesTo contiguous (item ∷ reduced) (values_of (item ∷ rest)) (
          keeps reduced
            (subst (Same (values_of reduced)) (sym (push_nothing (values_of rest))) same)))

  pub reduce_items-ComesTo :
      (contiguous : List Text) (rest : List Json)
      → ComesTo (push_all contiguous (values_of rest)) (reduce_items (text delim) contiguous rest)
  unfolding reduce_items values_of Same push
  reduce_items-ComesTo contiguous [] =
      flush-ComesTo contiguous [] (returns []) (Same-refl (returns []))
  reduce_items-ComesTo contiguous (text s ∷ rest) =
      subst (λ t. ComesTo t (reduce_items (text delim) (contiguous ++ s ∷ []) rest))
        (push_all-push contiguous s (values_of rest))
        (reduce_items-ComesTo (contiguous ++ s ∷ []) rest)
  reduce_items-ComesTo contiguous (null ∷ rest) =
      item-ComesTo contiguous null rest
        (λ reduced same. Same-push [] (values_of reduced) (values_of rest) same)
        (reduce_items-ComesTo [] rest)
  reduce_items-ComesTo contiguous (bool b ∷ rest) =
      item-ComesTo contiguous (bool b) rest (λ reduced same. refl) (reduce_items-ComesTo [] rest)
  reduce_items-ComesTo contiguous (int i ∷ rest) =
      item-ComesTo contiguous (int i) rest (λ reduced same. refl) (reduce_items-ComesTo [] rest)
  reduce_items-ComesTo contiguous (float x ∷ rest) =
      item-ComesTo contiguous (float x) rest (λ reduced same. refl) (reduce_items-ComesTo [] rest)
  reduce_items-ComesTo contiguous (arr xs ∷ rest) =
      item-ComesTo contiguous (arr xs) rest (λ reduced same. refl) (reduce_items-ComesTo [] rest)
  reduce_items-ComesTo contiguous (obj fs ∷ rest) =
      item-ComesTo contiguous (obj fs) rest (λ reduced same. refl) (reduce_items-ComesTo [] rest)

  unfoldable pub joined : Res (List Text) → Res Json
  joined r = do values ← r; returns (text (join delim values))

  Same-joined_text : (r r' : Res (List Text)) → Same r r' → joined r ≡ joined r'
  unfolding Same joined
  Same-joined_text (returns ps) (returns qs) h = ap (λ s. returns (text s)) (h [])
  Same-joined_text (raises e) (raises e') h = ap raises h
  Same-joined_text (returns ps) (raises e') h = absurd h
  Same-joined_text (raises e) (returns qs) h = absurd h

  pub ComesTo-joined :
      (rest : List Json) (r : Res (List Json))
      → ComesTo (push_all [] (values_of rest)) r
      → (r >>= λ reduced. joined (values_of reduced)) ≡ joined (values_of rest)
  unfolding ComesTo
  ComesTo-joined rest (returns reduced) h =
      Same-joined_text (values_of reduced) (values_of rest)
        (subst (Same (values_of reduced)) (sym (push_nothing (values_of rest))) h)
  ComesTo-joined rest (raises e) h = absurd h
