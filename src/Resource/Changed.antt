-- ===== src/Resource/Changed.antt =====
-- The difference of two snippets is what has to be written over the old one to get the new one.
use heat.Prelude.{
  Bool, true, false, not, ◌&&◌, ◌||◌, ◌≡◌, inl, inr, refl, sym, subst, Option, none, some, List, [],
  ◌∷◌, Eq, member, member-set_add, if◌then◌else◌, Bool-cases, All, arith,
}
use heat.Dict.{Dict, is_some, has_key, lookup}
use heat.Resource.Difference.{
  keys_of, same_value, changes, all_allowed, union, update_template_diff,
}

module _ {Key : Type 0} ⦃k : Eq Key⦄ where
  member-union :
      (x : Key) (xs ys : List Key) → member x (union xs ys) ≡ (member x xs || member x ys)
  member-union x [] ys = refl
  member-union x (y ∷ xs) ys =
      ground (arith, member-set_add x y (union xs ys), member-union x xs ys)

module _ {V : Type 0} ⦃v : Eq V⦄ where
  -- A value behind the changes: what is changed to None is gone.
  abbrev pub patched : Option (Option V) → Option V → Option V
  patched none old = old
  patched (some new) old = new

  same_value-eq : (a b : Option V) → same_value a b ≡ true → a ≡ b
  same_value-eq none none h = refl
  same_value-eq (some a) (some b) h = ground (arith, v.beq_iff a b)
  same_value-eq none (some b) h = ground arith
  same_value-eq (some a) none h = ground arith

  patched_values :
      (here : Bool) (old new : Option V)
      → here ≡ (is_some old || is_some new)
      → patched (if here && not (same_value old new) then some new else none) old ≡ new
  patched_values here none none e = ground arith
  patched_values here (some a) new e = elim (Bool-cases (same_value (some a) new)) [
    | inl same ↦ ground (arith, e, same, same_value-eq (some a) new same)
    | inr other ↦ ground (arith, e, other)
  ]
  patched_values here none (some b) e = ground (arith, e)

module _ {Key V : Type 0} ⦃k : Eq Key⦄ ⦃v : Eq V⦄ where
  member-keys_of : (x : Key) (d : Dict Key V) → member x (keys_of d) ≡ has_key x d
  unfolding lookup
  member-keys_of x [] = refl
  member-keys_of x ((y, w) ∷ d) =
      ground
        (arith, member-set_add x y (keys_of d), member-keys_of x d, k.beq_iff x y, k.beq_iff y x)

  lookup-changes :
      (after before : Dict Key V) (keys : List Key) (key : Key)
      → lookup key (changes after before keys) ≡ (
          if member key keys && not (same_value (lookup key before) (lookup key after))
          then some (lookup key after)
          else none)
  unfolding changes lookup
  lookup-changes after before [] key = refl
  lookup-changes after before (j ∷ keys) key =
      ground (arith, lookup-changes after before keys key, k.beq_iff j key, k.beq_iff key j)

  member-keys :
      (after before : Dict Key V) (key : Key)
      → member key (union (keys_of before) (keys_of after))
        ≡ (is_some (lookup key before) || is_some (lookup key after))
  member-keys after before key =
      rw
        (
          member-union key (keys_of before) (keys_of after),
          member-keys_of key before,
          member-keys_of key after,
        )
        refl

  -- If the update is not a replacement, then each key of the difference is allowed to change, and the
  -- old snippet with the difference written over it, None standing for no value, is the new one.
  pub update_template_diff-patched :
      (allowed : List Key) (after before : Dict Key V) (diff : Dict Key (Option V)) (key : Key)
      → update_template_diff allowed after before ≡ some diff
      → (patched (lookup key diff) (lookup key before) ≡ lookup key after)
        × All (λ change. member change.0 allowed ≡ true) diff
  unfolding update_template_diff
  update_template_diff-patched allowed after before diff key h =
      let keys = union (keys_of before) (keys_of after) in
      let changed = changes after before keys in
      let e = taken (all_allowed allowed changed) changed diff h in
      (
        rw (sym e.1, lookup-changes after before keys key)
            (patched_lem key (member key keys) (member-keys after before key)),
        subst (All (λ change. member change.0 allowed ≡ true)) e.1 (all_allowed-All changed e.0),
      )
    where
      taken :
          (b : Bool) (changed diff : Dict Key (Option V))
          → (if b then some changed else none) ≡ some diff
          → (b ≡ true) × (changed ≡ diff)
      taken true changed diff h = (refl, ground arith)
      taken false changed diff h = ground arith

      all_allowed-All :
          (changed : Dict Key (Option V))
          → all_allowed allowed changed ≡ true
          → All (λ change. member change.0 allowed ≡ true) changed
      all_allowed-All [] h = tt
      all_allowed-All ((key, value) ∷ rest) h = (ground arith, all_allowed-All rest (ground arith))

      patched_lem :
          (key : Key) (here : Bool)
          → here ≡ (is_some (lookup key before) || is_some (lookup key after))
          → patched
              (if here && not (same_value (lookup key before) (lookup key after))
                then some (lookup key after)
                else none)
              (lookup key before)
            ≡ lookup key after
      patched_lem key here e = patched_values here (lookup key before) (lookup key after) e
