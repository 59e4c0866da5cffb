-- ===== src/Dependencies/Leaves.antt =====
-- The leaf that `toposort` looks for, and what the deletion of a leaf does to a well-formed graph.
use heat.Prelude.{
  true, false, ◌≡◌, refl, ◌∙◌, List, [], ◌∷◌, Eq, ◌==◌, member, none, some, if◌then◌else◌, arith,
  length, suc, beq_refl, Option-cases, Bool-cases, inl, inr,
}
use heat.Dict.{lookup, IsDict, has_key, length-delete, length-put}
use heat.Dependencies.Node.{Node, nonzero, is_nonempty, isub}
use heat.Dependencies.Graph.{
  Graph, node_at, touch, needs, feeds, remove_from, remove_from_all, delitem, first_leaf,
}
use heat.Dependencies.Views.{has_key-touch, has_key-remove_from, has_key-remove_from_all}
use heat.Dependencies.Deletion.{needs-delitem, feeds-delitem, has_key-delitem}
use heat.Dependencies.Shape.{
  WellFormed, touch-IsDict, remove_from_all-IsDict, delitem-IsDict, has_key_of_needs,
}

module _ {ℓ} {K : Type ℓ} ⦃e : Eq K⦄ where
  member_of_nonempty : (s : List K) → is_nonempty s ≡ true → (b : K) × (member b s ≡ true)
  member_of_nonempty [] h = cc
  member_of_nonempty (b ∷ s) h = (b, ground (arith, beq_refl b))

  pub not-member_of_empty : (b : K) (s : List K) → is_nonempty s ≡ false → member b s ≡ false
  not-member_of_empty b [] h = refl
  not-member_of_empty b (c ∷ s) h = cc

  feeds_lem : (g : Graph K) (a b : K) → feeds g a b ≡ member b (node_at a g).satisfy
  unfolding feeds
  feeds_lem g a b = refl

  length-touch : (k : K) (g : Graph K) → has_key k g ≡ true → length (touch k g) ≡ length g
  unfolding touch
  length-touch k g h = ground arith

  first_leaf-lookup :
      (g : Graph K) {k : K}
      → IsDict g
      → first_leaf g ≡ some k
      → (n : Node K) × (lookup k g ≡ some n) × (nonzero n ≡ false)
  unfolding first_leaf lookup
  first_leaf-lookup [] d h = cc
  first_leaf-lookup ((j, n) ∷ g) {k} d h = elim (Bool-cases (nonzero n)) [
    | inl inner ↦
        let (m, found, leaf) = first_leaf-lookup g {k = k} d.1 (rw inner at h) in
        (m, ground (arith, e.beq_iff j k), leaf)
    | inr leaf ↦ (n, ground (arith, e.beq_iff j k), leaf)
  ]

  pub has_key-first_leaf :
      (g : Graph K) {k : K} → IsDict g → first_leaf g ≡ some k → has_key k g ≡ true
  has_key-first_leaf g d h = ground (arith, first_leaf-lookup g d h)

  -- The key that `toposort` takes requires nothing.
  pub needs-first_leaf :
      (g : Graph K) {k : K} → IsDict g → first_leaf g ≡ some k → (b : K) → needs g k b ≡ false
  unfolding needs
  needs-first_leaf g d h b =
      let (n, found, leaf) = first_leaf-lookup g d h in
      ground (arith, not-member_of_empty b n.require)

  first_leaf-eq-none-nonzero :
      (g : Graph K) (k : K) {n : Node K}
      → first_leaf g ≡ none
      → lookup k g ≡ some n
      → nonzero n ≡ true
  unfolding first_leaf lookup
  first_leaf-eq-none-nonzero [] k h m = cc
  first_leaf-eq-none-nonzero ((j, n) ∷ g) k {n = m} h found =
      ground (arith, first_leaf-eq-none-nonzero g k {n = m})

  -- Where there is no leaf, every key requires something.
  pub first_leaf-eq-none :
      (g : Graph K) (k : K)
      → first_leaf g ≡ none
      → has_key k g ≡ true
      → (b : K) × (needs g k b ≡ true)
  unfolding needs
  first_leaf-eq-none g k h m = elim (Option-cases (lookup k g)) [
    | inl missing ↦ absurd (ground arith)
    | inr (n, found) ↦
        let (b, inside) = member_of_nonempty n.require (first_leaf-eq-none-nonzero g k h found) in
        (b, ground arith)
  ]

  length-remove_from :
      (key src : K) (g : Graph K) → has_key src g ≡ true → length (remove_from key src g) ≡ length g
  unfolding remove_from touch
  length-remove_from key src g h = ground (arith, length-put src (isub key (node_at src g)) g)

  length-remove_from_all :
      (key : K) (srcs : List K) (g : Graph K)
      → ((s : K) → member s srcs ≡ true → has_key s g ≡ true)
      → length (remove_from_all key srcs g) ≡ length g
  unfolding remove_from_all
  length-remove_from_all key [] g h = refl
  length-remove_from_all key (src ∷ rest) g h =
      length-remove_from_all key rest (remove_from key src g)
        (λ s m. ground (arith, has_key-remove_from key src g s, h s))
      ∙ length-remove_from key src g (h src (ground (arith, beq_refl src)))

  -- A well-formed graph loses exactly one key with a key that is there.
  pub length-delitem :
      (g : Graph K) (key : K)
      → WellFormed g
      → has_key key g ≡ true
      → suc (length (delitem key g)) ≡ length g
  unfolding delitem
  length-delitem g key w h =
      let swept = remove_from_all key (node_at key g).satisfy (touch key g) in
      length-delete key swept
        (remove_from_all-IsDict key (node_at key g).satisfy (touch key g)
          (touch-IsDict key g w.distinct))
        (ground (
          arith,
          has_key-touch key key g,
          beq_refl key,
          has_key-remove_from_all key (node_at key g).satisfy (touch key g) key,
        ))
      ∙ length-remove_from_all key (node_at key g).satisfy (touch key g) (λ s m. ground (
        arith,
        has_key-touch key s g,
        feeds_lem g key s,
        w.symmetric s key,
        has_key_of_needs g s key,
      ))
      ∙ length-touch key g h

  -- The deletion of a leaf keeps a graph well formed.
  pub delitem-WellFormed :
      (g : Graph K) (key : K)
      → WellFormed g
      → ((b : K) → needs g key b ≡ false)
      → WellFormed (delitem key g)
  delitem-WellFormed g key w leaf = record {
    distinct = delitem-IsDict key g w.distinct;
    symmetric = λ a b. ground (
      arith,
      needs-delitem key g a b,
      feeds-delitem key g b a,
      w.symmetric a b,
      w.symmetric a key,
      w.symmetric key b,
      e.beq_iff key a,
      e.beq_iff key b,
      leaf b,
    );
  }

  -- After the deletion of a leaf the other keys require what they did, less the leaf.
  pub needs-delitem_leaf :
      (g : Graph K) (key : K)
      → WellFormed g
      → ((b : K) → needs g key b ≡ false)
      → (a b : K) → needs (delitem key g) a b ≡ (if key == b then false else needs g a b)
  needs-delitem_leaf g key w leaf a b =
      ground
        (arith, needs-delitem key g a b, w.symmetric a b, e.beq_iff key a, e.beq_iff key b, leaf b)

  pub has_key-delitem_leaf :
      (g : Graph K) (key : K)
      → WellFormed g
      → (k : K) → has_key k (delitem key g) ≡ (if key == k then false else has_key k g)
  has_key-delitem_leaf g key w k =
      ground (arith, has_key-delitem key g k, w.symmetric k key, has_key_of_needs g k key)
