-- ===== src/Dependencies/Listing.antt =====
-- `graph.edges()` lists a graph: the dependencies that are built from the list are the graph again.
use heat.Prelude.{
  true, false, ◌||◌, ◌&&◌, ◌≡◌, refl, sym, ◌∙◌, ◌⊎◌, inl, inr, List, [], ◌∷◌, ◌++◌, Option, none,
  some, Eq, ◌==◌, member, arith, Bool-cases, beq_refl,
}
use heat.Dict.{lookup, has_key, IsDict}
use heat.Dependencies.Node.{Node, is_nonempty, nonzero, disjoint}
use heat.Dependencies.Graph.{Graph, node_at, needs, feeds, edges, outgoing_edges, pairs}
use heat.Dependencies.Deps.{dependencies}
use heat.Dependencies.Shape.{WellFormed, has_key_of_required}
use heat.Dependencies.Edges.{says_needs, says_needs-append, mentions, dependencies-edges}

module _ {ℓ} {K : Type ℓ} ⦃e : Eq K⦄ where
  says_needs-pairs :
      (r : K) (xs : List K) (a b : K) → says_needs (pairs r xs) a b ≡ (r == a && member b xs)
  unfolding pairs
  says_needs-pairs r [] a b = ground arith
  says_needs-pairs r (x ∷ xs) a b =
      ground (arith, says_needs-pairs r xs a b, e.beq_iff b x, e.beq_iff x b)

  mentions-pairs :
      (r : K) (xs : List K) (k : K)
      → mentions (pairs r xs) k
        ≡ (r == k && nonzero (record { require = xs; satisfy = [] }) || member k xs)
  unfolding pairs
  mentions-pairs r [] k = ground arith
  mentions-pairs r (x ∷ xs) k = ground (arith, mentions-pairs r xs k, e.beq_iff k x, e.beq_iff x k)

  mentions-append :
      (xs ys : List (K × Option K)) (k : K)
      → mentions (xs ++ ys) k ≡ (mentions xs k || mentions ys k)
  mentions-append [] ys k = refl
  mentions-append ((r, none) ∷ xs) ys k = ground (arith, mentions-append xs ys k)
  mentions-append ((r, some q) ∷ xs) ys k = ground (arith, mentions-append xs ys k)

  mentions_of_says_needs :
      (es : List (K × Option K)) (a b : K) → says_needs es a b ≡ true → mentions es b ≡ true
  mentions_of_says_needs [] a b h = absurd (ground arith)
  mentions_of_says_needs ((r, none) ∷ es) a b h = ground (arith, mentions_of_says_needs es a b)
  mentions_of_says_needs ((r, some q) ∷ es) a b h =
      ground (arith, mentions_of_says_needs es a b, e.beq_iff b q, e.beq_iff q b)

  says_needs-outgoing_edges :
      (r : K) (n : Node K) (a b : K)
      → says_needs (outgoing_edges r n) a b ≡ (r == a && member b n.require)
  unfolding outgoing_edges
  says_needs-outgoing_edges r n a b = ground (arith, says_needs-pairs r n.require a b)

  mentions-outgoing_edges :
      (r : K) (n : Node K) (k : K)
      → mentions (outgoing_edges r n) k
        ≡ (r == k && (disjoint n || nonzero n) || member k n.require)
  unfolding outgoing_edges
  mentions-outgoing_edges r n k = ground (arith, mentions-pairs r n.require k)

  needs_of_missing : (g : Graph K) (k b : K) → has_key k g ≡ false → needs g k b ≡ false
  unfolding needs
  needs_of_missing g k b h = ground arith

  -- The edges of the list are those of the graph.
  pub says_needs-edges :
      (g : Graph K) → IsDict g → (a b : K) → says_needs (edges g) a b ≡ needs g a b
  unfolding edges needs lookup
  says_needs-edges [] d a b = refl
  says_needs-edges ((k, n) ∷ g) d a b = ground (
    arith,
    says_needs-append (outgoing_edges k n) (edges g) a b,
    says_needs-outgoing_edges k n a b,
    says_needs-edges g d.1 a b,
    needs_of_missing g k b,
    e.beq_iff k a,
  )

  -- A key that the list mentions is a key of the graph, or a key of the graph requires it.
  mentions-edges-cases :
      (g : Graph K)
      → IsDict g
      → (k : K) → mentions (edges g) k ≡ true
      → (has_key k g ≡ true) ⊎ ((a : K) × (needs g a k ≡ true))
  unfolding edges lookup
  mentions-edges-cases [] d k h = absurd (ground arith)
  mentions-edges-cases ((r, n) ∷ g) d k h = elim (Bool-cases (r == k)) [
    | inl here ↦ inl (ground (arith, e.beq_iff r k))
    | inr other ↦ elim (Bool-cases (member k n.require)) [
      | inl required ↦ inr (
        r,
        sym (says_needs-edges ((r, n) ∷ g) d r k)
            ∙ ground (
              arith,
              says_needs-append (outgoing_edges r n) (edges g) r k,
              says_needs-outgoing_edges r n r k,
              beq_refl r,
            ),
      )
      | inr not_required ↦
          elim (mentions-edges-cases g d.1 k (
            ground (
              arith,
              mentions-append (outgoing_edges r n) (edges g) k,
              mentions-outgoing_edges r n k,
            ))) [
              | inl inside ↦ inl (ground arith)
              | inr (a, fed) ↦ inr (
                a,
                sym (says_needs-edges ((r, n) ∷ g) d a k)
                    ∙ ground (
                      arith,
                      says_needs-append (outgoing_edges r n) (edges g) a k,
                      says_needs-edges g d.1 a k,
                    ),
              )
            ]
    ]
  ]

  mentions-edges_of_node :
      (g : Graph K) (k : K)
      → has_key k g ≡ true
      → (disjoint (node_at k g) || nonzero (node_at k g)) ≡ true
      → mentions (edges g) k ≡ true
  unfolding edges lookup
  mentions-edges_of_node [] k h q = absurd (ground arith)
  mentions-edges_of_node ((r, n) ∷ g) k h q = ground (
    arith,
    mentions-append (outgoing_edges r n) (edges g) k,
    mentions-outgoing_edges r n k,
    mentions-edges_of_node g k,
  )

  first_member : (xs : List K) → is_nonempty xs ≡ true → (s : K) × (member s xs ≡ true)
  first_member [] h = absurd (ground arith)
  first_member (x ∷ xs) h = (x, ground (arith, beq_refl x))

  feeds_of_not_stem :
      (g : Graph K) (k : K)
      → (disjoint (node_at k g) || nonzero (node_at k g)) ≡ false
      → (s : K) × (feeds g k s ≡ true)
  unfolding feeds
  feeds_of_not_stem g k h = first_member (node_at k g).satisfy (ground arith)

  -- The list mentions exactly the keys of a well-formed graph.
  pub mentions-edges : (g : Graph K) → WellFormed g → (k : K) → mentions (edges g) k ≡ has_key k g
  mentions-edges g w k = elim (Bool-cases (has_key k g)) [
    | inl inside ↦ elim (Bool-cases (disjoint (node_at k g) || nonzero (node_at k g))) [
      | inl listed ↦ mentions-edges_of_node g k inside listed ∙ sym inside
      | inr fed ↦
          let (s, q) = feeds_of_not_stem g k fed in
          mentions_of_says_needs (edges g) s k
            (says_needs-edges g w.distinct s k ∙ w.symmetric s k ∙ q)
          ∙ sym inside
    ]
    | inr outside ↦ elim (Bool-cases (mentions (edges g) k)) [
      | inr unlisted ↦ unlisted ∙ sym outside
      | inl listed ↦ elim (mentions-edges-cases g w.distinct k listed) [
        | inl inside ↦ absurd (ground arith)
        | inr (a, required) ↦ absurd (ground (arith, has_key_of_required w a k required))
      ]
    ]
  ]

  -- The dependencies that are built from the edges of a well-formed graph are the graph again: they
  -- have the same keys, and every key requires the same keys.
  pub dependencies-edges_roundtrip :
      (g : Graph K)
      → WellFormed g
      → ((a b : K) → needs (dependencies (edges g)) a b ≡ needs g a b)
        × ((k : K) → has_key k (dependencies (edges g)) ≡ has_key k g)
  dependencies-edges_roundtrip g w =
      let built = dependencies-edges (edges g) in
      (
        λ a b. built.0 a b ∙ says_needs-edges g w.distinct a b,
        λ k. built.1 k ∙ mentions-edges g w k,
      )
