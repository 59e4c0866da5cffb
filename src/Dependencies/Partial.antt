-- ===== src/Dependencies/Partial.antt =====
-- `dependencies[last]`: the part of the graph that is made of `last` and of all that requires it.
use heat.Prelude.{
  ℕ, zero, suc, ◌<◌, true, ◌||◌, ◌&&◌, ◌≡◌, refl, sym, ◌∙◌, ◌⊎◌, inl, inr, List, [], ◌∷◌, ◌++◌,
  Option, none, some, Option-cases, Bool-cases, Eq, ◌==◌, ap, beq_refl, subst, beq→eq, ◌↔◌, member,
  arith,
}
use heat.Dict.{has_key}
use heat.Dependencies.Graph.{Graph, node_at, needs, feeds}
use heat.Dependencies.Node.{Node, stem}
use heat.Dependencies.Deps.{requirer_edges, get_edges, dependencies, deps_getitem, partial}
use heat.Dependencies.Edges.{says_needs-append, says_needs, dependencies-edges}

module _ {ℓ} {K : Type ℓ} ⦃e : Eq K⦄ where
  -- `k` is `last`, or requires it through a chain of keys.
  pub data Above (g : Graph K) (last : K) : K → Type ℓ where
    here : Above g last last
    up : {k r : K} → Above g last k → feeds g k r ≡ true → Above g last r

  Above-below : {g : Graph K} {last r k : K} → feeds g last r ≡ true → Above g r k → Above g last k
  Above-below h here = up here h
  Above-below h (up p q) = up (Above-below h p) q

  -- An edge of `get_edges` is an edge of the graph, its lower end being reached from `last`.
  abbrev Sound : Graph K → K → List (K × Option K) → Type ℓ
  Sound g last es = (a b : K) → says_needs es a b ≡ true → Above g last b × (feeds g b a ≡ true)

  Above-uncons :
      {g : Graph K} {last k : K}
      → Above g last k
      → (last ≡ k) ⊎ ((s : K) × (feeds g last s ≡ true) × Above g s k)
  Above-uncons here = inl refl
  Above-uncons {g} {last} (up {k} {r} p q) = elim (Above-uncons p) [
    | inl same ↦ inr (r, subst (λ x. feeds g x r ≡ true) (sym same) q, here)
    | inr (s, first, rest) ↦ inr (s, first, up rest q)
  ]

  -- An edge list that holds every edge whose lower end is reached from `last`.
  abbrev Complete : Graph K → K → List (K × Option K) → Type ℓ
  Complete g last es = (a b : K) → Above g last b → feeds g b a ≡ true → says_needs es a b ≡ true

  module _ (rec : K → Option (List (K × Option K))) where
    requirer_edges-eq-some :
        (key r : K) (rest : List K) {es : List (K × Option K)}
        → requirer_edges rec key (r ∷ rest) ≡ some es
        → (below others : List (K × Option K)) × (rec r ≡ some below)
          × (requirer_edges rec key rest ≡ some others)
          × (es ≡ (r, some key) ∷ below ++ others)
    unfolding requirer_edges
    requirer_edges-eq-some key r rest {es} h = elim (Option-cases (rec r)) [
      | inl missing ↦ absurd (ground arith)
      | inr (below, p) ↦ elim (Option-cases (requirer_edges rec key rest)) [
        | inl missing ↦ absurd (ground arith)
        | inr (others, q) ↦ (below, others, p, q, ground arith)
      ]
    ]

    says_needs-requirer_edges :
        (key r : K) (below others : List (K × Option K)) (a b : K)
        → says_needs ((r, some key) ∷ below ++ others) a b
          ≡ (r == a && b == key || says_needs below a b || says_needs others a b)
    says_needs-requirer_edges key r below others a b =
        ground (arith, says_needs-append below others a b)

  module _ (g : Graph K) (rec : K → Option (List (K × Option K))) where
    requirer_edges-Sound :
        ((r : K) (es : List (K × Option K)) → rec r ≡ some es → Sound g r es)
        → (key : K) (srcs : List K) → ((s : K) → member s srcs ≡ true → feeds g key s ≡ true)
        → {es : List (K × Option K)} → requirer_edges rec key srcs ≡ some es
        → Sound g key es
    requirer_edges-Sound sound key [] sub h a b m = unfold requirer_edges in cc
    requirer_edges-Sound sound key (r ∷ rest) sub {es} h a b m =
        let (below, others, p, q, split) = requirer_edges-eq-some rec key r rest h in
        let fed = sub r (ground (arith, beq_refl r)) in
        elim (Bool-cases (r == a && b == key)) [
          | inl edge ↦ (
            subst (Above g key) (ground (arith, e.beq_iff b key)) here,
            ground (arith, e.beq_iff b key, e.beq_iff r a),
          )
          | inr other ↦ elim (Bool-cases (says_needs below a b)) [
            | inl inside ↦
                let (above, feeding) = sound r below p a b inside in
                (Above-below fed above, feeding)
            | inr outside ↦
                requirer_edges-Sound sound key rest (λ s n. sub s (ground arith)) q a b
                  (ground (arith, says_needs-append below others a b))
          ]
        ]

    requirer_edges-Complete :
        ((r : K) (es : List (K × Option K)) → rec r ≡ some es → Complete g r es)
        → (key : K) (srcs : List K) → {es : List (K × Option K)}
        → requirer_edges rec key srcs ≡ some es
        → (s : K) → member s srcs ≡ true
        → (says_needs es s key ≡ true)
          × ((a b : K) → Above g s b → feeds g b a ≡ true → says_needs es a b ≡ true)
    requirer_edges-Complete complete key [] h s m = absurd (ground arith)
    requirer_edges-Complete complete key (r ∷ rest) {es} h s m =
        let (below, others, p, q, split) = requirer_edges-eq-some rec key r rest h in
        elim (Bool-cases (s == r)) [
          | inl same ↦ (
            ground (arith, e.beq_iff s r, beq_refl r, beq_refl key),
            λ a b above fed. ground (
              arith,
              says_needs-append below others a b,
              complete r below p a b (subst (λ x. Above g x b) (beq→eq s r same) above) fed,
            ),
          )
          | inr later ↦
              let tail = requirer_edges-Complete complete key rest q s (ground arith) in
              (
                ground (arith, says_needs-append below others s key, tail.0),
                λ a b above fed.
                    ground (arith, says_needs-append below others a b, tail.1 a b above fed),
              )
        ]

    requirer_edges-total :
        (key : K) (srcs : List K)
        → ((s : K) → member s srcs ≡ true → (es : List (K × Option K)) × (rec s ≡ some es))
        → (es : List (K × Option K)) × (requirer_edges rec key srcs ≡ some es)
    unfolding requirer_edges
    requirer_edges-total key [] all = ([], refl)
    requirer_edges-total key (r ∷ rest) all =
        let (below, p) = all r (ground (arith, beq_refl r)) in
        let (others, q) = requirer_edges-total key rest (λ s m. all s (ground arith)) in
        ((r, some key) ∷ below ++ others, ground arith)

  not-feeds_of_stem : (a : K) (n : Node K) → stem n ≡ true → member a n.satisfy ≡ true → ⊥
  not-feeds_of_stem a n h m = ground arith

  feeds_lem : (g : Graph K) (a b : K) → feeds g a b ≡ member b (node_at a g).satisfy
  unfolding feeds
  feeds_lem g a b = refl

  get_edges-Sound :
      (fuel : ℕ) (g : Graph K) (last : K) (es : List (K × Option K))
      → get_edges fuel g last ≡ some es
      → Sound g last es
  unfolding get_edges
  get_edges-Sound zero g last es h a b m = absurd (ground arith)
  get_edges-Sound (suc fuel) g last es h a b m =
      requirer_edges-Sound g (λ r. get_edges fuel g r) (get_edges-Sound fuel g) last
        (node_at last g).satisfy (λ s inside. feeds_lem g last s ∙ inside) h a b m

  get_edges-Complete :
      (fuel : ℕ) (g : Graph K) (last : K) (es : List (K × Option K))
      → get_edges fuel g last ≡ some es
      → Complete g last es
  unfolding get_edges
  get_edges-Complete zero g last es h a b above fed = absurd (ground arith)
  get_edges-Complete (suc fuel) g last es h a b above fed =
      let found =
        requirer_edges-Complete g (λ r. get_edges fuel g r) (get_edges-Complete fuel g) last
          (node_at last g).satisfy h in
      elim (Above-uncons above) [
        | inl same ↦
            subst (λ x. says_needs es a x ≡ true) same
              (found a
                (sym (feeds_lem g last a) ∙ subst (λ x. feeds g x a ≡ true) (sym same) fed)).0
        | inr (s, first, rest) ↦ (found s (sym (feeds_lem g last s) ∙ first)).1 a b rest fed
      ]

  -- The edges of `dependencies[last]` are exactly the edges whose lower end is `last` or requires it
  -- through a chain of keys.
  pub get_edges_iff :
      (fuel : ℕ) (g : Graph K) (last : K) (es : List (K × Option K))
      → get_edges fuel g last ≡ some es
      → (a b : K) → (says_needs es a b ≡ true) ↔ (Above g last b × (feeds g b a ≡ true))
  get_edges_iff fuel g last es h a b =
      (get_edges-Sound fuel g last es h a b, λ p. get_edges-Complete fuel g last es h a b p.0 p.1)

  -- Where a rank falls from each key to the keys that require it, `rank last` and one more rounds
  -- of fuel are enough for `dependencies[last]`.
  pub get_edges_total :
      (fuel : ℕ) (g : Graph K) (rank : K → ℕ)
      → ((a b : K) → feeds g a b ≡ true → rank b < rank a)
      → (last : K) → rank last < fuel
      → (es : List (K × Option K)) × (get_edges fuel g last ≡ some es)
  unfolding get_edges
  get_edges_total zero g rank falls last h = absurd (omega arith)
  get_edges_total (suc fuel) g rank falls last h =
      requirer_edges-total g (λ r. get_edges fuel g r) last (node_at last g).satisfy
        (λ s m.
          get_edges_total fuel g rank falls s
            (omega (arith, falls last s (feeds_lem g last s ∙ m))))

  Above-stem :
      (g : Graph K) (last : K)
      → stem (node_at last g) ≡ true
      → (a b : K) → Above g last b
      → feeds g b a ≡ true
      → ⊥
  unfolding feeds
  Above-stem g last h a b above fed = elim (Above-uncons above) [
    | inl same ↦
        not-feeds_of_stem a (node_at last g) h (subst (λ x. feeds g x a ≡ true) (sym same) fed)
    | inr (s, first, rest) ↦ not-feeds_of_stem s (node_at last g) h first
  ]

  -- In the graph `dependencies[last]`, `a` requires `b` exactly when it does so in the whole graph
  -- and `b` is `last` or requires it through a chain of keys.
  pub deps_getitem_iff :
      (fuel : ℕ) (g : Graph K) (last : K) (part : Graph K)
      → deps_getitem fuel g last ≡ partial part
      → (a b : K) → (needs part a b ≡ true) ↔ (Above g last b × (feeds g b a ≡ true))
  unfolding deps_getitem
  deps_getitem_iff fuel g last part h a b = elim (Bool-cases (has_key last g)) [
    | inr missing ↦ absurd (ground arith)
    | inl found ↦ elim (Bool-cases (stem (node_at last g))) [
      | inl alone ↦
          let is_part : dependencies ((last, none) ∷ []) ≡ part = ground arith in
          (
            λ n. absurd (ground (arith, (dependencies-edges ((last, none) ∷ [])).0 a b, is_part)),
            λ p. absurd (Above-stem g last alone a b p.0 p.1),
          )
      | inr fed ↦ elim (Option-cases (get_edges fuel g last)) [
        | inl endless ↦ absurd (ground arith)
        | inr (es, p) ↦
            let is_part : dependencies es ≡ part = ground arith in
            let same : says_needs es a b ≡ needs part a b =
              sym ((dependencies-edges es).0 a b) ∙ ap (λ x. needs x a b) is_part in
            let edges = get_edges_iff fuel g last es p a b in
            (λ n. edges.0 (same ∙ n), λ q. sym same ∙ edges.1 q)
      ]
    ]
  ]
