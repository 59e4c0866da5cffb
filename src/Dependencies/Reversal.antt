-- ===== src/Dependencies/Reversal.antt =====
-- The iteration of `Dependencies(edges)`, forwards and backwards, in terms of the edges given.
use heat.Prelude.{
  ℕ, ◌-◌, ◌<◌, ◌≤◌, true, ◌≡◌, sym, ◌∙◌, ◌↔◌, List, [], ◌∷◌, Eq, Option, none, length, arith,
}
use heat.Dependencies.Graph.{Graph, reverse_copy, toposort}
use heat.Dependencies.Deps.{dependencies, deps_iter, deps_reversed}
use heat.Dependencies.Shape.{WellFormed, dependencies-WellFormed}
use heat.Dependencies.Order.{IsSorted, toposort-Outcome}
use heat.Dependencies.Cycles.{
  IsRanked, position, IsRanked-position, IsSorted-of_finished, toposort-finishes_iff,
}
use heat.Dependencies.Edges.{
  says_needs, dependencies-edges, needs-reverse_copy, feeds-reverse_copy, reverse_copy-WellFormed,
}

module _ {ℓ} {K : Type ℓ} ⦃e : Eq K⦄ where
  pub position-le-length : (k : K) (ks : List K) → position k ks ≤ length ks
  unfolding position
  position-le-length k [] = omega arith
  position-le-length k (j ∷ ks) = ground (arith, position-le-length k ks)

  reversed-IsRanked :
      (g : Graph K) (ks : List K)
      → WellFormed g
      → IsSorted g ks
      → IsRanked (reverse_copy g) (λ k. length ks - position k ks)
  reversed-IsRanked g ks w s a b h = omega (
    arith,
    position-le-length b ks,
    IsRanked-position g ks s b a (w.symmetric b a ∙ sym (needs-reverse_copy g a b) ∙ h),
  )

  -- A graph that has a rank has one when it is turned round.
  pub mirror :
      (g : Graph K)
      → WellFormed g
      → (rank : K → ℕ) × IsRanked g rank
      → (rank : K → ℕ) × IsRanked (reverse_copy g) rank
  mirror g w r =
      let ks = (toposort g).0 in
      let sorted =
        IsSorted-of_finished g (toposort g) (toposort-Outcome g w)
          ((toposort-finishes_iff g w).1 r) in
      ((λ k. length ks - position k ks), reversed-IsRanked g ks w sorted)

  unmirror :
      (g : Graph K)
      → WellFormed g
      → (rank : K → ℕ) × IsRanked (reverse_copy g) rank
      → (rank : K → ℕ) × IsRanked g rank
  unmirror g w r =
      let (rank, ranked) = mirror (reverse_copy g) (reverse_copy-WellFormed g w) r in
      (
        rank,
        λ a b h.
            ranked a b (needs-reverse_copy (reverse_copy g) a b ∙ feeds-reverse_copy g a b ∙ h),
      )

  -- `rank` falls along every edge of the list.
  abbrev pub Falls : List (K × Option K) → (K → ℕ) → Type ℓ
  Falls es rank = (a b : K) → says_needs es a b ≡ true → rank b < rank a

  Falls-iff :
      (es : List (K × Option K)) (rank : K → ℕ) → Falls es rank ↔ IsRanked (dependencies es) rank
  Falls-iff es rank = (
    λ f a b h. f a b (sym ((dependencies-edges es).0 a b) ∙ h),
    λ r a b h. r a b ((dependencies-edges es).0 a b ∙ h),
  )

  -- `iter(Dependencies(edges))` ends without a CircularDependencyException exactly when the edges
  -- have no cycle, that is, when some rank falls along each of them; and
  -- `reversed(Dependencies(edges))` ends without one in exactly the same cases.
  pub deps_iter-finishes_iff :
      (es : List (K × Option K))
      → (((deps_iter (dependencies es)).1 ≡ none) ↔ ((rank : K → ℕ) × Falls es rank))
        × (((deps_reversed (dependencies es)).1 ≡ none) ↔ ((rank : K → ℕ) × Falls es rank))
  unfolding deps_iter deps_reversed
  deps_iter-finishes_iff es =
      let g = dependencies es in
      let w = dependencies-WellFormed es in
      let forward = toposort-finishes_iff g w in
      let backward = toposort-finishes_iff (reverse_copy g) (reverse_copy-WellFormed g w) in
      (
        (
          λ h. let (rank, r) = forward.0 h in (rank, (Falls-iff es rank).1 r),
          λ f. forward.1 (f.0, (Falls-iff es f.0).0 f.1),
        ),
        (
          λ h. let (rank, r) = unmirror g w (backward.0 h) in (rank, (Falls-iff es rank).1 r),
          λ f. backward.1 (mirror g w (f.0, (Falls-iff es f.0).0 f.1)),
        ),
      )
