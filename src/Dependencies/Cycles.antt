-- ===== src/Dependencies/Cycles.antt =====
-- `Graph.toposort` raises for graphs with a cycle and for no others.
use heat.Prelude.{
  ℕ, zero, suc, ◌<◌, true, ◌≡◌, refl, ◌⊎◌, inl, inr, ◌↔◌, List, [], ◌∷◌, Option, none, some, Eq,
  ◌==◌, member, if◌then◌else◌, arith, Bool-cases,
}
use heat.Dict.{has_key}
use heat.Dependencies.Graph.{Graph, needs, toposort}
use heat.Dependencies.Shape.{WellFormed, has_key_of_needs}
use heat.Dependencies.Order.{IsOrdered, IsSorted, IsStuck, Outcome, toposort-Outcome}

module _ {ℓ} {K : Type ℓ} ⦃e : Eq K⦄ where
  -- `rank` falls along every edge, so that no walk along the edges comes back.
  abbrev pub IsRanked : Graph K → (K → ℕ) → Type ℓ
  IsRanked g rank = (a b : K) → needs g a b ≡ true → rank b < rank a

  unfoldable pub position : K → List K → ℕ
  position k [] = 0
  position k (j ∷ js) = if k == j then 0 else suc (position k js)

  IsOrdered-position :
      (g : Graph K) (ks done : List K)
      → IsOrdered g done ks
      → (a b : K) → member a ks ≡ true
      → needs g a b ≡ true
      → (member b done ≡ true) ⊎ (position b ks < position a ks)
  unfolding position
  IsOrdered-position g [] done o a b m h = cc
  IsOrdered-position g (k ∷ ks) done o a b m h = elim (Bool-cases (a == k)) [
    | inl here ↦ ground (arith, e.beq_iff a k, o.0 b)
    | inr later ↦ elim (IsOrdered-position g ks (k ∷ done) o.1 a b (rw later at m) h) [
      | inl before ↦ ground (arith)
      | inr less ↦ ground (arith)
    ]
  ]

  pub IsRanked-position :
      (g : Graph K) (ks : List K) → IsSorted g ks → IsRanked g (λ k. position k ks)
  IsRanked-position g ks s a b h =
      ground
        (arith, IsOrdered-position g ks [] s.ordered a b, s.complete a, has_key_of_needs g a b h)

  not_stuck :
      {g left : Graph K} (rank : K → ℕ)
      → IsRanked g rank
      → IsStuck g left
      → (n : ℕ) (k : K) → has_key k left ≡ true
      → rank k < n
      → ⊥
  not_stuck rank ranked s zero k m h = omega arith
  not_stuck rank ranked s (suc n) k m h =
      let (b, requires, there) = s.cyclic k m in
      not_stuck rank ranked s n b there (omega (arith, ranked k b (s.edges_within k b requires)))

  finishes_of_Outcome :
      (g : Graph K) (r : List K × Option (Graph K))
      → Outcome g r
      → (r.1 ≡ none) ↔ ((rank : K → ℕ) × IsRanked g rank)
  finishes_of_Outcome g (ks, none) o =
      (λ h. ((λ k. position k ks), IsRanked-position g ks o), λ r. refl)
  finishes_of_Outcome g (ks, some left) o = (
    λ h. cc,
    λ r.
        absurd
          (not_stuck r.0 r.1 o (suc (r.0 o.some_key.0)) o.some_key.0 o.some_key.1 (omega arith)),
  )

  -- On a well-formed graph `toposort` ends without an exception exactly when the graph has no
  -- cycle, that is, when some rank of the keys falls along every edge.
  pub toposort-finishes_iff :
      (g : Graph K) → WellFormed g → ((toposort g).1 ≡ none) ↔ ((rank : K → ℕ) × IsRanked g rank)
  toposort-finishes_iff g w = finishes_of_Outcome g (toposort g) (toposort-Outcome g w)

  pub IsSorted-of_finished :
      (g : Graph K) (r : List K × Option (Graph K)) → Outcome g r → r.1 ≡ none → IsSorted g r.0
  IsSorted-of_finished g (ks, none) o h = o
  IsSorted-of_finished g (ks, some left) o h = cc
