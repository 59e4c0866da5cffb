-- ===== src/Dependencies/Order.antt =====
-- `Graph.toposort` on a well-formed graph: what it yields, and when it raises.
use heat.Prelude.{
  ℕ, zero, suc, true, false, ◌≡◌, refl, ◌∙◌, ◌⊎◌, inl, inr, List, [], ◌∷◌, Option, none, some,
  Option-cases, Eq, ◌==◌, beq_refl, member, if◌then◌else◌, length, arith,
}
use heat.Dict.{lookup, has_key}
use heat.Dependencies.Graph.{Graph, needs, delitem, first_leaf, toposort_loop, toposort}
use heat.Dependencies.Shape.{WellFormed, has_key_of_required}
use heat.Dependencies.Leaves.{
  has_key-first_leaf, needs-first_leaf, first_leaf-eq-none, length-delitem, delitem-WellFormed,
  needs-delitem_leaf, has_key-delitem_leaf,
}

module _ {ℓ} {K : Type ℓ} ⦃e : Eq K⦄ where
  -- Each key of the list comes after all that it requires, `done` being the keys before the list.
  abbrev pub IsOrdered : Graph K → List K → List K → Type ℓ
  IsOrdered g done [] = Unit
  IsOrdered g done (k ∷ ks) =
      ((b : K) → needs g k b ≡ true → member b done ≡ true) × IsOrdered g (k ∷ done) ks

  -- No key comes twice.
  abbrev pub IsDistinct : List K → Type 0
  IsDistinct [] = Unit
  IsDistinct (k ∷ ks) = (member k ks ≡ false) × IsDistinct ks

  -- Every key of the graph requires a key of the graph, so that a walk along the edges never ends.
  abbrev pub IsCyclic : Graph K → Type ℓ
  IsCyclic g = (a : K) → has_key a g ≡ true → (b : K) × (needs g a b ≡ true) × (has_key b g ≡ true)

  -- `ks` is a topological order of the graph: its keys, each once, behind all that they require.
  pub record IsSorted (g : Graph K) (ks : List K) : Type ℓ where
    pub ordered : IsOrdered g [] ks
    pub complete : (k : K) → member k ks ≡ has_key k g
    pub once : IsDistinct ks

  -- What a CircularDependencyException shows: the graph that is left has a key, every key of it
  -- requires another that is left, and it is a part of the graph that was to be sorted.
  pub record IsStuck (g left : Graph K) : Type ℓ where
    pub some_key : (k : K) × (has_key k left ≡ true)
    pub cyclic : IsCyclic left
    pub keys_within : (k : K) → has_key k left ≡ true → has_key k g ≡ true
    pub edges_within : (a b : K) → needs left a b ≡ true → needs g a b ≡ true

  transfer :
      (g g' : Graph K) (key : K)
      → ((a b : K) → needs g a b ≡ true → (needs g' a b ≡ true) ⊎ (key ≡ b))
      → (ks done done' : List K) → member key done' ≡ true
      → ((x : K) → member x done ≡ true → member x done' ≡ true)
      → IsOrdered g' done ks
      → IsOrdered g done' ks
  transfer g g' key step [] done done' m sub o = tt
  transfer g g' key step (k ∷ ks) done done' m sub o = (
    λ b h. elim (step k b h) [ inl h' ↦ sub b (o.0 b h') | inr same ↦ ground arith ],
    transfer g g' key step ks (k ∷ done) (k ∷ done') (ground arith) (λ x h. ground (arith, sub x))
        o.1,
  )

  module _ (g : Graph K) (key : K) (w : WellFormed g) (found : first_leaf g ≡ some key) where
    leaf_WellFormed : WellFormed (delitem key g)
    leaf_WellFormed = delitem-WellFormed g key w (needs-first_leaf g w.distinct found)

    leaf-needs : (a b : K) → needs (delitem key g) a b ≡ (if key == b then false else needs g a b)
    leaf-needs = needs-delitem_leaf g key w (needs-first_leaf g w.distinct found)

    leaf-length : suc (length (delitem key g)) ≡ length g
    leaf-length = length-delitem g key w (has_key-first_leaf g w.distinct found)

    IsSorted-cons : {ks : List K} → IsSorted (delitem key g) ks → IsSorted g (key ∷ ks)
    IsSorted-cons {ks} s = record {
      ordered = (
        λ b h. ground (arith, needs-first_leaf g w.distinct found b),
        transfer g (delitem key g) key (λ a b h. ground (arith, leaf-needs a b, e.beq_iff key b)) ks
            [] (key ∷ []) (ground (arith, beq_refl key)) (λ x h. ground arith) s.ordered,
      );
      complete = λ k. ground (
        arith,
        s.complete k,
        has_key-delitem_leaf g key w k,
        e.beq_iff key k,
        e.beq_iff k key,
        has_key-first_leaf g w.distinct found,
      );
      once =
          (s.complete key ∙ ground (arith, has_key-delitem_leaf g key w key, beq_refl key), s.once);
    }

    IsStuck-cons : {left : Graph K} → IsStuck (delitem key g) left → IsStuck g left
    IsStuck-cons s = record {
      some_key = s.some_key;
      cyclic = s.cyclic;
      keys_within = λ k h. ground (arith, s.keys_within k h, has_key-delitem_leaf g key w k);
      edges_within = λ a b h. ground (arith, s.edges_within a b h, leaf-needs a b);
    }

  -- How `toposort` may end, for a graph `g`.
  abbrev pub Outcome : Graph K → List K × Option (Graph K) → Type ℓ
  Outcome g (ks, none) = IsSorted g ks
  Outcome g (ks, some left) = IsStuck g left

  Outcome-cons :
      (g : Graph K) (key : K)
      → WellFormed g
      → first_leaf g ≡ some key
      → (r : List K × Option (Graph K)) → Outcome (delitem key g) r
      → Outcome g (key ∷ r.0, r.1)
  Outcome-cons g key w found (ks, none) o = IsSorted-cons g key w found o
  Outcome-cons g key w found (ks, some left) o = IsStuck-cons g key w found o

  IsSorted-nil : IsSorted [] []
  unfolding lookup
  IsSorted-nil = record { ordered = tt; complete = λ k. refl; once = tt }

  IsStuck-here :
      (g : Graph K)
      → WellFormed g
      → first_leaf g ≡ none
      → (k : K) → has_key k g ≡ true
      → IsStuck g g
  IsStuck-here g w h k m = record {
    some_key = (k, m);
    cyclic = λ a inside.
        let (b, requires) = first_leaf-eq-none g a h inside in
        (b, requires, has_key_of_required w a b requires);
    keys_within = λ a p. p;
    edges_within = λ a b p. p;
  }

  loop-Outcome : (n : ℕ) (g : Graph K) → WellFormed g → length g ≡ n → Outcome g (toposort_loop n g)
  unfolding toposort_loop
  loop-Outcome zero [] w h = IsSorted-nil
  loop-Outcome zero (p ∷ g) w h = absurd (omega arith)
  loop-Outcome (suc n) [] w h = absurd (omega arith)
  loop-Outcome (suc n) (p ∷ g) w h = elim (Option-cases (first_leaf (p ∷ g))) [
    | inl stuck ↦
        rw (stuck, toposort_loop)
          (IsStuck-here (p ∷ g) w stuck p.0 (unfold lookup in ground (arith, beq_refl p.0)))
    | inr (key, found) ↦
        rw (found, toposort_loop)
          (Outcome-cons (p ∷ g) key w found (toposort_loop n (delitem key (p ∷ g))) (
            loop-Outcome n (delitem key (p ∷ g)) (leaf_WellFormed (p ∷ g) key w found)
              (omega (arith, leaf-length (p ∷ g) key w found))))
  ]

  -- On a well-formed graph, whatever the order in which its keys are iterated, `toposort` either
  -- yields every key once and behind all the keys that it requires, or raises with a part of the
  -- graph in which every key requires another.
  pub toposort-Outcome : (g : Graph K) → WellFormed g → Outcome g (toposort g)
  unfolding toposort
  toposort-Outcome g w = loop-Outcome (length g) g w refl
