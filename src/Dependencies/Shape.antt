-- ===== src/Dependencies/Shape.antt =====
-- The invariant of the graphs that `Dependencies` builds: the keys are distinct, and the two edge
-- sets of the nodes mirror one another. Every operation that builds a graph keeps it.
use heat.Prelude.{true, ◌≡◌, refl, sym, ◌∙◌, List, [], ◌∷◌, Eq, Option, none, some, arith}
use heat.Dict.{lookup, IsDict, has_key, put-IsDict, delete-IsDict}
use heat.Dependencies.Node.{new_node, isub}
use heat.Dependencies.Graph.{
  Graph, node_at, touch, add_satisfy, needs, feeds, remove_from, remove_from_all, delitem,
}
use heat.Dependencies.Views.{
  needs-add_require, feeds-add_require, needs-add_satisfy, feeds-add_satisfy,
}
use heat.Dependencies.Deletion.{needs-touch, feeds-touch}
use heat.Dependencies.Deps.{iadd, iadd_all, dependencies}

module _ {ℓ} {K : Type ℓ} ⦃e : Eq K⦄ where
  pub record WellFormed (g : Graph K) : Type ℓ where
    pub distinct : IsDict g
    pub symmetric : (a b : K) → needs g a b ≡ feeds g b a

  pub has_key_of_needs : (g : Graph K) (a b : K) → needs g a b ≡ true → has_key a g ≡ true
  unfolding needs
  has_key_of_needs g a b h = ground arith

  pub has_key_of_feeds : (g : Graph K) (a b : K) → feeds g a b ≡ true → has_key a g ≡ true
  unfolding feeds
  has_key_of_feeds g a b h = ground arith

  -- What a key of a well-formed graph requires is a key too.
  pub has_key_of_required :
      {g : Graph K} → WellFormed g → (a b : K) → needs g a b ≡ true → has_key b g ≡ true
  has_key_of_required {g} w a b h = has_key_of_feeds g b a (sym (w.symmetric a b) ∙ h)

  pub touch-IsDict : (k : K) (g : Graph K) → IsDict g → IsDict (touch k g)
  unfolding touch
  touch-IsDict k g h = ground (arith, put-IsDict k new_node g h)

  remove_from-IsDict : (key src : K) (g : Graph K) → IsDict g → IsDict (remove_from key src g)
  unfolding remove_from
  remove_from-IsDict key src g h =
      ground (arith, put-IsDict src (isub key (node_at src g)) g h, touch-IsDict src g h)

  pub remove_from_all-IsDict :
      (key : K) (srcs : List K) (g : Graph K) → IsDict g → IsDict (remove_from_all key srcs g)
  unfolding remove_from_all
  remove_from_all-IsDict key [] g h = h
  remove_from_all-IsDict key (src ∷ rest) g h =
      remove_from_all-IsDict key rest (remove_from key src g) (remove_from-IsDict key src g h)

  pub delitem-IsDict : (key : K) (g : Graph K) → IsDict g → IsDict (delitem key g)
  unfolding delitem
  delitem-IsDict key g h =
      delete-IsDict key _
        (remove_from_all-IsDict key (node_at key g).satisfy _ (touch-IsDict key g h))

  iadd-IsDict : (g : Graph K) (edge : K × Option K) → IsDict g → IsDict (iadd g edge)
  unfolding iadd
  iadd-IsDict g (r, none) h = touch-IsDict r g h
  iadd-IsDict g (r, some q) h = put-IsDict r _ _ (put-IsDict q _ g h)

  -- Adding an edge keeps a graph well formed.
  pub iadd-WellFormed :
      (g : Graph K) (edge : K × Option K) → WellFormed g → WellFormed (iadd g edge)
  unfolding iadd
  iadd-WellFormed g (r, none) w = record {
    distinct = iadd-IsDict g (r, none) w.distinct;
    symmetric = λ a b. ground (arith, needs-touch r g a b, feeds-touch r g b a, w.symmetric a b);
  }
  iadd-WellFormed g (r, some q) w = record {
    distinct = iadd-IsDict g (r, some q) w.distinct;
    symmetric = λ a b. ground (
      arith,
      needs-add_require r q (add_satisfy q r g) a b,
      feeds-add_require r q (add_satisfy q r g) b a,
      needs-add_satisfy q r g a b,
      feeds-add_satisfy q r g b a,
      w.symmetric a b,
      e.beq_iff r a,
      e.beq_iff b q,
      e.beq_iff q b,
      e.beq_iff a r,
    );
  }

  iadd_all-WellFormed :
      (g : Graph K) (edges : List (K × Option K)) → WellFormed g → WellFormed (iadd_all g edges)
  unfolding iadd_all
  iadd_all-WellFormed g [] w = w
  iadd_all-WellFormed g (edge ∷ rest) w =
      iadd_all-WellFormed (iadd g edge) rest (iadd-WellFormed g edge w)

  nil-WellFormed : WellFormed []
  unfolding needs feeds lookup
  nil-WellFormed = record { distinct = tt; symmetric = λ a b. refl }

  -- The graph of `Dependencies(edges)` is well formed, whatever the edges.
  pub dependencies-WellFormed : (edges : List (K × Option K)) → WellFormed (dependencies edges)
  unfolding dependencies
  dependencies-WellFormed edges = iadd_all-WellFormed [] edges nil-WellFormed
