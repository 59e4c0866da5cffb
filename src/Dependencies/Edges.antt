-- ===== src/Dependencies/Edges.antt =====
-- `Dependencies(edges)` holds exactly the edges that it is given, and `graph(reverse=True)` turns
-- each of them round.
use heat.Prelude.{
  Bool, false, ◌||◌, ◌&&◌, ◌≡◌, refl, sym, ◌∙◌, List, [], ◌∷◌, ◌++◌, Eq, ◌==◌, Option, none, some,
  arith,
}
use heat.Dict.{lookup, IsDict, has_key}
use heat.Dependencies.Node.{Node_reverse_copy}
use heat.Dependencies.Graph.{Graph, node_at, touch, add_satisfy, needs, feeds, reverse_copy}
use heat.Dependencies.Views.{
  needs-add_require, needs-add_satisfy, has_key-touch, has_key-add_require, has_key-add_satisfy,
}
use heat.Dependencies.Deletion.{needs-touch}
use heat.Dependencies.Deps.{iadd, iadd_all, dependencies, deps_reversed}
use heat.Dependencies.Shape.{WellFormed, dependencies-WellFormed}
use heat.Dependencies.Order.{Outcome, toposort-Outcome}

module _ {ℓ} {K : Type ℓ} ⦃e : Eq K⦄ where
  -- Whether the list of edges says that `a` requires `b`.
  abbrev pub says_needs : List (K × Option K) → K → K → Bool
  says_needs [] a b = false
  says_needs ((r, none) ∷ es) a b = says_needs es a b
  says_needs ((r, some q) ∷ es) a b = r == a && b == q || says_needs es a b

  -- Whether the list of edges mentions `k`.
  abbrev pub mentions : List (K × Option K) → K → Bool
  mentions [] k = false
  mentions ((r, none) ∷ es) k = r == k || mentions es k
  mentions ((r, some q) ∷ es) k = r == k || q == k || mentions es k

  pub says_needs-append :
      (xs ys : List (K × Option K)) (a b : K)
      → says_needs (xs ++ ys) a b ≡ (says_needs xs a b || says_needs ys a b)
  says_needs-append [] ys a b = refl
  says_needs-append ((r, none) ∷ xs) ys a b = says_needs-append xs ys a b
  says_needs-append ((r, some q) ∷ xs) ys a b = ground (arith, says_needs-append xs ys a b)

  needs-iadd_all :
      (es : List (K × Option K)) (g : Graph K) (a b : K)
      → needs (iadd_all g es) a b ≡ (needs g a b || says_needs es a b)
  unfolding iadd_all iadd
  needs-iadd_all [] g a b = ground arith
  needs-iadd_all ((r, none) ∷ es) g a b =
      ground (arith, needs-iadd_all es (touch r g) a b, needs-touch r g a b)
  needs-iadd_all ((r, some q) ∷ es) g a b = ground (
    arith,
    needs-iadd_all es (iadd g (r, some q)) a b,
    needs-add_require r q (add_satisfy q r g) a b,
    needs-add_satisfy q r g a b,
  )

  has_key-iadd_all :
      (es : List (K × Option K)) (g : Graph K) (k : K)
      → has_key k (iadd_all g es) ≡ (has_key k g || mentions es k)
  unfolding iadd_all iadd
  has_key-iadd_all [] g k = ground arith
  has_key-iadd_all ((r, none) ∷ es) g k =
      ground (arith, has_key-iadd_all es (touch r g) k, has_key-touch r k g)
  has_key-iadd_all ((r, some q) ∷ es) g k = ground (
    arith,
    has_key-iadd_all es (iadd g (r, some q)) k,
    has_key-add_require r q (add_satisfy q r g) k,
    has_key-add_satisfy q r g k,
  )

  -- The graph of `Dependencies(edges)`: `a` requires `b` exactly when an edge (a, b) is in the list,
  -- and its keys are exactly the objects that the list mentions.
  pub dependencies-edges :
      (es : List (K × Option K))
      → ((a b : K) → needs (dependencies es) a b ≡ says_needs es a b)
        × ((k : K) → has_key k (dependencies es) ≡ mentions es k)
  unfolding dependencies needs lookup
  dependencies-edges es = (λ a b. needs-iadd_all es [] a b, λ k. has_key-iadd_all es [] k)

  lookup-reverse_copy :
      (k : K) (g : Graph K) → node_at k (reverse_copy g) ≡ Node_reverse_copy (node_at k g)
  unfolding reverse_copy lookup
  lookup-reverse_copy k [] = refl
  lookup-reverse_copy k ((j, n) ∷ g) = ground (arith, lookup-reverse_copy k g)

  has_key-reverse_copy : (k : K) (g : Graph K) → has_key k (reverse_copy g) ≡ has_key k g
  unfolding reverse_copy lookup
  has_key-reverse_copy k [] = refl
  has_key-reverse_copy k ((j, n) ∷ g) = ground (arith, has_key-reverse_copy k g)

  -- A reversed copy has the same keys, and `a` requires `b` in it exactly when `b` lists `a`.
  pub needs-reverse_copy : (g : Graph K) (a b : K) → needs (reverse_copy g) a b ≡ feeds g a b
  unfolding needs feeds
  needs-reverse_copy g a b = rw lookup-reverse_copy

  pub feeds-reverse_copy : (g : Graph K) (a b : K) → feeds (reverse_copy g) a b ≡ needs g a b
  unfolding needs feeds
  feeds-reverse_copy g a b = rw lookup-reverse_copy

  reverse_copy-IsDict : (g : Graph K) → IsDict g → IsDict (reverse_copy g)
  unfolding reverse_copy
  reverse_copy-IsDict [] d = d
  reverse_copy-IsDict ((j, n) ∷ g) d =
      (ground (arith, has_key-reverse_copy j g), reverse_copy-IsDict g d.1)

  pub reverse_copy-WellFormed : (g : Graph K) → WellFormed g → WellFormed (reverse_copy g)
  reverse_copy-WellFormed g w = record {
    distinct = reverse_copy-IsDict g w.distinct;
    symmetric =
        λ a b. needs-reverse_copy g a b ∙ sym (w.symmetric b a) ∙ sym (feeds-reverse_copy g b a);
  }

  -- `reversed(Dependencies(edges))` either yields each object that the edges mention once, each
  -- before all that it requires, or raises with a part of the reversed graph that is cyclic.
  pub deps_reversed-Outcome :
      (es : List (K × Option K))
      → Outcome (reverse_copy (dependencies es)) (deps_reversed (dependencies es))
  unfolding deps_reversed
  deps_reversed-Outcome es =
      toposort-Outcome (reverse_copy (dependencies es))
        (reverse_copy-WellFormed (dependencies es) (dependencies-WellFormed es))
