-- ===== src/Dependencies/Deps.antt =====
-- `Dependencies` of dependencies.py: a graph that is built from edges (requirer, required), an edge
-- with no second part only making its node. The class holds nothing but the graph.
use heat.Prelude.{
  ℕ, zero, suc, Bool, Option, none, some, List, [], ◌∷◌, ◌++◌, Eq, if◌then◌else◌, false, true,
}
use heat.Dict.{has_key}
use heat.Dependencies.Node.{stem}
use heat.Dependencies.Graph.{
  Graph, node_at, touch, add_satisfy, add_require, reverse_copy, toposort,
}

-- What `dependencies[last]` comes to: a KeyError, iterators that never end, or a graph.
pub data Partial {ℓ} (K : Type ℓ) : Type ℓ where
  key_error : Partial K
  no_end : Partial K
  partial : Graph K → Partial K

module _ {ℓ} {K : Type ℓ} ⦃e : Eq K⦄ where
  -- `self += (requirer, required)`
  unfoldable pub iadd : Graph K → K × Option K → Graph K
  unfolding touch add_satisfy add_require
  iadd g (requirer, none) = touch requirer g
  iadd g (requirer, some required) = add_require requirer required (add_satisfy required requirer g)

  unfoldable pub iadd_all : Graph K → List (K × Option K) → Graph K
  unfolding iadd
  iadd_all g [] = g
  iadd_all g (edge ∷ rest) = iadd_all (iadd g edge) rest

  -- `Dependencies(edges)`
  unfoldable pub dependencies : List (K × Option K) → Graph K
  unfolding iadd_all
  dependencies edges = iadd_all [] edges

  -- `dependencies.required_by(last)`; `none` is the KeyError.
  unfoldable pub deps_required_by : Graph K → K → Option (List K)
  deps_required_by g last = if has_key last g then some (node_at last g).satisfy else none

  -- `dependencies.graph(reverse)`
  unfoldable pub deps_graph : Graph K → Bool → Graph K
  deps_graph g reverse = if reverse then reverse_copy g else g

  -- `iter(dependencies)` and `reversed(dependencies)`
  unfoldable pub deps_iter : Graph K → List K × Option (Graph K)
  unfolding toposort deps_graph
  deps_iter g = toposort (deps_graph g false)

  unfoldable pub deps_reversed : Graph K → List K × Option (Graph K)
  unfolding toposort deps_graph
  deps_reversed g = toposort (deps_graph g true)

  -- The loop of `get_edges` over the requirers of `key`, given `get_edges` for each of them.
  unfoldable pub requirer_edges :
      (K → Option (List (K × Option K))) → K → List K → Option (List (K × Option K))
  requirer_edges rec key [] = some []
  requirer_edges rec key (rqr ∷ rest) =
      let tail = requirer_edges rec key rest in
      elim (rec rqr) [
        | none ↦ none
        | some below ↦ elim tail [
          | none ↦ none
          | some others ↦ some ((rqr, some key) ∷ below ++ others)
        ]
      ]

  -- `get_edges(key)`; `none` means that the fuel ran out: below a cycle the generators of the source
  -- never end.
  unfoldable pub get_edges : ℕ → Graph K → K → Option (List (K × Option K))
  unfolding requirer_edges
  get_edges zero g key = none
  get_edges (suc fuel) g key =
      requirer_edges (λ rqr. get_edges fuel g rqr) key (node_at key g).satisfy

  -- `dependencies[last]`
  unfoldable pub deps_getitem : ℕ → Graph K → K → Partial K
  unfolding get_edges dependencies
  deps_getitem fuel g last =
      if has_key last g
      then (if stem (node_at last g)
          then partial (dependencies ((last, none) ∷ []))
          else elim (get_edges fuel g last) [ none ↦ no_end | some es ↦ partial (dependencies es) ])
      else key_error
