-- ===== src/Dependencies/Graph.antt =====
-- `Graph` of dependencies.py: a defaultdict of nodes, so that a read of a missing key creates a
-- node. Its methods return the new graph.
use heat.Prelude.{
  ℕ, zero, suc, Bool, Option, none, some, List, [], ◌∷◌, ◌++◌, Eq, member, if◌then◌else◌, length,
}
use heat.Dict.{Dict, lookup, put, delete, has_key}
use heat.Dependencies.Node.{
  Node, new_node, Node_reverse_copy, nonzero, disjoint, required_by, requires, isub,
}

abbrev pub Graph {ℓ} : Type ℓ → Type ℓ
Graph K = Dict K (Node K)

module _ {ℓ} {K : Type ℓ} where
  -- `node.copy()` has the same sets, and the model's graphs are values: `graph.copy()` is the graph.
  unfoldable pub reverse_copy : Graph K → Graph K
  reverse_copy [] = []
  reverse_copy ((k, n) ∷ g) = (k, Node_reverse_copy n) ∷ reverse_copy g

  unfoldable pub pairs : K → List K → List (K × Option K)
  pairs rqr [] = []
  pairs rqr (rqd ∷ rest) = (rqr, some rqd) ∷ pairs rqr rest

  -- `outgoing_edges`
  unfoldable pub outgoing_edges : K → Node K → List (K × Option K)
  unfolding pairs
  outgoing_edges rqr node = if disjoint node then (rqr, none) ∷ [] else pairs rqr node.require

  unfoldable pub edges : Graph K → List (K × Option K)
  unfolding outgoing_edges
  edges [] = []
  edges ((rqr, node) ∷ g) = outgoing_edges rqr node ++ edges g

  -- The first key, in the order of iteration, whose node requires nothing.
  unfoldable pub first_leaf : Graph K → Option K
  first_leaf [] = none
  first_leaf ((key, node) ∷ g) = if nonzero node then first_leaf g else some key

module _ {ℓ} {K : Type ℓ} ⦃e : Eq K⦄ where
  -- `self[key]`, the value
  abbrev pub node_at : K → Graph K → Node K
  node_at key g = elim (lookup key g) [ some n ↦ n | none ↦ new_node ]

  -- `self[key]`, the effect on the defaultdict
  unfoldable pub touch : K → Graph K → Graph K
  touch key g = if has_key key g then g else put key new_node g

  -- `self[required].required_by(requirer)`
  unfoldable pub add_satisfy : K → K → Graph K → Graph K
  add_satisfy required requirer g = put required (required_by requirer (node_at required g)) g

  -- `self[requirer].requires(required)`
  unfoldable pub add_require : K → K → Graph K → Graph K
  add_require requirer required g = put requirer (requires required (node_at requirer g)) g

  -- The views by which the theorems read a graph: `b in self[a].require`, `b in self[a].satisfy`.
  unfoldable pub needs : Graph K → K → K → Bool
  needs g a b = member b (node_at a g).require

  unfoldable pub feeds : Graph K → K → K → Bool
  feeds g a b = member b (node_at a g).satisfy

  -- One round of the loop of `__delitem__`.
  unfoldable pub remove_from : K → K → Graph K → Graph K
  unfolding touch
  remove_from key src g =
      if member key (node_at src g).require
      then put src (isub key (node_at src g)) g
      else touch src g

  unfoldable pub remove_from_all : K → List K → Graph K → Graph K
  remove_from_all key [] g = g
  remove_from_all key (src ∷ rest) g = remove_from_all key rest (remove_from key src g)

  -- `del self[key]`. Reading the node creates it where it is missing, so the deletion finds it.
  unfoldable pub delitem : K → Graph K → Graph K
  unfolding remove_from_all
  delitem key g = delete key (remove_from_all key (node_at key g).satisfy (touch key g))

  -- `toposort` is a generator: the keys that it yields, and how it ends. `some g` stands for the
  -- CircularDependencyException with the graph that is left.
  unfoldable pub toposort_loop : ℕ → Graph K → List K × Option (Graph K)
  toposort_loop zero g = ([], none)
  toposort_loop (suc n) g = elim (first_leaf g) [
    | none ↦ ([], some g)
    | some key ↦ let rest = toposort_loop n (delitem key g) in (key ∷ rest.0, rest.1)
  ]

  unfoldable pub toposort : Graph K → List K × Option (Graph K)
  toposort g = toposort_loop (length g) g
