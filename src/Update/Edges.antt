-- ===== src/Update/Edges.antt =====
-- `StackUpdate.dependencies` of update.py: which operation of an update waits for which. A stack is a
-- dict from names to resources; a resource that the new stack has is created or updated, and one of
-- the existing stack is cleaned up.
use heat.Prelude.{List, [], ◌∷◌, ◌++◌, Option, none, some, Eq, true, false}
use heat.Dict.{Dict, lookup}
use heat.Dependencies.Graph.{Graph, edges}
use heat.Dependencies.Deps.{dependencies, deps_graph}

module _ {Name Res : Type 0} ⦃n : Eq Name⦄ ⦃e : Eq Res⦄ where
  -- The last loop of `edges`: a resource is cleaned up behind the creation of its replacement.
  unfoldable pub replacements : Dict Name Res → Dict Name Res → List (Res × Option Res)
  replacements [] new_stack = []
  replacements ((name, res) ∷ rest) new_stack =
      let more = replacements rest new_stack in
      elim (lookup name new_stack) [ none ↦ more | some new_res ↦ (res, some new_res) ∷ more ]

  -- `edges()`
  unfoldable pub update_edges :
      Graph Res → Graph Res → Dict Name Res → Dict Name Res → List (Res × Option Res)
  unfolding replacements
  update_edges new_deps existing_deps existing_stack new_stack =
      edges (deps_graph new_deps false)
      ++ edges (deps_graph existing_deps true)
      ++ replacements existing_stack new_stack

  -- `dependencies()`
  unfoldable pub update_dependencies :
      Graph Res → Graph Res → Dict Name Res → Dict Name Res → Graph Res
  unfolding update_edges
  update_dependencies new_deps existing_deps existing_stack new_stack =
      dependencies (update_edges new_deps existing_deps existing_stack new_stack)
