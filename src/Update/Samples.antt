-- ===== src/Update/Samples.antt =====
-- A stack of two resources and its update, and the theorems at it.
use heat.Prelude.{
  ℕ, true, false, subst, inr, ◌==◌, if◌then◌else◌, ◌≡◌, refl, ◌↔◌, ◌⊎◌, List, [], ◌∷◌, Option, none,
  some, nat_eq, String, string_eq, arith,
}
use heat.Dict.{Dict, lookup, put, delete, has_key, IsDict}
use heat.Scheduler.Coroutine.{Result}
use heat.Resource.Lifecycle.{init, create_action, delete_action, failed, complete, State}
use heat.Update.Operations.{
  Side, existing_side, previous_side, new_side, created, replaced, World, Plugins, put_in,
  resource_update, process_new_resource_update,
}
use heat.Update.Kept.{Kept, Owned}
use heat.Update.CleanedUp.{CleansUp, resource_update-Kept}
use heat.Update.Completed.{EndsComplete, process_new-EndsComplete}
use heat.Dependencies.Graph.{
  Graph, touch, add_satisfy, add_require, needs, feeds, reverse_copy, edges, outgoing_edges, pairs,
  first_leaf, toposort_loop, toposort, delitem, remove_from, remove_from_all,
}
use heat.Dependencies.Deps.{iadd, iadd_all, dependencies, deps_graph, deps_iter}
use heat.Dependencies.Shape.{dependencies-WellFormed}
use heat.Dependencies.Order.{IsSorted}
use heat.Dependencies.Edges.{dependencies-edges}
use heat.Update.Edges.{replacements, update_edges, update_dependencies}
use heat.Update.Acyclic.{Replaces, update_dependencies_iff, deps_iter-update_dependencies}

program : Unit {0}
unfolding lookup put delete touch add_satisfy add_require needs feeds reverse_copy edges
    outgoing_edges pairs first_leaf toposort_loop toposort delitem remove_from remove_from_all iadd
    iadd_all dependencies deps_graph deps_iter replacements update_edges update_dependencies
program = tt

-- A server 2 requires a volume 1; in the new stack a server 12 requires a volume 11.
abbrev existing_edges : List (ℕ × Option ℕ)
existing_edges = (2, some 1) ∷ []

abbrev new_edges : List (ℕ × Option ℕ)
new_edges = (12, some 11) ∷ []

abbrev existing_stack : Dict String ℕ
existing_stack = ("volume", 1) ∷ ("server", 2) ∷ []

abbrev new_stack : Dict String ℕ
new_stack = ("volume", 11) ∷ ("server", 12) ∷ []

abbrev update : Graph ℕ
update =
    update_dependencies (dependencies new_edges) (dependencies existing_edges) existing_stack
      new_stack

-- The new volume and server are created, then the old server and the old volume are cleaned up.
iter-update : deps_iter update ≡ (11 ∷ 12 ∷ 2 ∷ 1 ∷ [], none)
unfolding program
iter-update = refl

names : IsDict existing_stack
unfolding program
names = (refl, (refl, tt))

update_dependencies_iff_example : (needs update 2 12 ≡ true) ↔ (
    (needs (dependencies new_edges) 2 12 ≡ true)
    ⊎ (feeds (dependencies existing_edges) 2 12 ≡ true)
    ⊎ Replaces existing_stack new_stack 2 12)
update_dependencies_iff_example =
    update_dependencies_iff (dependencies new_edges) (dependencies existing_edges) existing_stack
      new_stack (dependencies-WellFormed new_edges) (dependencies-WellFormed existing_edges) names 2
      12

both_end :
    ((deps_iter (dependencies new_edges)).1 ≡ none)
    × ((deps_iter (dependencies existing_edges)).1 ≡ none)
unfolding program
both_end = (refl, refl)

apart :
    (k : ℕ)
    → has_key k (dependencies new_edges) ≡ true
    → has_key k (dependencies existing_edges) ≡ false
apart k h =
    ground (arith, (dependencies-edges new_edges).1 k, (dependencies-edges existing_edges).1 k)

existing_known :
    (name : String) (res : ℕ)
    → lookup name existing_stack ≡ some res
    → has_key res (dependencies existing_edges) ≡ true
unfolding lookup
existing_known name res h = ground (arith, (dependencies-edges existing_edges).1 res)

new_known :
    (name : String) (res : ℕ)
    → lookup name new_stack ≡ some res
    → has_key res (dependencies new_edges) ≡ true
unfolding lookup
new_known name res h = ground (arith, (dependencies-edges new_edges).1 res)

deps_iter-update_dependencies_example :
    ((deps_iter update).1 ≡ none) × IsSorted update (deps_iter update).0
deps_iter-update_dependencies_example =
    deps_iter-update_dependencies (dependencies new_edges) (dependencies existing_edges)
      existing_stack new_stack (dependencies-WellFormed new_edges)
      (dependencies-WellFormed existing_edges) names both_end.0 both_end.1 apart existing_known
      new_known

-- The old server is replaced. The previous stack has a server that could not be created.
abbrev plugins : Plugins
plugins = record { destroys = λ r. true; creates = λ r. created; updates = λ r. replaced }

abbrev object_state : ℕ → State
object_state r =
    if r == 12
    then record { action = init; status = complete }
    else (if r == 5
        then record { action = create_action; status = failed }
        else record { action = create_action; status = complete })

abbrev object_stack : ℕ → Side
object_stack r = if r == 12 then new_side else (if r == 5 then previous_side else existing_side)

abbrev world : World String
world = record {
  existing = existing_stack;
  previous = ("server", 5) ∷ [];
  new = new_stack;
  state = λ r. object_state r;
  stack = λ r. object_stack r;
}

abbrev after_update : World String × Result Unit
after_update = resource_update plugins "server" 12 world

replaced-server :
    (after_update.0.existing ≡ ("volume", 1) ∷ ("server", 12) ∷ [])
    × (after_update.0.previous ≡ ("server", 2) ∷ [])
    × (after_update.0.state 5 ≡ record { action = delete_action; status = complete })
unfolding program resource_update put_in
replaced-server = (refl, refl, refl)

server-Owned : Owned plugins "server" world
unfolding program
server-Owned = (
  λ r e. subst (λ q. object_stack q ≡ existing_side) (number e) refl,
  λ r e. subst (λ q. object_stack q ≡ previous_side) (number e) refl,
)
  where
    number : {p q : ℕ} → some p ≡ some q → p ≡ q
    number e = ground arith

server_here : lookup "server" world.previous ≡ some 5
unfolding program
server_here = refl

server_wanted : CleansUp plugins "server" world 12
unfolding program
server_wanted missing = ground arith

resource_update-Kept_example : Kept plugins "server" (resource_update plugins "server" 12 world).0 5
resource_update-Kept_example =
    resource_update-Kept plugins "server" 12 5 world server-Owned server_wanted (inr server_here)

process_new-EndsComplete_example :
    EndsComplete plugins "server" world (process_new_resource_update plugins "server" 12 world)
process_new-EndsComplete_example = process_new-EndsComplete plugins "server" 12 world server-Owned
