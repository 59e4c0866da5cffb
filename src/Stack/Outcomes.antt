-- ===== src/Stack/Outcomes.antt =====
-- The states in which `create`, `adopt`, `suspend` and `resume` leave a stack.
use heat.Prelude.{true, false, ◌≡◌, ◌⊎◌, none, some, List, [], ◌∷◌, arith}
use heat.Scheduler.Coroutine.{Result, ok, raise}
use heat.Stack.State.{
  Action, create_action, rollback_action, adopt_action, Status, in_progress, failed, complete,
  Stack, is_caught, state_set,
}
use heat.Stack.Deleting.{Teardown, delete_stack}
use heat.Stack.Tasks.{stack_task, roll_back, create, adopt}

module _ {T E : Type 0} where
  -- How a creation ends: complete; failed, with the rollback disabled; or rolled back, the stack being
  -- deleted if the rollback is complete. It never returns with an action in progress.
  abbrev pub Created : Action → Stack T E → Result Unit × List (Stack T E) → Type 0
  Created action s (raise x, left) = is_caught x ≡ false
  Created action s (ok u, []) = ⊥
  Created action s (ok u, left ∷ others) =
      (left.state ≡ some (action, complete))
      ⊎ ((left.state ≡ some (action, failed)) × (s.disable_rollback ≡ true))
      ⊎ ((left.state ≡ some (rollback_action, complete))
          × (left.row ≡ none)
          × (s.disable_rollback ≡ false))
      ⊎ ((left.state ≡ some (rollback_action, failed)) × (s.disable_rollback ≡ false))

  pub state_set-state :
      (action : Action) (status : Status) (s : Stack T E)
      → (state_set action status s).state ≡ some (action, status)
  unfolding state_set
  state_set-state action status s = ground arith

  state_set-disable_rollback :
      (action : Action) (status : Status) (s : Stack T E)
      → (state_set action status s).disable_rollback ≡ s.disable_rollback
  unfolding state_set
  state_set-disable_rollback action status s = ground arith

  roll_back-Created :
      (action : Action) (run : Result Unit) (t : Teardown) (s : Stack T E)
      → Created action s (roll_back t (stack_task action run s))
  unfolding roll_back stack_task delete_stack
  roll_back-Created action (ok u) t s =
      ground (arith, state_set-state action complete (state_set action in_progress s))
  roll_back-Created action (raise x) t s = ground (
    arith,
    state_set-state action failed (state_set action in_progress s),
    state_set-disable_rollback action failed (state_set action in_progress s),
    state_set-disable_rollback action in_progress s,
  )

  -- However the tasks of the resources end, and whatever the deletion of the resources and of what
  -- Keystone holds comes to: a creation that returns leaves the stack complete; failed, with the
  -- rollback disabled; or rolled back, and then without a row if the rollback is complete. An exception
  -- that it lets out is neither a ResourceFailure nor a Timeout.
  pub create-Created :
      (run : Result Unit) (t : Teardown) (s : Stack T E) → Created create_action s (create run t s)
  unfolding create
  create-Created run t s = roll_back-Created create_action run t s

  -- An adoption ends in the same ways as a creation.
  pub adopt-Created :
      (run : Result Unit) (t : Teardown) (s : Stack T E) → Created adopt_action s (adopt run t s)
  unfolding adopt
  adopt-Created run t s = roll_back-Created adopt_action run t s
