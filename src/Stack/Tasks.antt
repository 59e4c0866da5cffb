-- ===== src/Stack/Tasks.antt =====
-- `stack_task` of a stack, and the actions that run it: `create`, `adopt`, `suspend` and `resume`. How
-- the group of the resources' tasks ends is an argument.
use heat.Prelude.{false, not, ◌&&◌, List, [], ◌∷◌, if◌then◌else◌}
use heat.Scheduler.Coroutine.{Result, ok, raise}
use heat.Stack.State.{
  Action, create_action, rollback_action, suspend_action, resume_action, adopt_action, in_progress,
  failed, complete, Stack, is_failed, is_caught, state_set,
}
use heat.Stack.Deleting.{Teardown, delete_stack}

module _ {T E : Type 0} where
  -- `stack_task(action)` without its `post_func`
  unfoldable pub stack_task : Action → Result Unit → Stack T E → Result Unit × Stack T E
  unfolding state_set
  stack_task action run s =
      let started = state_set action in_progress s in
      elim run [
        | ok u ↦ (ok tt, state_set action complete started)
        | raise x ↦
            if is_caught x then (ok tt, state_set action failed started) else (raise x, started)
      ]

  -- `rollback()`, the `post_func` of `create` and `adopt`. Behind the action that it follows the state
  -- is of that action. The stack is new, and has no back-up.
  unfoldable pub roll_back : Teardown → Result Unit × Stack T E → Result Unit × List (Stack T E)
  unfolding delete_stack
  roll_back t (raise x, s) = (raise x, s ∷ [])
  roll_back t (ok u, s) =
      if not s.disable_rollback && is_failed s.state
      then delete_stack rollback_action false ((s, t) ∷ [])
      else (ok tt, s ∷ [])

  unfoldable pub create : Result Unit → Teardown → Stack T E → Result Unit × List (Stack T E)
  unfolding roll_back stack_task
  create run t s = roll_back t (stack_task create_action run s)

  unfoldable pub adopt : Result Unit → Teardown → Stack T E → Result Unit × List (Stack T E)
  unfolding roll_back stack_task
  adopt run t s = roll_back t (stack_task adopt_action run s)

  unfoldable pub suspend : Result Unit → Stack T E → Result Unit × Stack T E
  unfolding stack_task
  suspend run s = stack_task suspend_action run s

  unfoldable pub resume : Result Unit → Stack T E → Result Unit × Stack T E
  unfolding stack_task
  resume run s = stack_task resume_action run s
