-- ===== src/Stack/Samples.antt =====
-- Stacks with numbers for templates and environments, and the theorems about their lives at them.
use heat.Prelude.{ℕ, true, false, ◌≡◌, refl, ◌⊎◌, [], ◌∷◌, none, some, All, ltb}
use heat.Scheduler.Coroutine.{timed_out, resource_failure, ok, raise}
use heat.Stack.State.{
  create_action, delete_action, update_action, rollback_action, failed, complete, Stack, state_set,
  store,
}
use heat.Stack.Tasks.{stack_task, roll_back, create, adopt}
use heat.Stack.Deleting.{Teardown, close_deletion, destroy_resources, behind_backup, delete_stack}
use heat.Stack.Updating.{
  Template, refused_update, close_update, updated, behind_run, begin_update, update_task,
}
use heat.Stack.Restart.{destroy_all, create_all, restart_resource}
use heat.Stack.Outcomes.{Created, create-Created}
use heat.Stack.Deleted.{Deleted, delete_stack-Deleted}
use heat.Stack.Updated.{UpdateEnds, update_task-UpdateEnds}
use heat.Stack.Restarted.{names_of, StopsAtFailure, IsAborted, restart_resource_lem}

program : Unit {0}
unfolding state_set store stack_task roll_back create adopt close_deletion destroy_resources
    behind_backup delete_stack refused_update close_update updated behind_run begin_update
    update_task destroy_all create_all restart_resource
program = tt

abbrev stack : Stack ℕ ℕ
stack = record {
  state = some (create_action, complete);
  row = some (create_action, complete);
  disable_rollback = false;
  template = 1;
  env = 10;
}

abbrev clean : Teardown
clean = record { run = ok tt; trust = some true; project = none }

abbrev stubborn : Teardown
stubborn = record { run = raise timed_out; trust = none; project = none }

create-failing :
    create (raise resource_failure) clean stack
    ≡ (ok tt, record stack { state = some (rollback_action, complete); row = none } ∷ [])
unfolding program
create-failing = refl

-- A back-up stack that cannot be deleted keeps the stack.
delete-backup : delete_stack delete_action false ((stack, clean) ∷ (stack, stubborn) ∷ []) ≡ (
  ok tt,
  record stack { state = some (delete_action, failed); row = some (delete_action, failed) }
      ∷ record stack { state = some (delete_action, failed); row = some (delete_action, failed) }
      ∷ [],
)
unfolding program
delete-backup = refl

abbrev filed : Stack (Template ℕ ℕ) ℕ
filed = record {
  state = some (create_action, complete);
  row = some (create_action, complete);
  disable_rollback = false;
  template = record { body = 1; files = 100 };
  env = 10;
}

abbrev new_template : Template ℕ ℕ
new_template = record { body = 2; files = 200 }

-- The files are not rolled back.
update-rolled_back :
    update_task
      (λ t. none)
      update_action
      new_template
      20
      (raise resource_failure ∷ ok tt ∷ [])
      []
      filed
    ≡ some (
      ok tt,
      record filed {
        state = some (rollback_action, complete);
        row = some (rollback_action, complete);
        template = record { body = 1; files = 200 };
      },
      [],
    )
unfolding program
update-rolled_back = refl

create-Created_example :
    Created create_action stack (create (raise resource_failure) stubborn stack)
create-Created_example = create-Created (raise resource_failure) stubborn stack

delete_stack-Deleted_example :
    Deleted delete_action (delete_stack delete_action false ((stack, clean) ∷ (stack, clean) ∷ []))
delete_stack-Deleted_example =
    delete_stack-Deleted delete_action false ((stack, clean) ∷ (stack, clean) ∷ []) refl

update_task-UpdateEnds_example :
    UpdateEnds
      (λ t. none)
      new_template
      20
      filed
      (update_task
        (λ t. none)
        update_action
        new_template
        20
        (raise resource_failure ∷ ok tt ∷ [])
        ((filed, clean) ∷ [])
        filed)
update_task-UpdateEnds_example =
    update_task-UpdateEnds (λ t. none) new_template 20 (raise resource_failure) (ok tt) []
      ((filed, clean) ∷ []) filed refl

restart_resource_lem_example :
    (names_of (restart_resource (λ k. true) (λ k. ltb k 3) (3 ∷ 2 ∷ 1 ∷ []) (1 ∷ 2 ∷ 3 ∷ []))
      ≡ 1 ∷ 2 ∷ 3 ∷ [])
    × StopsAtFailure (restart_resource (λ k. true) (λ k. ltb k 3) (3 ∷ 2 ∷ 1 ∷ []) (1 ∷ 2 ∷ 3 ∷ []))
    × (All IsAborted (restart_resource (λ k. true) (λ k. ltb k 3) (3 ∷ 2 ∷ 1 ∷ []) (1 ∷ 2 ∷ 3 ∷ []))
        ⊎ All {A = ℕ} (λ k. true ≡ true) (3 ∷ 2 ∷ 1 ∷ []))
restart_resource_lem_example =
    restart_resource_lem (λ k. true) (λ k. ltb k 3) (3 ∷ 2 ∷ 1 ∷ []) (1 ∷ 2 ∷ 3 ∷ [])
