-- ===== src/Stack/Updating.antt =====
-- `update_task` of a stack. An update that fails starts another, the rollback to the old template:
-- the list holds how the runs of StackUpdate end, one after another. The old stack shares its template
-- object with the stack that is updated, so an assignment to the files of the one is to those of both.
use heat.Prelude.{
  Bool, true, false, not, ◌&&◌, ◌||◌, Option, none, some, List, [], ◌∷◌, if◌then◌else◌,
}
use heat.Scheduler.Coroutine.{Exn, timed_out, resource_failure, Result, ok, raise}
use heat.Stack.State.{
  Action, delete_action, update_action, rollback_action, Status, in_progress, failed, complete,
  Stack, is_complete, is_update, is_rollback, state_set, store,
}
use heat.Stack.Deleting.{Teardown, delete_stack, stacks_of}

-- `self.state == (self.UPDATE, self.IN_PROGRESS)`
abbrev pub is_updating : Option (Action × Status) → Bool
is_updating (some (update_action, in_progress)) = true
is_updating _ = false

pub data Caught : Type 0 where
  time_out resource_fails escapes : Caught

-- The `except` clause that takes an exception.
abbrev pub caught_by : Exn → Caught
caught_by timed_out = time_out
caught_by resource_failure = resource_fails
caught_by _ = escapes

module _ {T E : Type 0} where
  -- The early returns of `update_task`: the stack that they leave.
  unfoldable pub refused_update : Action → Stack T E → Option (Stack T E)
  unfolding state_set
  refused_update action s =
      if is_update action || is_rollback action
      then (if is_complete s.state || is_rollback action && is_updating s.state
          then none
          else some (state_set action failed s))
      else some (state_set update_action failed s)

pub record Template (B F : Type 0) : Type 0 where
  pub body : B
  pub files : F

-- `t.files = new.files`
abbrev pub with_files : {B F : Type 0} → Template B F → Template B F → Template B F
with_files new t = record t { files = new.files }

module _ {B F E : Type 0} where
  -- The state in which the update runs.
  unfoldable pub begin_update : Template B F → E → Stack (Template B F) E → Stack (Template B F) E
  unfolding state_set
  begin_update new env s = record (state_set update_action in_progress s) {
    env = env;
    template = with_files new s.template;
  }

  abbrev pub behind_close :
      List (Stack (Template B F) E)
      → Result Unit × Stack (Template B F) E
      → Result Unit × Stack (Template B F) E × List (Stack (Template B F) E)
  behind_close backups (r, s) = (r, s, backups)

-- `closing` says what `resolve_static_data` makes of the outputs of a template, or the `store` behind
-- it: the exception, if there is one.
module _ {B F E : Type 0} (closing : Template B F → Option Exn) where
  -- From the last `state_set` on: the template is the new one, and the stack is stored.
  unfoldable pub close_update :
      Action → Status → Template B F → Stack (Template B F) E → Result Unit × Stack (Template B F) E
  unfolding state_set store
  close_update action status new s =
      let closed = record (state_set action status s) { template = new } in
      elim (closing new) [ some x ↦ (raise x, closed) | none ↦ (ok tt, store closed) ]

  -- Behind the deletion of the back-up stack, whose own status does not matter.
  unfoldable pub updated :
      Action
      → Template B F
      → Stack (Template B F) E
      → Result Unit × List (Stack (Template B F) E)
      → Result Unit × Stack (Template B F) E × List (Stack (Template B F) E)
  unfolding close_update
  updated action new s (raise x, backups) = (raise x, s, backups)
  updated action new s (ok u, backups) = behind_close backups (close_update action complete new s)

  -- Behind the run of StackUpdate; `again` is the rollback.
  unfoldable pub behind_run :
      Action
      → Template B F
      → List (Stack (Template B F) E × Teardown)
      → Stack (Template B F) E
      → Option (Result Unit × Stack (Template B F) E × List (Stack (Template B F) E))
      → Result Unit
      → Option (Result Unit × Stack (Template B F) E × List (Stack (Template B F) E))
  unfolding updated close_update delete_stack
  behind_run action new backups s again (ok u) =
      some (updated action new s (delete_stack delete_action true backups))
  behind_run action new backups s again (raise x) = elim (caught_by x) [
    | time_out ↦ some (behind_close (stacks_of backups) (close_update action failed new s))
    | resource_fails ↦
        if is_update action && not s.disable_rollback
        then again
        else some (behind_close (stacks_of backups) (close_update action failed new s))
    | escapes ↦ some (raise x, s, stacks_of backups)
  ]

  -- `update_task(newstack, action)`, `newstack` being a template and an environment; `none`: there
  -- are more runs than the list has.
  unfoldable pub update_task :
      Action
      → Template B F
      → E
      → List (Result Unit)
      → List (Stack (Template B F) E × Teardown)
      → Stack (Template B F) E
      → Option (Result Unit × Stack (Template B F) E × List (Stack (Template B F) E))
  unfolding refused_update behind_run begin_update
  update_task action new env [] backups s = elim (refused_update action s) [
    | some left ↦ some (ok tt, left, stacks_of backups)
    | none ↦ none
  ]
  update_task action new env (run ∷ runs) backups s =
      let begun = begin_update new env s in
      let again = update_task rollback_action begun.template s.env runs backups begun in
      elim (refused_update action s) [
        | some left ↦ some (ok tt, left, stacks_of backups)
        | none ↦ behind_run action new backups begun again run
      ]
