-- ===== src/Stack/Deleting.antt =====
-- `Stack.delete`. A stack may have a back-up stack, left by an update, and that is a stack too: the
-- list holds the stack, its back-up, and so on. How the group of the resources' `destroy` tasks ends,
-- and what Keystone answers, are arguments, one record for each stack.
use heat.Prelude.{Bool, true, false, ◌&&◌, ◌||◌, Option, none, some, List, [], ◌∷◌, if◌then◌else◌}
use heat.Scheduler.Coroutine.{Result, ok, raise}
use heat.Stack.State.{
  Action, delete_action, in_progress, failed, complete, Stack, is_complete, is_delete, is_rollback,
  is_caught, state_set,
}

pub record Teardown : Type 0 where
  -- the run of the group
  pub run : Result Unit
  -- the deletion of the trust and of the stack's project, where there is one: whether it succeeds
  pub trust : Option Bool
  pub project : Option Bool

abbrev pub went_well : Option Bool → Bool
went_well none = true
went_well (some b) = b

module _ {T E : Type 0} where
  -- `db_api.stack_delete(self.context, self.id); self.id = None`
  abbrev pub forget : Stack T E → Stack T E
  forget s = record s { row = none }

  -- The end of `delete`: the last `state_set`, and the deletion of the row.
  unfoldable pub close_deletion : Action → Bool → Stack T E → Stack T E
  unfolding state_set
  close_deletion action succeeded s =
      if succeeded then forget (state_set action complete s) else state_set action failed s

  -- `delete` from the group's run on; a back-up stack keeps the trust and the project.
  unfoldable pub destroy_resources : Action → Bool → Teardown → Stack T E → Result Unit × Stack T E
  unfolding close_deletion
  destroy_resources action backup t s = elim t.run [
    | ok u ↦ (ok tt, close_deletion action (backup || went_well t.trust && went_well t.project) s)
    | raise x ↦ if is_caught x then (ok tt, close_deletion action false s) else (raise x, s)
  ]

  -- Behind the deletion of the back-up stack, if there was one.
  unfoldable pub behind_backup :
      Action
      → Bool
      → Teardown
      → Stack T E
      → Result Unit × List (Stack T E)
      → Result Unit × List (Stack T E)
  unfolding destroy_resources
  behind_backup action backup t s (raise x, backups) = (raise x, s ∷ backups)
  behind_backup action backup t s (ok u, []) =
      let d = destroy_resources action backup t s in (d.0, d.1 ∷ [])
  behind_backup action backup t s (ok u, b ∷ bs) =
      let d = destroy_resources action backup t s in
      if is_complete b.state
      then (d.0, d.1 ∷ b ∷ bs)
      else (ok tt, state_set action failed s ∷ b ∷ bs)

  abbrev pub stacks_of : List (Stack T E × Teardown) → List (Stack T E)
  stacks_of [] = []
  stacks_of ((s, t) ∷ rest) = s ∷ stacks_of rest

  -- `delete(action, backup)` of the first stack
  unfoldable pub delete_stack :
      Action → Bool → List (Stack T E × Teardown) → Result Unit × List (Stack T E)
  unfolding behind_backup state_set
  delete_stack action backup [] = (ok tt, [])
  delete_stack action backup ((s, t) ∷ rest) =
      let backups = delete_stack delete_action true rest in
      elim (is_delete action || is_rollback action) [
        | true ↦ behind_backup action backup t (state_set action in_progress s) backups
        | false ↦ (ok tt, state_set delete_action failed s ∷ stacks_of rest)
      ]
