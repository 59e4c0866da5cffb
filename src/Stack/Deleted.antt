-- ===== src/Stack/Deleted.antt =====
-- A stack that `delete` reports as deleted is gone with all its back-up stacks.
use heat.Prelude.{
  Bool, true, false, ◌||◌, ◌≡◌, refl, ◌⊎◌, inl, inr, none, some, List, [], ◌∷◌, arith, All,
  Bool-cases,
}
use heat.Scheduler.Coroutine.{Result, ok, raise}
use heat.Stack.State.{
  Action, delete_action, in_progress, failed, complete, Stack, is_delete, is_rollback, is_complete,
  is_caught, state_set,
}
use heat.Stack.Deleting.{Teardown, delete_stack, behind_backup, destroy_resources, close_deletion}
use heat.Stack.Outcomes.{state_set-state}

module _ {T E : Type 0} where
  abbrev pub IsGone : Stack T E → Type 0
  IsGone s = s.row ≡ none

  -- The action is complete, and no stack of the list has a row; or the first stack says that the action
  -- failed.
  abbrev pub Deleted : Action → Result Unit × List (Stack T E) → Type 0
  Deleted action (raise x, left) = is_caught x ≡ false
  Deleted action (ok u, []) = Unit
  Deleted action (ok u, s ∷ backups) =
      ((s.state ≡ some (action, complete)) × IsGone s × All IsGone backups)
      ⊎ (s.state ≡ some (action, failed))

  destroy_resources-Deleted :
      (action : Action) (backup : Bool) (t : Teardown) (s : Stack T E) (backups : List (Stack T E))
      → All IsGone backups
      → Deleted action (
        (destroy_resources action backup t s).0,
        (destroy_resources action backup t s).1 ∷ backups,
      )
  unfolding destroy_resources close_deletion
  destroy_resources-Deleted action backup t s backups gone =
      ground (arith, state_set-state action complete s, state_set-state action failed s)

  behind_backup-Deleted :
      (action : Action) (backup : Bool) (t : Teardown) (s : Stack T E)
      (out : Result Unit × List (Stack T E))
      → Deleted delete_action out
      → Deleted action (behind_backup action backup t s out)
  unfolding behind_backup
  behind_backup-Deleted action backup t s (raise x, backups) h = h
  behind_backup-Deleted action backup t s (ok u, []) h =
      destroy_resources-Deleted action backup t s [] tt
  behind_backup-Deleted action backup t s (ok u, b ∷ bs) h =
      elim (Bool-cases (is_complete b.state)) [
        | inr unfinished ↦ rw (unfinished, behind_backup) (inr (state_set-state action failed s))
        | inl finished ↦ elim h [
          | inl (at, gone, all_gone) ↦
              rw (finished, behind_backup)
                (destroy_resources-Deleted action backup t s (b ∷ bs) (gone, all_gone))
          | inr at ↦ absurd (ground (arith, at))
        ]
      ]

  -- The deletion, or the rollback of the creation, of a stack with any number of back-up stacks behind
  -- one another, whatever the resources and Keystone do: if it returns, then either the action is
  -- complete, and neither the stack nor any back-up stack has a row, or the stack says that the action
  -- failed. An exception that it lets out is neither a ResourceFailure nor a Timeout.
  pub delete_stack-Deleted :
      (action : Action) (backup : Bool) (stacks : List (Stack T E × Teardown))
      → (is_delete action || is_rollback action) ≡ true
      → Deleted action (delete_stack action backup stacks)
  unfolding delete_stack
  delete_stack-Deleted action backup [] h = tt
  delete_stack-Deleted action backup ((s, t) ∷ rest) h =
      rw (h, delete_stack)
        (behind_backup-Deleted action backup t (state_set action in_progress s)
          (delete_stack delete_action true rest)
          (delete_stack-Deleted delete_action true rest refl))
