-- ===== src/Stack/Updated.antt =====
-- How an update of a stack ends, its rollback included.
use heat.Prelude.{
  true, false, not, ◌≡◌, refl, ◌⊎◌, inl, inr, Option, none, some, List, ◌∷◌, arith, subst, sym, ◌∙◌,
  if_ind, Option-cases,
}
use heat.Scheduler.Coroutine.{Exn, timed_out, resource_failure, Result, ok, raise}
use heat.Stack.State.{
  Action, delete_action, update_action, rollback_action, Status, in_progress, failed, complete,
  Stack, is_complete, state_set, store,
}
use heat.Stack.Deleting.{Teardown, delete_stack, stacks_of}
use heat.Stack.Updating.{
  Template, with_files, behind_close, refused_update, close_update, updated, behind_run,
  begin_update, update_task,
}

-- The row has the state of the stack.
abbrev pub Ended : {T E : Type 0} → Action → Status → Stack T E → Type 0
Ended action status s = (s.state ≡ some (action, status)) × (s.row ≡ some (action, status))

-- The stack has the template and the environment.
abbrev pub Has : {T E : Type 0} → T → E → Stack T E → Type 0
Has t e s = (s.template ≡ t) × (s.env ≡ e)

abbrev IsEnd : Status → Type 0
IsEnd status = (status ≡ complete) ⊎ (status ≡ failed)

-- What `update_task` returns.
abbrev pub Ends : Type 0 → Type 0 → Type 0 → Type 0
Ends B F E = Result Unit × Stack (Template B F) E × List (Stack (Template B F) E)

module _ {B F E : Type 0} (closing : Template B F → Option Exn) where
  -- An exception that is let out while the update is in progress.
  abbrev pub IsInProgress : Ends B F E → Type 0
  IsInProgress (ok u, s, backups) = ⊥
  IsInProgress (raise x, s, backups) = s.state ≡ some (update_action, in_progress)

  -- The end behind the last `state_set`, by what the outputs come to.
  abbrev pub Closed : Action → Template B F → E → Ends B F E → Type 0
  Closed action t e (ok u, s, backups) =
      (Ended action complete s ⊎ Ended action failed s) × Has t e s
  Closed action t e (raise x, s, backups) =
      ((s.state ≡ some (action, complete)) ⊎ (s.state ≡ some (action, failed)))
      × Has t e s
      × (closing t ≡ some x)

  abbrev pub RollbackEnds : Template B F → E → Option (Ends B F E) → Type 0
  RollbackEnds t e none = ⊥
  RollbackEnds t e (some d) = IsInProgress d ⊎ Closed rollback_action t e d

  state_set_lem :
      (action : Action) (status : Status) (s : Stack (Template B F) E)
      → ((state_set action status s).state ≡ some (action, status))
        × ((state_set action status s).template ≡ s.template)
        × ((state_set action status s).env ≡ s.env)
        × ((state_set action status s).disable_rollback ≡ s.disable_rollback)
  unfolding state_set
  state_set_lem action status s = (ground arith, ground arith, ground arith, ground arith)

  close_update_lem :
      (action : Action) (status : Status) (t : Template B F) (s : Stack (Template B F) E)
      (backups : List (Stack (Template B F) E))
      → IsEnd status
      → Closed action t s.env (behind_close backups (close_update closing action status t s))
  unfolding close_update store
  close_update_lem action status t s backups end = elim (Option-cases (closing t)) [
    | inl fine ↦ rw (close_update, fine) (ground (arith, end, state_set_lem action status s))
    | inr (x, fails) ↦
        rw (close_update, fails) (ground (arith, end, fails, state_set_lem action status s))
  ]

  begin_update_lem :
      (t : Template B F) (e : E) (s : Stack (Template B F) E)
      → ((begin_update t e s).state ≡ some (update_action, in_progress))
        × ((begin_update t e s).env ≡ e)
        × ((begin_update t e s).template ≡ with_files t s.template)
        × ((begin_update t e s).disable_rollback ≡ s.disable_rollback)
  unfolding begin_update
  begin_update_lem t e s = ground (arith, state_set_lem update_action in_progress s)

  updated-Closed :
      (action : Action) (t : Template B F) (s : Stack (Template B F) E)
      (out : Result Unit × List (Stack (Template B F) E))
      → s.state ≡ some (update_action, in_progress)
      → IsInProgress (updated closing action t s out)
        ⊎ Closed action t s.env (updated closing action t s out)
  unfolding updated
  updated-Closed action t s (raise x, backups) h = inl h
  updated-Closed action t s (ok u, backups) h =
      inr (close_update_lem action complete t s backups (inl refl))

  behind_run-RollbackEnds :
      (t : Template B F) (backups : List (Stack (Template B F) E × Teardown))
      (s : Stack (Template B F) E) (again : Option (Ends B F E)) (run : Result Unit)
      → s.state ≡ some (update_action, in_progress)
      → RollbackEnds t s.env (behind_run closing rollback_action t backups s again run)
  unfolding behind_run
  behind_run-RollbackEnds t backups s again (ok u) h =
      updated-Closed rollback_action t s (delete_stack delete_action true backups) h
  behind_run-RollbackEnds t backups s again (raise timed_out) h =
      inr (close_update_lem rollback_action failed t s (stacks_of backups) (inr refl))
  behind_run-RollbackEnds t backups s again (raise resource_failure) h =
      inr (close_update_lem rollback_action failed t s (stacks_of backups) (inr refl))
  behind_run-RollbackEnds t backups s again (raise _) h = inl h

  refused_rollback :
      (s : Stack (Template B F) E)
      → s.state ≡ some (update_action, in_progress)
      → refused_update rollback_action s ≡ none
  unfolding refused_update
  refused_rollback s h = ground (arith, h)

  abbrev again :
      Template B F
      → E
      → List (Result Unit)
      → List (Stack (Template B F) E × Teardown)
      → Stack (Template B F) E
      → Option (Ends B F E)
  again t e runs backups s =
      let begun = begin_update t e s in
      update_task closing rollback_action begun.template s.env runs backups begun

  update_task-behind_run :
      (action : Action) (t : Template B F) (e : E) (run : Result Unit) (runs : List (Result Unit))
      (backups : List (Stack (Template B F) E × Teardown)) (s : Stack (Template B F) E)
      → refused_update action s ≡ none
      → update_task closing action t e (run ∷ runs) backups s
        ≡ behind_run closing action t backups (begin_update t e s) (again t e runs backups s) run
  unfolding update_task
  update_task-behind_run action t e run runs backups s h = rw (h, update_task) refl

  rollback-RollbackEnds :
      (t : Template B F) (e : E) (run : Result Unit) (runs : List (Result Unit))
      (backups : List (Stack (Template B F) E × Teardown)) (s : Stack (Template B F) E)
      → s.state ≡ some (update_action, in_progress)
      → RollbackEnds t e (update_task closing rollback_action t e (run ∷ runs) backups s)
  rollback-RollbackEnds t e run runs backups s h =
      let begun = begin_update_lem t e s in
      let next = again t e runs backups s in
      rw (update_task-behind_run rollback_action t e run runs backups s (refused_rollback s h)) (
        subst
          (λ env.
            RollbackEnds t env
              (behind_run closing rollback_action t backups (begin_update t e s) next run))
          begun.1 (behind_run-RollbackEnds t backups (begin_update t e s) next run begun.0))

  -- The update closed with the new template and environment; or the rollback with the old ones, except
  -- for the files, which are the new ones.
  abbrev pub UpdateEnds : Template B F → E → Stack (Template B F) E → Option (Ends B F E) → Type 0
  UpdateEnds t e old none = ⊥
  UpdateEnds t e old (some d) =
      IsInProgress d
      ⊎ Closed update_action t e d
      ⊎ (Closed rollback_action (with_files t old.template) old.env d
          × (old.disable_rollback ≡ false))

  RollbackEnds-UpdateEnds :
      (t : Template B F) (e : E) (old : Stack (Template B F) E) (out : Option (Ends B F E))
      → old.disable_rollback ≡ false
      → RollbackEnds (with_files t old.template) old.env out
      → UpdateEnds t e old out
  RollbackEnds-UpdateEnds t e old (some d) enabled (inl h) = inl h
  RollbackEnds-UpdateEnds t e old (some d) enabled (inr h) = inr (inr (h, enabled))
  RollbackEnds-UpdateEnds t e old none enabled h = h

  Closed-UpdateEnds :
      (t : Template B F) (e : E) (old : Stack (Template B F) E) (d : Ends B F E)
      → IsInProgress d ⊎ Closed update_action t e d
      → UpdateEnds t e old (some d)
  Closed-UpdateEnds t e old d (inl h) = inl h
  Closed-UpdateEnds t e old d (inr h) = inr (inl h)

  behind_run-UpdateEnds :
      (t : Template B F) (backups : List (Stack (Template B F) E × Teardown))
      (old s : Stack (Template B F) E) (next : Option (Ends B F E)) (run : Result Unit)
      → s.state ≡ some (update_action, in_progress)
      → (s.disable_rollback ≡ false → UpdateEnds t s.env old next)
      → UpdateEnds t s.env old (behind_run closing update_action t backups s next run)
  unfolding behind_run
  behind_run-UpdateEnds t backups old s next (ok u) h rolls =
      let out = delete_stack delete_action true backups in
      Closed-UpdateEnds t s.env old (updated closing update_action t s out)
        (updated-Closed update_action t s out h)
  behind_run-UpdateEnds t backups old s next (raise timed_out) h rolls =
      inr (inl (close_update_lem update_action failed t s (stacks_of backups) (inr refl)))
  behind_run-UpdateEnds t backups old s next (raise resource_failure) h rolls =
      if_ind (UpdateEnds t s.env old) (not s.disable_rollback) (λ enabled. rolls (ground arith))
        (λ _. inr (inl (close_update_lem update_action failed t s (stacks_of backups) (inr refl))))
  behind_run-UpdateEnds t backups old s next (raise _) h rolls = inl h

  refused_update-none :
      (s : Stack (Template B F) E)
      → is_complete s.state ≡ true
      → refused_update update_action s ≡ none
  unfolding refused_update
  refused_update-none s h = ground arith

  -- An update of a stack whose last action is complete, however the run of the update and that of the
  -- rollback end: it takes two runs at most. If it returns, the stack has the new template and
  -- environment, and the update is complete or failed; or, with rollback enabled, it has the old
  -- environment and the old template, but with the files of the new one, and the rollback is complete or
  -- failed; and the row has the same state. An exception that it lets out leaves the update in progress,
  -- or it is the one that comes when the outputs are resolved and the stack is stored, and then the
  -- state, the template and the environment are those of such an end.
  pub update_task-UpdateEnds :
      (t : Template B F) (e : E) (run rollback_run : Result Unit) (runs : List (Result Unit))
      (backups : List (Stack (Template B F) E × Teardown)) (s : Stack (Template B F) E)
      → is_complete s.state ≡ true
      → UpdateEnds t e s
          (update_task closing update_action t e (run ∷ rollback_run ∷ runs) backups s)
  update_task-UpdateEnds t e run rollback_run runs backups s h =
      let begun = begin_update t e s in
      let facts = begin_update_lem t e s in
      let next = again t e (rollback_run ∷ runs) backups s in
      rw
        (update_task-behind_run update_action t e run (rollback_run ∷ runs) backups s
          (refused_update-none s h))
        (subst
          (λ env. UpdateEnds t env s (behind_run closing update_action t backups begun next run))
          facts.1
          (behind_run-UpdateEnds t backups s begun next run facts.0 (λ enabled.
            RollbackEnds-UpdateEnds t begun.env s next (sym facts.3 ∙ enabled) (
              subst (λ old. RollbackEnds old s.env next) facts.2
                (rollback-RollbackEnds begun.template s.env rollback_run runs backups begun
                  facts.0)))))
