-- ===== src/Scheduler/Polled.antt =====
-- A PollingTaskGroup loses no task, ends when all its tasks are done, and cancels them if one fails.
use heat.Prelude.{
  true, false, ◌≡◌, ◌≢◌, refl, sym, ◌∙◌, inl, inr, none, some, List, [], ◌∷◌, ◌++◌, arith, All,
  Option-cases, ap,
}
use heat.Scheduler.Coroutine.{Exn}
use heat.Scheduler.Runner.{Runner, Task, cancel, step}
use heat.Scheduler.Group.{ended, failed}
use heat.Scheduler.Polling.{drop_finished, cancel_runners, escape_polling, poll_top, resume_polling}
use heat.Scheduler.Stepping.{step_tells, cancel_ends}
use heat.Scheduler.Completion.{Result-cases}

module _ {S : Type 0} where
  abbrev pub IsDone : Task S × Runner S → Type 0
  IsDone tr = tr.1.done ≡ true

  abbrev pub tasks_of : List (Task S × Runner S) → List (Task S)
  tasks_of [] = []
  tasks_of ((t, r) ∷ rs) = t ∷ tasks_of rs

  -- The runners that a round drops are done, and with those that it leaves they are the runners that
  -- there were, in their order.
  pub drop_finished-IsDone :
      (rs : List (Task S × Runner S))
      → All IsDone (drop_finished rs).0
        × (tasks_of ((drop_finished rs).0 ++ (drop_finished rs).1) ≡ tasks_of rs)
  unfolding drop_finished
  drop_finished-IsDone [] = (tt, refl)
  drop_finished-IsDone ((t, r) ∷ rs) = elim (Result-cases (step 0 t r).0) [
    | inr (x, out) ↦ rw (out, drop_finished) (tt, refl)
    | inl (true, over) ↦
        let rest = drop_finished-IsDone rs in
        rw (over, drop_finished) ((step_tells 0 t r true over, rest.0), ap (λ ts. t ∷ ts) rest.1)
    | inl (false, on) ↦ rw (on, drop_finished) (tt, refl)
  ]

  cancel_runners-IsDone :
      (rs : List (Task S × Runner S))
      → (cancel_runners rs).1 ≡ none
      → All IsDone (cancel_runners rs).0 × (tasks_of (cancel_runners rs).0 ≡ tasks_of rs)
  unfolding cancel_runners
  cancel_runners-IsDone [] h = (tt, refl)
  cancel_runners-IsDone ((t, r) ∷ rs) h = elim (Result-cases (cancel t r).0) [
    | inr (x, out) ↦ absurd (ground arith)
    | inl (u, quiet) ↦
        let rest = cancel_runners-IsDone rs (ground arith) in
        rw (quiet, cancel_runners) (((cancel_ends t r 0).0, rest.0), ap (λ ts. t ∷ ts) rest.1)
  ]

  poll_top-ended : (rs : List (Task S × Runner S)) → (poll_top rs).1 ≡ ended → rs ≡ []
  unfolding poll_top
  poll_top-ended [] h = refl
  poll_top-ended (r ∷ rs) h = cc

  escape_polling-ended : (x : Exn) (rs : List (Task S × Runner S)) → (escape_polling x rs).1 ≢ ended
  unfolding escape_polling
  escape_polling-ended x rs = ground arith

  tasks_of-append_nil : (rs : List (Task S × Runner S)) → tasks_of (rs ++ []) ≡ tasks_of rs
  tasks_of-append_nil [] = refl
  tasks_of-append_nil ((t, r) ∷ rs) = ap (λ ts. t ∷ ts) (tasks_of-append_nil rs)

  -- A PollingTaskGroup comes to its end only in a round that drops every runner that there is, each
  -- being done.
  pub resume_polling-ended :
      (rs : List (Task S × Runner S))
      → (resume_polling rs).1 ≡ ended
      → All IsDone (drop_finished rs).0 × (tasks_of (drop_finished rs).0 ≡ tasks_of rs)
  unfolding resume_polling
  resume_polling-ended rs h = elim (Option-cases (drop_finished rs).2) [
    | inr (x, out) ↦ absurd (
        escape_polling-ended x ((drop_finished rs).0 ++ (drop_finished rs).1) (ground (arith, out)))
    | inl quiet ↦
        let none_left = poll_top-ended (drop_finished rs).1 (ground (arith, quiet)) in
        let round = drop_finished-IsDone rs in
        (
          round.0,
          sym (tasks_of-append_nil (drop_finished rs).0)
              ∙ ap (λ left. tasks_of ((drop_finished rs).0 ++ left)) (sym none_left)
              ∙ round.1,
        )
  ]

  -- If a step in a round of a PollingTaskGroup raises, and no cancellation does, then the exception
  -- leaves the group with every runner of the round done, also those that were not stepped.
  pub resume_polling-failed :
      (rs : List (Task S × Runner S)) (x : Exn)
      → (drop_finished rs).2 ≡ some x
      → (cancel_runners ((drop_finished rs).0 ++ (drop_finished rs).1)).1 ≡ none
      → ((resume_polling rs).1 ≡ failed x)
        × All IsDone (resume_polling rs).0
        × (tasks_of (resume_polling rs).0 ≡ tasks_of rs)
  unfolding resume_polling
  resume_polling-failed rs x out quiet =
      let cancelled = cancel_runners-IsDone ((drop_finished rs).0 ++ (drop_finished rs).1) quiet in
      rw (out, resume_polling)
        (
          ap (λ y. elim y [ none ↦ failed x | some z ↦ failed z ]) quiet,
          cancelled.0,
          cancelled.1 ∙ (drop_finished-IsDone rs).1,
        )
