-- ===== src/Scheduler/Completion.antt =====
-- `TaskRunner.run_to_completion` ends, and a task cancelled before its start does not run.
use heat.Prelude.{
  ℕ, ◌<◌, Bool, true, false, ◌≡◌, refl, ◌⊎◌, inl, inr, Option, some, List, [], ◌∷◌, arith, length,
  ◌||◌,
}
use heat.Scheduler.Coroutine.{Exn, Result, ok, raise, yields, Body, fresh, waiting}
use heat.Scheduler.Runner.{
  Handle, not_started, not_resumable, running, Runner, Task, Called, plain, generator, fails,
  expired, cancel, step, start, run_to_completion,
}
use heat.Scheduler.Stepping.{step-expired, step_tells}

-- Whether some reading of the clock comes after the deadline of the runner.
abbrev pub passes : List ℕ → Option ℕ → Bool
passes [] t = false
passes (now ∷ later) t = expired now t || passes later t

pub Result-cases :
    {A : Type 0} (r : Result A) → ((a : A) × (r ≡ ok a)) ⊎ ((x : Exn) × (r ≡ raise x))
Result-cases (ok a) = inl (a, refl)
Result-cases (raise x) = inr (x, refl)

module _ {S : Type 0} where
  timeout-step : (now : ℕ) (task : Task S) (r : Runner S) → (step now task r).1.timeout ≡ r.timeout
  unfolding step cancel
  timeout-step now task r = ground arith

  -- A runner with a deadline is run to its end, whatever the task does, if the clock passes the
  -- deadline at one of the steps.
  pub run_to_completion_by_deadline :
      (clock : List ℕ) (task : Task S) (r : Runner S)
      → passes clock r.timeout ≡ true
      → (out : Result Unit × Runner S) × (run_to_completion clock task r ≡ some out)
  unfolding run_to_completion
  run_to_completion_by_deadline [] task r h = absurd (ground arith)
  run_to_completion_by_deadline (now ∷ later) task r h = elim (Result-cases (step now task r).0) [
    | inr (x, failed) ↦ ((raise x, (step now task r).1), ground arith)
    | inl (true, over) ↦ ((ok tt, (step now task r).1), ground arith)
    | inl (false, goes_on) ↦
        let (out, ends) =
          run_to_completion_by_deadline later task (step now task r).1
            (ground (arith, timeout-step now task r, step-expired now task r)) in
        (out, ground arith)
  ]

  -- `rank` falls at each `yield` of the task, so that the task comes to an end by itself.
  pub record Ends (body : Body S) (rank : S → ℕ) : Type 0 where
    pub falls : (s s' : S) → body.next s ≡ yields s' → rank s' < rank s

  step_goes_on :
      (now : ℕ) (task : Task S) (r : Runner S) (s : S)
      → r.handle ≡ running (waiting s)
      → (step now task r).0 ≡ ok false
      → (s' : S) × (task.body.next s ≡ yields s')
        × ((step now task r).1.handle ≡ running (waiting s'))
  unfolding step cancel
  step_goes_on now task r s at h = ground arith

  -- Where the rank of the place at which a task waits falls at each of its `yield`s: the loop of
  -- `run_to_completion`, begun at a `yield`, ends with a deadline or without one, if there are more
  -- steps than the rank of the place.
  pub run_to_completion_by_rank :
      (clock : List ℕ) (task : Task S) (rank : S → ℕ)
      → Ends task.body rank
      → (r : Runner S) (s : S) → r.handle ≡ running (waiting s)
      → rank s < length clock
      → (out : Result Unit × Runner S) × (run_to_completion clock task r ≡ some out)
  unfolding run_to_completion
  run_to_completion_by_rank [] task rank ends r s at h = absurd (omega arith)
  run_to_completion_by_rank (now ∷ later) task rank ends r s at h =
      elim (Result-cases (step now task r).0) [
        | inr (x, failed) ↦ ((raise x, (step now task r).1), ground arith)
        | inl (true, over) ↦ ((ok tt, (step now task r).1), ground arith)
        | inl (false, goes_on) ↦
            let (s', next, at') = step_goes_on now task r s at goes_on in
            let (out, ended) =
              run_to_completion_by_rank later task rank ends (step now task r).1 s' at'
                (omega (arith, ends.falls s s' next)) in
            (out, ground arith)
      ]

  -- Whether the loop ended with no exception, the runner is then done.
  pub run_to_completion-done :
      (clock : List ℕ) (task : Task S) (r r' : Runner S)
      → run_to_completion clock task r ≡ some (ok tt, r')
      → r'.done ≡ true
  unfolding run_to_completion
  run_to_completion-done [] task r r' h = absurd (ground arith)
  run_to_completion-done (now ∷ later) task r r' h =
      ground (
        arith,
        step_tells now task r true,
        run_to_completion-done later task (step now task r).1 r',
      )

  -- What `start` leaves in `_runner`, by what the call of the task returned, if the runner was
  -- cancelled before: a generator that no step will resume, or the mark of a call that ran.
  abbrev pub handle_after_cancel : Called → Handle S
  handle_after_cancel plain = not_resumable
  handle_after_cancel generator = running fresh
  handle_after_cancel (fails x) = not_started

  -- A runner that is cancelled before it was started can still be started: the task is called, and
  -- only the steps of a generator are suppressed.
  pub start_after_cancel :
      (now later : ℕ) (seconds : Option ℕ) (task : Task S) (r : Runner S)
      → r.handle ≡ not_started
      → (start now later seconds task (cancel task r).1).1.handle ≡ handle_after_cancel task.call
  unfolding start step cancel
  start_after_cancel now later seconds task r h = ground arith
