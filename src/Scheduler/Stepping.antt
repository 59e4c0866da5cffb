-- ===== src/Scheduler/Stepping.antt =====
-- What the methods of TaskRunner do on every path: results, cancellation and time-outs.
use heat.Prelude.{ℕ, Bool, true, false, ◌≡◌, ◌≢◌, ◌⊎◌, Option, arith}
use heat.Scheduler.Coroutine.{ok, waiting}
use heat.Scheduler.Runner.{
  Handle, not_resumable, running, Runner, Task, expired, cancel, step, start,
}

module _ {S : Type 0} where
  -- The runner of a task that returned no generator is done: what keeps `False` from being stepped.
  abbrev pub IsValid : Runner S → Type 0
  IsValid r = r.handle ≡ not_resumable → r.done ≡ true

  -- No generator is left at a `yield`.
  abbrev pub IsOver : Handle S → Type 0
  IsOver (running (waiting s)) = ⊥
  IsOver _ = Unit

  -- `cancel` marks the runner as done on every path, an exception of the task included, and a step
  -- after it returns True and changes nothing.
  pub cancel_ends :
      (task : Task S) (r : Runner S) (now : ℕ)
      → ((cancel task r).1.done ≡ true)
        × (step now task (cancel task r).1 ≡ (ok true, (cancel task r).1))
  unfolding cancel step
  cancel_ends task r now = (ground arith, ground arith)

  -- A step that raises nothing returns True exactly when the runner is then done.
  pub step_tells :
      (now : ℕ) (task : Task S) (r : Runner S) (b : Bool)
      → (step now task r).0 ≡ ok b
      → (step now task r).1.done ≡ b
  unfolding step
  step_tells now task r b h = ground arith

  -- A step of a runner whose time is up never reports that there is more to do, and leaves no
  -- generator at a `yield` unless the runner is done.
  pub step-expired :
      (now : ℕ) (task : Task S) (r : Runner S)
      → expired now r.timeout ≡ true
      → ((step now task r).0 ≢ ok false)
        × (((step now task r).1.done ≡ true) ⊎ IsOver (step now task r).1.handle)
  unfolding step
  step-expired now task r h = ground arith

  start-IsValid :
      (now later : ℕ) (seconds : Option ℕ) (task : Task S) (r : Runner S)
      → IsValid r
      → IsValid (start now later seconds task r).1
  unfolding start
  start-IsValid now later seconds task r v = ground arith

  step-IsValid : (now : ℕ) (task : Task S) (r : Runner S) → IsValid r → IsValid (step now task r).1
  unfolding step
  step-IsValid now task r v = ground arith

  cancel-IsValid : (task : Task S) (r : Runner S) → IsValid r → IsValid (cancel task r).1
  unfolding cancel
  cancel-IsValid task r v = ground arith
