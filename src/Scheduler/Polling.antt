-- ===== src/Scheduler/Polling.antt =====
-- `PollingTaskGroup` of scheduler.py, as a generator: `start_polling` runs to its first `yield`, and
-- `resume_polling` from one `yield` to the next. Its state is the list `runners`, each with its task.
use heat.Prelude.{true, false, Option, none, some, List, [], ◌∷◌, ◌++◌}
use heat.Scheduler.Coroutine.{Exn, ok, raise}
use heat.Scheduler.Runner.{Runner, Task, new_runner, cancel, step, start}
use heat.Scheduler.Group.{Status, paused, ended, failed}

module _ {S : Type 0} where
  -- `self._tasks` with a new runner for each
  unfoldable pub new_runners : List (Task S) → List (Task S × Runner S)
  new_runners [] = []
  new_runners (t ∷ ts) = (t, new_runner) ∷ new_runners ts

  -- `for r in runners: r.start()`
  unfoldable pub start_all : List (Task S × Runner S) → List (Task S × Runner S) × Option Exn
  start_all [] = ([], none)
  start_all ((t, r) ∷ rs) =
      let s = start 0 0 none t r in
      let rest = start_all rs in
      elim s.0 [ ok u ↦ ((t, s.1) ∷ rest.0, rest.1) | raise x ↦ ((t, s.1) ∷ rs, some x) ]

  -- `itertools.dropwhile(lambda r: r.step(), runners)`: the runners that are dropped, as their step
  -- leaves them, those that are left, and what a step raised.
  unfoldable pub drop_finished :
      List (Task S × Runner S) → List (Task S × Runner S) × List (Task S × Runner S) × Option Exn
  drop_finished [] = ([], [], none)
  drop_finished ((t, r) ∷ rs) =
      let s = step 0 t r in
      let rest = drop_finished rs in
      elim s.0 [
        | ok true ↦ ((t, s.1) ∷ rest.0, rest.1, rest.2)
        | ok false ↦ ([], (t, s.1) ∷ rs, none)
        | raise x ↦ ([], (t, s.1) ∷ rs, some x)
      ]

  -- `for r in runners: r.cancel()`
  unfoldable pub cancel_runners : List (Task S × Runner S) → List (Task S × Runner S) × Option Exn
  cancel_runners [] = ([], none)
  cancel_runners ((t, r) ∷ rs) =
      let c = cancel t r in
      let rest = cancel_runners rs in
      elim c.0 [ ok u ↦ ((t, c.1) ∷ rest.0, rest.1) | raise x ↦ ((t, c.1) ∷ rs, some x) ]

  -- The `except:` clause: the exception goes on, unless a `cancel` raises another.
  unfoldable pub escape_polling : Exn → List (Task S × Runner S) → List (Task S × Runner S) × Status
  unfolding cancel_runners
  escape_polling x rs =
      let c = cancel_runners rs in (c.0, elim c.1 [ none ↦ failed x | some y ↦ failed y ])

  -- `while runners:`, up to the `yield`
  unfoldable pub poll_top : List (Task S × Runner S) → List (Task S × Runner S) × Status
  poll_top [] = ([], ended)
  poll_top (r ∷ rs) = (r ∷ rs, paused)

  unfoldable pub start_polling : List (Task S) → List (Task S × Runner S) × Status
  unfolding start_all escape_polling poll_top new_runners
  start_polling tasks =
      let s = start_all (new_runners tasks) in
      elim s.1 [ none ↦ poll_top s.0 | some x ↦ escape_polling x s.0 ]

  -- A step that raises leaves the variable `runners` as it was: the runners that were dropped in the
  -- same round are still in it.
  unfoldable pub resume_polling : List (Task S × Runner S) → List (Task S × Runner S) × Status
  unfolding drop_finished escape_polling poll_top
  resume_polling rs =
      let d = drop_finished rs in
      elim d.2 [ none ↦ poll_top d.1 | some x ↦ escape_polling x (d.0 ++ d.1) ]
