-- ===== src/Scheduler/Runner.antt =====
-- `TaskRunner` of scheduler.py. A method returns its result, an exception included, and the runner
-- as it leaves it. The wall clock is read by the methods: it is their argument `now`.
use heat.Prelude.{ℕ, ◌+◌, Bool, true, false, Option, none, some, List, [], ◌∷◌, ltb, if◌then◌else◌}
use heat.Scheduler.Coroutine.{
  Exn, assertion_error, type_error, timed_out, Result, ok, raise, Resumed, yields, stops, raises,
  Body, Gen, fresh, gen_next, gen_throw, gen_close, after,
}

-- `self._runner`: None, False for a task that is no generator, or the generator.
pub data Handle (S : Type 0) : Type 0 where
  not_started : Handle S
  not_resumable : Handle S
  running : Gen S → Handle S

pub record Runner (S : Type 0) : Type 0 where
  pub handle : Handle S
  pub done : Bool
  -- the `_endtime` of `self._timeout`
  pub timeout : Option ℕ

-- What the call `self._task(*args, **kwargs)` comes to.
pub data Called : Type 0 where
  plain : Called
  generator : Called
  fails : Exn → Called

-- A task: what the call of it returns, and the code of the generator if it returns one.
pub record Task (S : Type 0) : Type 0 where
  pub call : Called
  pub body : Body S

-- `self._timeout is not None and self._timeout.expired()`
abbrev pub expired : ℕ → Option ℕ → Bool
expired now none = false
expired now (some endtime) = ltb endtime now

module _ {S : Type 0} where
  -- `TaskRunner(task)`
  abbrev pub new_runner : Runner S
  new_runner = record { handle = not_started; done = false; timeout = none }

  abbrev pub is_started : Handle S → Bool
  is_started not_started = false
  is_started _ = true

  -- `runner.started()`
  abbrev pub started : Runner S → Bool
  started r = is_started r.handle

  abbrev close_handle : Task S → Handle S → Result Unit × Handle S
  close_handle task (running gen) = let r = gen_close task.body gen in (r.0, running r.1)
  -- `False.close()`
  close_handle task not_resumable = (raise type_error, not_resumable)
  close_handle task not_started = (ok tt, not_started)

  -- `runner.cancel()`; the `finally` clause sets `_done` on every path.
  unfoldable pub cancel : Task S → Runner S → Result Unit × Runner S
  cancel task r =
      if r.done
      then (ok tt, r)
      else let c = close_handle task r.handle in (c.0, record r { handle = c.1; done = true })

  finish : Runner S → Resumed S → Result Bool × Runner S
  finish r (yields s) = (ok r.done, record r { handle = running (after (yields s)) })
  finish r stops = (ok true, record r { handle = running (after {S = S} stops); done = true })
  finish r (raises x) = (raise x, record r { handle = running (after {S = S} (raises x)) })

  -- `return self._done`, behind a call that may raise
  returned : Result Unit × Runner S → Result Bool × Runner S
  returned (ok u, r) = (ok r.done, r)
  returned (raise x, r) = (raise x, r)

  -- The branch of `step` for a task whose time is up: the `else` clause cancels a task that goes on.
  unfoldable pub throw_timeout : Task S → Runner S → Resumed S → Result Bool × Runner S
  unfolding cancel returned
  throw_timeout task r (yields s) =
      returned (cancel task (record r { handle = running (after (yields s)) }))
  throw_timeout task r stops =
      (ok true, record r { handle = running (after {S = S} stops); done = true })
  throw_timeout task r (raises x) =
      (raise x, record r { handle = running (after {S = S} (raises x)) })

  resume : ℕ → Task S → Runner S → Handle S → Result Bool × Runner S
  unfolding throw_timeout finish
  resume now task r not_started = (raise assertion_error, r)
  -- `False` has neither `throw` nor `next`
  resume now task r not_resumable = (raise type_error, r)
  resume now task r (running gen) =
      if expired now r.timeout
      then throw_timeout task r (gen_throw task.body gen timed_out)
      else finish r (gen_next task.body gen)

  -- `runner.step()`
  unfoldable pub step : ℕ → Task S → Runner S → Result Bool × Runner S
  unfolding resume
  step now task r = if r.done then (ok true, r) else resume now task r r.handle

  -- `start` behind the test that the runner has not been started
  launch : ℕ → Task S → Runner S → Called → Result Unit × Runner S
  unfolding step
  launch now task r plain = (ok tt, record r { handle = not_resumable; done = true })
  launch now task r generator =
      let s = step now task (record r { handle = running fresh }) in
      (elim s.0 [ ok b ↦ ok tt | raise x ↦ raise x ], s.1)
  launch now task r (fails x) = (raise x, r)

  with_timeout : ℕ → Option ℕ → Runner S → Runner S
  with_timeout now none r = r
  with_timeout now (some seconds) r = record r { timeout = some (now + seconds) }

  -- `runner.start(timeout)`, the clock being read by the timeout and again by the first step
  unfoldable pub start : ℕ → ℕ → Option ℕ → Task S → Runner S → Result Unit × Runner S
  unfolding launch with_timeout
  start now later seconds task r =
      if started r
      then (raise assertion_error, r)
      else launch later task (with_timeout now seconds r) task.call

  -- `runner.run_to_completion()`, with the readings of the clock at its steps; `none` means that the
  -- readings ran out before the loop ended.
  unfoldable pub run_to_completion : List ℕ → Task S → Runner S → Option (Result Unit × Runner S)
  run_to_completion [] task r = none
  run_to_completion (now ∷ later) task r =
      let s = step now task r in
      let rest = run_to_completion later task s.1 in
      elim s.0 [ raise x ↦ some (raise x, s.1) | ok true ↦ some (ok tt, s.1) | ok false ↦ rest ]
