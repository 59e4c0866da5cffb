-- ===== src/Scheduler/Coroutine.antt =====
-- What scheduler.py uses of Python: exceptions as values and generator objects. The body of a task
-- is not known to the scheduler. It is a parameter, given by what the generator does when it is
-- resumed, when an exception is thrown into it and when it is closed.
use heat.Prelude.{ℕ, Bool, true, false}

pub data Exn : Type 0 where
  assertion_error type_error key_error runtime_error : Exn
  -- `Timeout` and `GeneratorExit` are no subclasses of `Exception`
  timed_out generator_exit : Exn
  task_error : ℕ → Exn
  exception_group : Exn
  -- ResourceFailure and UpdateReplace of resource.py
  resource_failure update_replace : Exn

-- `except Exception` catches it.
abbrev pub is_exception : Exn → Bool
is_exception timed_out = false
is_exception generator_exit = false
is_exception _ = true

pub data Result (A : Type 0) : Type 0 where
  ok : A → Result A
  raise : Exn → Result A

-- What the code of a generator does when control comes to it: it yields, it comes to its end, or it
-- lets an exception out.
pub data Resumed (S : Type 0) : Type 0 where
  yields : S → Resumed S
  stops : Resumed S
  raises : Exn → Resumed S

-- The code of a task, `S` being the places where it waits at a `yield`.
pub record Body (S : Type 0) : Type 0 where
  pub first : Resumed S
  pub next : S → Resumed S
  pub throw : S → Exn → Resumed S

-- A generator object.
pub data Gen (S : Type 0) : Type 0 where
  fresh : Gen S
  waiting : S → Gen S
  finished : Gen S

module _ {S : Type 0} where
  abbrev pub after : Resumed S → Gen S
  after (yields s) = waiting s
  after stops = finished
  after (raises x) = finished

  -- `next(gen)`: `stops` is StopIteration.
  abbrev pub gen_next : Body S → Gen S → Resumed S
  gen_next body fresh = body.first
  gen_next body (waiting s) = body.next s
  gen_next body finished = stops

  -- `gen.throw(x)`
  abbrev pub gen_throw : Body S → Gen S → Exn → Resumed S
  gen_throw body fresh x = raises x
  gen_throw body (waiting s) x = body.throw s x
  gen_throw body finished x = raises x

  -- How `gen.close()` ends, given what the code does with the GeneratorExit thrown into it.
  abbrev pub closed : Resumed S → Result Unit
  closed (yields s) = raise runtime_error
  closed stops = ok tt
  closed (raises generator_exit) = ok tt
  closed (raises x) = raise x

  abbrev pub gen_close : Body S → Gen S → Result Unit × Gen S
  gen_close body fresh = (ok tt, finished)
  gen_close body (waiting s) = let r = body.throw s generator_exit in (closed r, after r)
  gen_close body finished = (ok tt, finished)
