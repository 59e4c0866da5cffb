-- ===== src/Scheduler/Wrapped.antt =====
-- `wrappertask` of scheduler.py: a task that yields subtasks, each of which is driven to its end
-- before the task goes on. The places of the wrapper are those of the parent, with the place of the
-- subtask where one is running. What the parent yields at a place is None or a new subtask.
use heat.Prelude.{ℕ, zero, suc, Bool, true, false, Option, none, some, if◌then◌else◌}
use heat.Scheduler.Coroutine.{
  Exn, generator_exit, Result, ok, raise, Resumed, yields, stops, raises, Body, closed,
}

pub record Delegating (P C : Type 0) : Type 0 where
  pub parent : Body P
  -- what it yields is a subtask
  pub delegates : P → Bool
  -- the code of that subtask
  pub child : P → Body C

abbrev pub is_exit : Exn → Bool
is_exit generator_exit = true
is_exit _ = false

module _ {P C : Type 0} (d : Delegating P C) where
  -- `parent.close(); raise ex`
  unfoldable pub parent_closed : P → Resumed (P × Option C)
  parent_closed p = elim (closed (d.parent.throw p generator_exit)) [
    | ok u ↦ raises generator_exit
    | raise y ↦ raises y
  ]

  module _ (continue : Resumed P → Option (Resumed (P × Option C))) where
    -- The two `except` clauses at the end: the parent is closed or gets the exception.
    unfoldable pub passed_on : P → Exn → Option (Resumed (P × Option C))
    unfolding parent_closed
    passed_on p x = if is_exit x then some (parent_closed p) else continue (d.parent.throw p x)

    -- Behind a call of the subtask: the wrapper yields, goes on with the parent, or passes the
    -- exception on to it.
    unfoldable pub behind : P → Resumed C → Option (Resumed (P × Option C))
    unfolding passed_on
    behind p (yields c) = some (yields (p, some c))
    behind p stops = continue (d.parent.next p)
    behind p (raises x) = passed_on p x

  -- The `while` loop from its head, behind a call of the parent. It comes back to its head when a
  -- subtask ends at once: `rounds` bounds how often, and `none` is that bound passed.
  unfoldable pub delegate : ℕ → Resumed P → Option (Resumed (P × Option C))
  unfolding behind
  delegate zero r = none
  delegate (suc rounds) stops = some stops
  delegate (suc rounds) (raises x) = some (raises x)
  delegate (suc rounds) (yields p) = elim (d.delegates p) [
    | true ↦ behind (λ r. delegate rounds r) p (d.child p).first
    | false ↦ some (yields (p, none))
  ]

  unfoldable pub wrapped_first : ℕ → Option (Resumed (P × Option C))
  unfolding delegate
  wrapped_first rounds = delegate rounds d.parent.first

  unfoldable pub wrapped_next : ℕ → P × Option C → Option (Resumed (P × Option C))
  unfolding delegate
  wrapped_next rounds (p, none) = delegate rounds (d.parent.next p)
  wrapped_next rounds (p, some c) = behind (λ r. delegate rounds r) p ((d.child p).next c)

  -- `subtask.close(); raise ex`, behind which the parent is closed too; or the exception of the
  -- subtask is passed on to the parent.
  unfoldable pub closed_child : ℕ → P → Result Unit → Option (Resumed (P × Option C))
  unfolding delegate
  closed_child rounds p (ok u) = some (parent_closed p)
  closed_child rounds p (raise y) = passed_on (λ r. delegate rounds r) p y

  unfoldable pub wrapped_throw : ℕ → P × Option C → Exn → Option (Resumed (P × Option C))
  unfolding closed_child
  wrapped_throw rounds (p, none) x = passed_on (λ r. delegate rounds r) p x
  wrapped_throw rounds (p, some c) x =
      if is_exit x
      then closed_child rounds p (closed ((d.child p).throw c generator_exit))
      else behind (λ r. delegate rounds r) p ((d.child p).throw c x)
