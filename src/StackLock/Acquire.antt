-- ===== src/StackLock/Acquire.antt =====
-- `StackLock.acquire` and `try_acquire`, one transaction at a time: between two transactions of one
-- engine others may run. The RPC call of `_engine_alive` is a step of its own, and what it comes to is
-- the argument `replies`: what the other engine answers, or none where the call times out.
use heat.Prelude.{Bool, true, false, Eq, ◌==◌, Option, none, some, if◌then◌else◌, ℕ, zero, suc}
use heat.StackLock.Table.{
  Locks, Stolen, done, released, held_by, stack_lock_create, stack_lock_steal,
}

-- Where a call of `acquire` stands. `retry` is its parameter.
pub data Phase (Key : Type 0) : Type 0 where
  creating : (retry : Bool) → Phase Key
  -- another engine holds the lock, and is asked whether it is alive
  asking : (retry : Bool) → (owner : Key) → Phase Key
  -- the lock was found stale, held by an engine that does not answer
  stealing : (retry : Bool) → (owner : Key) → Phase Key
  acquired : Phase Key
  -- ActionInProgress was raised
  refused : Phase Key
  idle : Phase Key

-- `_engine_alive`, where `none` is the exception Timeout
unfoldable pub engine_alive : Option Bool → Bool
engine_alive none = false
engine_alive (some answer) = answer

module _ {Key : Type 0} ⦃e : Eq Key⦄ (replies : Key → Option Bool) (stack engine : Key) where
  unfoldable pub created : Bool → Option Key → Phase Key
  created retry none = acquired
  created retry (some owner) = if owner == engine then refused else asking retry owner

  unfoldable pub asked : Bool → Key → Phase Key
  unfolding engine_alive
  asked retry owner = if engine_alive (replies owner) then refused else stealing retry owner

  unfoldable pub stolen : Bool → Stolen Key → Phase Key
  stolen retry done = acquired
  -- `return self.acquire(retry=False)`
  stolen true released = creating false
  stolen false released = refused
  stolen retry (held_by other) = refused

  -- The next transaction or call of `acquire`, and what follows it up to the one after.
  unfoldable pub acquire_step : Phase Key → Locks Key → Phase Key × Locks Key
  unfolding created asked stolen stack_lock_create stack_lock_steal
  acquire_step (creating retry) locks =
      let r = stack_lock_create stack engine locks in (created retry r.0, r.1)
  acquire_step (asking retry owner) locks = (asked retry owner, locks)
  acquire_step (stealing retry owner) locks =
      let r = stack_lock_steal stack owner engine locks in (stolen retry r.0, r.1)
  acquire_step phase locks = (phase, locks)

  -- `try_acquire` neither raises nor steals: None, or the engine that holds the lock.
  unfoldable pub try_acquire : Locks Key → Option Key × Locks Key
  unfolding stack_lock_create
  try_acquire locks = stack_lock_create stack engine locks

  -- `acquire` with nothing in between: `n` steps at most.
  unfoldable pub acquire_run : ℕ → Phase Key → Locks Key → Phase Key × Locks Key
  unfolding acquire_step
  acquire_run zero phase locks = (phase, locks)
  acquire_run (suc n) phase locks = let r = acquire_step phase locks in acquire_run n r.0 r.1
