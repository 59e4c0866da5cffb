-- ===== src/StackLock/Table.antt =====
-- The table `stack_lock` of the database, and the transactions of heat/db/sqlalchemy/api.py on it.
use heat.Prelude.{Eq, ◌==◌, Option, none, some, if◌then◌else◌}
use heat.Dict.{Dict, lookup, put, delete}

-- The row of a stack is the id of the engine that holds the lock.
abbrev pub Locks : Type 0 → Type 0
Locks Key = Dict Key Key

-- What `stack_lock_steal` returns: None, True, or the id of another engine.
pub data Stolen (Key : Type 0) : Type 0 where
  done : Stolen Key
  released : Stolen Key
  held_by : Key → Stolen Key

-- What `stack_lock_release` returns: None, or True where no row was deleted.
pub data Released : Type 0 where
  deleted already_released : Released

module _ {Key : Type 0} ⦃e : Eq Key⦄ where
  -- `none`: the lock was free and is now the engine's; otherwise the engine that holds it.
  unfoldable pub stack_lock_create : Key → Key → Locks Key → Option Key × Locks Key
  stack_lock_create stack engine locks = elim (lookup stack locks) [
    | some owner ↦ (some owner, locks)
    | none ↦ (none, put stack engine locks)
  ]

  unfoldable pub stack_lock_steal : Key → Key → Key → Locks Key → Stolen Key × Locks Key
  stack_lock_steal stack old new locks = elim (lookup stack locks) [
    | none ↦ (released, locks)
    | some owner ↦ if owner == old then (done, put stack new locks) else (held_by owner, locks)
  ]

  unfoldable pub stack_lock_release : Key → Key → Locks Key → Released × Locks Key
  stack_lock_release stack engine locks = elim (lookup stack locks) [
    | none ↦ (already_released, locks)
    | some owner ↦
        if owner == engine then (deleted, delete stack locks) else (already_released, locks)
  ]
