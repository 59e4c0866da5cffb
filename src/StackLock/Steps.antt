-- ===== src/StackLock/Steps.antt =====
-- What each step of `acquire` comes to, by what the table holds.
use heat.Prelude.{Bool, true, false, ◌≡◌, Eq, ◌==◌, refl, Option, none, some, if◌then◌else◌, arith}
use heat.Dict.{lookup, put}
use heat.StackLock.Table.{Locks, stack_lock_create, stack_lock_release}
use heat.StackLock.Acquire.{
  creating, asking, stealing, acquired, refused, engine_alive, acquire_step,
}

module _ {Key : Type 0} ⦃e : Eq Key⦄ (replies : Key → Option Bool) (stack engine : Key)
    (locks : Locks Key) where
  -- A free lock is taken.
  pub create_free :
      (retry : Bool)
      → lookup stack locks ≡ none
      → acquire_step replies stack engine (creating retry) locks
        ≡ (acquired, put stack engine locks)
  unfolding acquire_step
  create_free retry h = ground arith

  pub create_taken :
      (retry : Bool) (owner : Key)
      → lookup stack locks ≡ some owner
      → acquire_step replies stack engine (creating retry) locks
        ≡ ((if owner == engine then refused else asking retry owner), locks)
  unfolding acquire_step
  create_taken retry owner h = ground arith

  pub ask_lem :
      (retry : Bool) (owner : Key)
      → acquire_step replies stack engine (asking retry owner) locks
        ≡ ((if engine_alive (replies owner) then refused else stealing retry owner), locks)
  unfolding acquire_step
  ask_lem retry owner = refl

  pub steal_free :
      (retry : Bool) (owner : Key)
      → lookup stack locks ≡ none
      → acquire_step replies stack engine (stealing retry owner) locks
        ≡ ((if retry then creating false else refused), locks)
  unfolding acquire_step
  steal_free retry owner h = ground arith

  pub steal_same :
      (retry : Bool) (owner other : Key)
      → lookup stack locks ≡ some other
      → (other == owner) ≡ true
      → acquire_step replies stack engine (stealing retry owner) locks
        ≡ (acquired, put stack engine locks)
  unfolding acquire_step
  steal_same true owner other h same = ground arith
  steal_same false owner other h same = ground arith

  pub steal_lost :
      (retry : Bool) (owner other : Key)
      → lookup stack locks ≡ some other
      → (other == owner) ≡ false
      → acquire_step replies stack engine (stealing retry owner) locks ≡ (refused, locks)
  unfolding acquire_step
  steal_lost true owner other h differs = ground arith
  steal_lost false owner other h differs = ground arith

  pub release_other :
      (owner : Key)
      → lookup stack locks ≡ some owner
      → (owner == engine) ≡ false
      → (stack_lock_release stack engine locks).1 ≡ locks
  unfolding stack_lock_release
  release_other owner h differs = ground arith

  pub lock_free :
      lookup stack locks ≡ none
      → stack_lock_create stack engine locks ≡ (none, put stack engine locks)
  unfolding stack_lock_create
  lock_free h = ground arith

  pub lock_taken :
      (owner : Key)
      → lookup stack locks ≡ some owner
      → stack_lock_create stack engine locks ≡ (some owner, locks)
  unfolding stack_lock_create
  lock_taken owner h = ground arith
