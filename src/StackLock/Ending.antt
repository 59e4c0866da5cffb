-- ===== src/StackLock/Ending.antt =====
-- A call of `acquire` ends after at most six steps, and what it comes to where no other
-- engine comes in between.
use heat.Prelude.{
  ℕ, ◌<◌, Bool, true, false, ◌||◌, ◌≡◌, refl, Eq, ◌==◌, Option, none, some, if◌then◌else◌, arith,
  Option-cases, inl, inr, ◌⊎◌, beq_refl,
}
use heat.Dict.{lookup, put}
use heat.StackLock.Table.{Locks}
use heat.StackLock.Acquire.{
  Phase, creating, asking, stealing, acquired, refused, idle, engine_alive, acquire_step,
  acquire_run,
}

module _ {Key : Type 0} ⦃e : Eq Key⦄ where
  -- How many steps the call may still make.
  abbrev pub left : Phase Key → ℕ
  left (creating true) = 6
  left (asking true owner) = 5
  left (stealing true owner) = 4
  left (creating false) = 3
  left (asking false owner) = 2
  left (stealing false owner) = 1
  left _ = 0

  -- Each step of a call that is not over brings it nearer to its end, whatever the table
  -- holds and whatever the engines answer; a call that is over makes no more.
  pub acquire_step-left :
      (replies : Key → Option Bool) (stack engine : Key) (phase : Phase Key) (locks : Locks Key)
      → (left (acquire_step replies stack engine phase locks).0 < left phase)
        ⊎ ((left phase ≡ 0) × (acquire_step replies stack engine phase locks ≡ (phase, locks)))
  unfolding acquire_step
  acquire_step-left replies stack engine (creating true) locks = ground arith
  acquire_step-left replies stack engine (creating false) locks = ground arith
  acquire_step-left replies stack engine (asking true owner) locks = ground arith
  acquire_step-left replies stack engine (asking false owner) locks = ground arith
  acquire_step-left replies stack engine (stealing true owner) locks = ground arith
  acquire_step-left replies stack engine (stealing false owner) locks = ground arith
  acquire_step-left replies stack engine acquired locks = inr (refl, refl)
  acquire_step-left replies stack engine refused locks = inr (refl, refl)
  acquire_step-left replies stack engine idle locks = inr (refl, refl)

  -- What `acquire` does to the lock of a stack where no other engine comes in between.
  abbrev pub acquire_result :
      (Key → Option Bool) → Key → Key → Option Key → Locks Key → Phase Key × Locks Key
  acquire_result replies stack engine none locks = (acquired, put stack engine locks)
  acquire_result replies stack engine (some owner) locks =
      if owner == engine || engine_alive (replies owner)
      then (refused, locks)
      else (acquired, put stack engine locks)

  -- With no step of another thread in between, `acquire` ends within six steps. It takes a lock that is
  -- free, or that another engine holds which does not answer in time that it is alive; otherwise it
  -- raises ActionInProgress and changes nothing, also where the engine holds the lock itself.
  pub acquire_run-eq-result :
      (replies : Key → Option Bool) (stack engine : Key) (retry : Bool) (locks : Locks Key)
      → acquire_run replies stack engine 6 (creating retry) locks
        ≡ acquire_result replies stack engine (lookup stack locks) locks
  unfolding acquire_run
  acquire_run-eq-result replies stack engine true locks = elim (Option-cases (lookup stack locks)) [
    | inl free ↦ ground (arith, free)
    | inr (owner, taken) ↦ ground (arith, beq_refl owner)
  ]
  acquire_run-eq-result replies stack engine false locks =
      elim (Option-cases (lookup stack locks)) [
        | inl free ↦ ground (arith, free)
        | inr (owner, taken) ↦ ground (arith, beq_refl owner)
      ]
