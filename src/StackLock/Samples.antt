-- ===== src/StackLock/Samples.antt =====
-- Two engines and a stack, and the theorems about its lock at them.
use heat.Prelude.{
  ℕ, ◌+◌, true, ◌≡◌, refl, [], ◌∷◌, Bool, not, member, arith, Option, none, some, nat_eq, ◌==◌,
  if◌then◌else◌,
}
use heat.Dict.{lookup, put, delete}
use heat.StackLock.Table.{Locks, stack_lock_create, stack_lock_steal, stack_lock_release}
use heat.StackLock.Acquire.{
  creating, acquired, refused, idle, engine_alive, created, asked, stolen, acquire_step,
  acquire_run,
}
use heat.StackLock.System.{
  System, do_acquire, do_release, Reach, here, next, call, transact, stop, IsPrompt, ReleasesOwn,
}
use heat.StackLock.Exclusion.{Holds, lock_exclusive}
use heat.StackLock.Ending.{acquire_result, acquire_run-eq-result}
use heat.StackLock.Late.{lock_stolen}

program : Unit {0}
unfolding lookup put delete stack_lock_create stack_lock_steal stack_lock_release engine_alive
    created asked stolen acquire_step acquire_run do_acquire do_release
program = tt

-- The engine 8 holds the lock of the stack 1.
abbrev locked : Locks ℕ
locked = (1, 8) ∷ []

-- The engine 7 steals the lock from an engine that does not answer, and not from one that does.
run-locked :
    (acquire_run (λ e. none) 1 7 6 (creating true) locked ≡ (acquired, (1, 7) ∷ []))
    × (acquire_run (λ e. some true) 1 7 6 (creating true) locked ≡ (refused, locked))
unfolding program
run-locked = (refl, refl)

-- The thread `p` is one of the engine `p + 7`. The lock was left by the engine 8, which stops.
abbrev engine_of : ℕ → ℕ
engine_of p = p + 7

abbrev initial : System ℕ
initial = record { locks = locked; stopped = []; phase = λ p. idle }

abbrev called : System ℕ
called = record initial { stopped = 8 ∷ []; phase = λ q. if 0 == q then creating true else idle }

-- The engine 8 does not answer, the others do.
abbrev replies : ℕ → Option Bool
replies engine = if engine == 8 then none else some true

abbrev asking_one : System ℕ
asking_one = do_acquire 1 engine_of replies 0 called

abbrev stealing_one : System ℕ
stealing_one = do_acquire 1 engine_of replies 0 asking_one

abbrev stolen_one : System ℕ
stolen_one = do_acquire 1 engine_of replies 0 stealing_one

reached : Reach 1 engine_of initial stolen_one
unfolding do_acquire
reached =
    next
      (next (next (next (next here (stop 8)) (call 0 refl)) (transact 0 replies refl))
        (transact 0 replies refl))
      (transact 0 replies refl)

prompt : (engine : ℕ) → not (member engine (8 ∷ [])) ≡ true → engine_alive (replies engine) ≡ true
unfolding engine_alive
prompt engine h = ground arith

reached-IsPrompt : IsPrompt 1 engine_of reached
unfolding reached IsPrompt
reached-IsPrompt = (((tt, prompt), prompt), prompt)

reached-ReleasesOwn : ReleasesOwn 1 engine_of reached
unfolding reached ReleasesOwn
reached-ReleasesOwn = tt

Holds-one : Holds 1 engine_of stolen_one 0
unfolding program
Holds-one = (refl, refl)

lock_exclusive_example : (◌≡◌ {A = ℕ} 0 0) × (lookup 1 stolen_one.locks ≡ some 7)
lock_exclusive_example =
    lock_exclusive 1 engine_of (λ p. refl) reached reached-IsPrompt reached-ReleasesOwn 0 0
      Holds-one Holds-one

-- The thread 0 holds the lock of the stack 1.
abbrev held : System ℕ
held = record { locks = (1, 7) ∷ []; stopped = []; phase = λ q. if 0 == q then acquired else idle }

held-row : lookup 1 held.locks ≡ some 7
unfolding program
held-row = refl

lock_stolen_example :
    (t : System ℕ) × Reach 1 engine_of held t
    × Holds 1 engine_of t 0
    × Holds 1 engine_of t 1
    × (t.stopped ≡ held.stopped)
lock_stolen_example = lock_stolen 1 engine_of held 0 1 (refl, refl) held-row refl refl refl

acquire_run-eq-result_example :
    acquire_run replies 1 7 6 (creating true) locked ≡ acquire_result replies 1 7 (some 8) locked
unfolding lookup
acquire_run-eq-result_example = acquire_run-eq-result replies 1 7 true locked
