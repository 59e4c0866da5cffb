-- ===== src/StackLock/System.antt =====
-- Threads of several engines that take and give back the lock of one stack, in any interleaving of
-- their transactions. An engine that stops never comes back: its id is a fresh UUID
-- (`generate_engine_id`). The RPC calls of `_engine_alive` may come to anything.
use heat.Prelude.{
  ℕ, Bool, Option, none, some, not, ◌≡◌, List, ◌∷◌, Eq, nat_eq, ◌==◌, member, true, if◌then◌else◌,
}
use heat.StackLock.Table.{Locks, stack_lock_create, stack_lock_release}
use heat.StackLock.Acquire.{Phase, creating, acquired, idle, engine_alive, acquire_step}

pub record System (Key : Type 0) : Type 0 where
  pub locks : Locks Key
  -- the engines that have stopped
  pub stopped : List Key
  -- what each thread is doing with the lock
  pub phase : ℕ → Phase Key

abbrev pub alive : {Key : Type 0} ⦃e : Eq Key⦄ → System Key → Key → Bool
alive s engine = not (member engine s.stopped)

abbrev pub set_phase : {Key : Type 0} → ℕ → Phase Key → System Key → ℕ → Phase Key
set_phase p phase s q = if p == q then phase else s.phase q

module _ {Key : Type 0} ⦃e : Eq Key⦄ (stack : Key) (engine_of : ℕ → Key) where
  unfoldable pub do_acquire : (Key → Option Bool) → ℕ → System Key → System Key
  unfolding acquire_step
  do_acquire replies p s =
      let r = acquire_step replies stack (engine_of p) (s.phase p) s.locks in
      record s { locks = r.1; phase = set_phase p r.0 s }

  -- `try_acquire`, of which only the first answer, None, is a lock
  abbrev pub tried : Option Key → Phase Key
  tried none = acquired
  tried (some owner) = idle

  unfoldable pub do_try_acquire : ℕ → System Key → System Key
  unfolding stack_lock_create
  do_try_acquire p s =
      let r = stack_lock_create stack (engine_of p) s.locks in
      record s { locks = r.1; phase = set_phase p (tried r.0) s }

  -- `release`, by any thread of the engine: it deletes the row of whichever thread of it has the lock.
  unfoldable pub do_release : ℕ → System Key → System Key
  unfolding stack_lock_release
  do_release p s = record s {
    locks = (stack_lock_release stack (engine_of p) s.locks).1;
    phase = set_phase p idle s;
  }

  pub data Step (s : System Key) : System Key → Type 0 where
    call : (p : ℕ) → s.phase p ≡ idle → Step s (record s { phase = set_phase p (creating true) s })
    transact :
        (p : ℕ) (replies : Key → Option Bool)
        → alive s (engine_of p) ≡ true
        → Step s (do_acquire replies p s)
    try_once :
        (p : ℕ) → alive s (engine_of p) ≡ true → s.phase p ≡ idle → Step s (do_try_acquire p s)
    release : (p : ℕ) → alive s (engine_of p) ≡ true → Step s (do_release p s)
    -- ActionInProgress ends the thread, or it is stopped, wherever it is.
    give_up : (p : ℕ) → Step s (record s { phase = set_phase p idle s })
    stop : (engine : Key) → Step s (record s { stopped = engine ∷ s.stopped })

  pub data Reach (s : System Key) : System Key → Type 0 where
    here : Reach s s
    next : {t u : System Key} → Reach s t → Step t u → Reach s u

  -- An engine that has not stopped answers in time that it is alive.
  unfoldable pub IsPrompt : {s t : System Key} → Reach s t → Type 0
  IsPrompt here = Unit
  IsPrompt (next {t} r (transact p replies runs)) =
      IsPrompt r × ((engine : Key) → alive t engine ≡ true → engine_alive (replies engine) ≡ true)
  IsPrompt (next r (call p at)) = IsPrompt r
  IsPrompt (next r (try_once p runs at)) = IsPrompt r
  IsPrompt (next r (release p runs)) = IsPrompt r
  IsPrompt (next r (give_up p)) = IsPrompt r
  IsPrompt (next r (stop engine)) = IsPrompt r

  -- A thread releases the lock only where no other thread of its engine has it.
  unfoldable pub ReleasesOwn : {s t : System Key} → Reach s t → Type 0
  ReleasesOwn here = Unit
  ReleasesOwn (next {t} r (release p runs)) =
      ReleasesOwn r × ((q : ℕ) → t.phase q ≡ acquired → engine_of q ≡ engine_of p → p ≡ q)
  ReleasesOwn (next r (transact p replies runs)) = ReleasesOwn r
  ReleasesOwn (next r (try_once p runs at)) = ReleasesOwn r
  ReleasesOwn (next r (call p at)) = ReleasesOwn r
  ReleasesOwn (next r (give_up p)) = ReleasesOwn r
  ReleasesOwn (next r (stop engine)) = ReleasesOwn r
