-- ===== src/StackLock/Exclusion.antt =====
-- The lock of a stack is held by one thread at most, in every interleaving where the engines that have
-- not stopped answer in time.
use heat.Prelude.{
  ℕ, nat_eq, Bool, true, false, Option, none, ap, ◌∙◌, ◌∷◌, ◌≡◌, refl, Eq, ◌==◌, member, some,
  if◌then◌else◌, arith, Option-cases, Bool-cases, inl, inr, beq_refl,
}
use heat.Dict.{lookup, put, lookup-put}
use heat.StackLock.Table.{Locks, stack_lock_release}
use heat.StackLock.Acquire.{
  Phase, creating, asking, stealing, acquired, refused, idle, engine_alive, acquire_step,
}
use heat.StackLock.Steps.{
  create_free, create_taken, ask_lem, steal_free, steal_same, steal_lost, release_other, lock_free,
  lock_taken,
}
use heat.StackLock.System.{
  System, alive, set_phase, do_acquire, do_try_acquire, do_release, try_once, call, transact,
  release, give_up, stop, Reach, here, next, IsPrompt, ReleasesOwn,
}

module _ {Key : Type 0} ⦃e : Eq Key⦄ (stack : Key) (engine_of : ℕ → Key) where
  -- `p` holds the lock, and its engine is still there.
  abbrev pub Holds : System Key → ℕ → Type 0
  Holds s p = (s.phase p ≡ acquired) × (member (engine_of p) s.stopped ≡ false)

  pub record IsSafe (s : System Key) : Type 0 where
    pub owned : (p : ℕ) → Holds s p → lookup stack s.locks ≡ some (engine_of p)
    pub one : (p q : ℕ) → Holds s p → Holds s q → p ≡ q
    pub stale :
        (p : ℕ) (retry : Bool) (owner : Key)
        → s.phase p ≡ stealing retry owner
        → member owner s.stopped ≡ true

  -- In the state `s`, the engines that have not stopped answer in time.
  abbrev Prompt : System Key → (Key → Option Bool) → Type 0
  Prompt s replies = (engine : Key) → alive s engine ≡ true → engine_alive (replies engine) ≡ true

  module _ (p : ℕ) (s : System Key) (v : IsSafe s) where
    -- The thread `p` goes on to `phase` without taking the lock.
    goes_on-IsSafe :
        (phase : Phase Key)
        → (phase ≡ acquired → s.phase p ≡ acquired)
        → ((retry : Bool) (owner : Key)
            → phase ≡ stealing retry owner
            → member owner s.stopped ≡ true)
        → IsSafe (record s { phase = set_phase p phase s })
    goes_on-IsSafe phase held stale = record {
      owned = λ q h. ground (arith, λ (k : Holds s q). v.owned q k);
      one = λ q r h k. ground (arith, λ (m : Holds s q) (n : Holds s r). v.one q r m n);
      stale = λ q retry owner h. ground (arith, v.stale q retry owner, stale retry owner);
    }

    -- The thread `p` takes the lock, which no thread held.
    gains-IsSafe :
        (locks : Locks Key)
        → lookup stack locks ≡ some (engine_of p)
        → ((q : ℕ) → Holds s q → ⊥)
        → IsSafe (record s { locks = locks; phase = set_phase p acquired s })
    gains-IsSafe locks owns free = record {
      owned = λ q h. ground (arith, λ (k : Holds s q). free q k);
      one = λ q r h k. ground (arith, λ (m : Holds s q). free q m, λ (n : Holds s r). free r n);
      stale = λ q retry owner h. ground (arith, v.stale q retry owner);
    }

    abbrev after : Phase Key × Locks Key → System Key
    after (phase, locks) = record s { locks = locks; phase = set_phase p phase s }

    acquire-IsSafe :
        (replies : Key → Option Bool) (phase : Phase Key)
        → Prompt s replies
        → s.phase p ≡ phase
        → IsSafe (after (acquire_step replies stack (engine_of p) phase s.locks))
    acquire-IsSafe replies (creating retry) prompt at = elim (Option-cases (lookup stack s.locks)) [
      | inl free ↦ rw (create_free replies stack (engine_of p) s.locks retry free) (
          gains-IsSafe (put stack (engine_of p) s.locks)
            (ground (arith, lookup-put stack stack (engine_of p) s.locks, beq_refl stack))
            (λ q h. ground (arith, v.owned q h)))
      | inr (owner, taken) ↦
          rw (create_taken replies stack (engine_of p) s.locks retry owner taken) (
            goes_on-IsSafe (if owner == engine_of p then refused else asking retry owner)
              (λ h. ground arith) (λ retry' owner' h. ground arith))
    ]
    acquire-IsSafe replies (asking retry owner) prompt at =
        rw (ask_lem replies stack (engine_of p) s.locks retry owner) (
          goes_on-IsSafe (if engine_alive (replies owner) then refused else stealing retry owner)
            (λ h. ground arith) (λ retry' owner' h. ground (arith, prompt owner)))
    acquire-IsSafe replies (stealing retry owner) prompt at =
        elim (Option-cases (lookup stack s.locks)) [
          | inl free ↦ rw (steal_free replies stack (engine_of p) s.locks retry owner free) (
              goes_on-IsSafe (if retry then creating false else refused) (λ h. ground arith)
                (λ retry' owner' h. ground arith))
          | inr (other, taken) ↦ elim (Bool-cases (other == owner)) [
            | inl same ↦
                rw (steal_same replies stack (engine_of p) s.locks retry owner other taken same) (
                  gains-IsSafe (put stack (engine_of p) s.locks)
                    (ground (arith, lookup-put stack stack (engine_of p) s.locks, beq_refl stack))
                    (λ q h.
                      ground (arith, v.owned q h, v.stale p retry owner at, e.beq_iff other owner)))
            | inr differs ↦
                rw (steal_lost replies stack (engine_of p) s.locks retry owner other taken differs)
                  (goes_on-IsSafe refused (λ h. cc) (λ retry' owner' h. cc))
          ]
        ]
    acquire-IsSafe replies acquired prompt at =
        unfold acquire_step in goes_on-IsSafe acquired (λ _. at) (λ retry owner h. cc)
    acquire-IsSafe replies refused prompt at =
        unfold acquire_step in goes_on-IsSafe refused (λ h. cc) (λ retry owner h. cc)
    acquire-IsSafe replies idle prompt at =
        unfold acquire_step in goes_on-IsSafe idle (λ h. cc) (λ retry owner h. cc)

    try-IsSafe : s.phase p ≡ idle → IsSafe (do_try_acquire stack engine_of p s)
    unfolding do_try_acquire
    try-IsSafe at = elim (Option-cases (lookup stack s.locks)) [
      | inl free ↦ rw (lock_free (λ _. none) stack (engine_of p) s.locks free) (
          gains-IsSafe (put stack (engine_of p) s.locks)
            (ground (arith, lookup-put stack stack (engine_of p) s.locks, beq_refl stack))
            (λ q h. ground (arith, v.owned q h)))
      | inr (owner, taken) ↦
          rw (lock_taken (λ _. none) stack (engine_of p) s.locks owner taken)
            (goes_on-IsSafe idle (λ h. cc) (λ retry other h. cc))
    ]

    -- `release` deletes no row of another engine.
    release-row :
        ((q : ℕ) → s.phase q ≡ acquired → engine_of q ≡ engine_of p → p ≡ q)
        → (q : ℕ) → (p == q) ≡ false
        → Holds s q
        → lookup stack (stack_lock_release stack (engine_of p) s.locks).1 ≡ some (engine_of q)
    release-row own q other h = elim (Bool-cases (engine_of q == engine_of p)) [
      | inl same ↦ absurd (ground (arith, own q h.0, e.beq_iff (engine_of q) (engine_of p)))
      | inr differs ↦
          ap (lookup stack) (
            release_other (λ _. none) stack (engine_of p) s.locks (engine_of q) (v.owned q h)
              differs)
          ∙ v.owned q h
    ]

    release-IsSafe :
        ((q : ℕ) → s.phase q ≡ acquired → engine_of q ≡ engine_of p → p ≡ q)
        → IsSafe (do_release stack engine_of p s)
    unfolding do_release
    release-IsSafe own = record {
      owned = λ q k. release-row own q (ground arith) (ground arith, k.1);
      one = λ q r k m. ground (arith, λ (n : Holds s q) (o : Holds s r). v.one q r n o);
      stale = λ q retry owner k. ground (arith, v.stale q retry owner);
    }

  transact-IsSafe :
      (replies : Key → Option Bool) (p : ℕ) (s : System Key)
      → Prompt s replies
      → IsSafe s
      → IsSafe (do_acquire stack engine_of replies p s)
  unfolding do_acquire
  transact-IsSafe replies p s prompt v = acquire-IsSafe p s v replies (s.phase p) prompt refl

  stop-IsSafe :
      (engine : Key) (s : System Key)
      → IsSafe s
      → IsSafe (record s { stopped = engine ∷ s.stopped })
  stop-IsSafe engine s v = record {
    owned = λ q h. v.owned q (h.0, ground arith);
    one = λ q r h k. v.one q r (h.0, ground arith) (k.0, ground arith);
    stale = λ q retry owner h. ground (arith, v.stale q retry owner h);
  }

  Reach-IsSafe :
      {s t : System Key}
      → IsSafe s
      → (r : Reach stack engine_of s t) → IsPrompt stack engine_of r
      → ReleasesOwn stack engine_of r
      → IsSafe t
  unfolding IsPrompt ReleasesOwn
  Reach-IsSafe v here prompt own = v
  Reach-IsSafe v (next {t} r (call p at)) prompt own =
      goes_on-IsSafe p t (Reach-IsSafe v r prompt own) (creating true) (λ h. cc)
        (λ retry owner h. cc)
  Reach-IsSafe v (next {t} r (transact p replies runs)) prompt own =
      transact-IsSafe replies p t prompt.1 (Reach-IsSafe v r prompt.0 own)
  Reach-IsSafe v (next {t} r (try_once p runs at)) prompt own =
      try-IsSafe p t (Reach-IsSafe v r prompt own) at
  Reach-IsSafe v (next {t} r (release p runs)) prompt own =
      release-IsSafe p t (Reach-IsSafe v r prompt own.0) own.1
  Reach-IsSafe v (next {t} r (give_up p)) prompt own =
      goes_on-IsSafe p t (Reach-IsSafe v r prompt own) idle (λ h. cc) (λ retry owner h. cc)
  Reach-IsSafe v (next {t} r (stop engine)) prompt own =
      stop-IsSafe engine t (Reach-IsSafe v r prompt own)

  -- No thread has begun, and the table may hold what engines that stopped have left.
  abbrev pub Starts : System Key → Type 0
  Starts s = (p : ℕ) → s.phase p ≡ idle

  Starts-IsSafe : (s : System Key) → Starts s → IsSafe s
  Starts-IsSafe s starts = record {
    owned = λ p h. absurd (ground (arith, starts p));
    one = λ p q h k. absurd (ground (arith, starts p));
    stale = λ p retry owner h. absurd (ground (arith, starts p));
  }

  -- From a state where no thread has begun, however the threads of any engines interleave their
  -- calls of `acquire`, `try_acquire` and `release`, and whenever threads or engines stop: if each
  -- engine that has not stopped answers in time that it is alive, and if a thread releases the lock only
  -- where no other thread of its engine has acquired it, two threads of engines that have not stopped
  -- never hold the lock of the stack at once, and the row of the stack names the engine of the thread
  -- that holds it.
  pub lock_exclusive :
      {s t : System Key}
      → Starts s
      → (r : Reach stack engine_of s t) → IsPrompt stack engine_of r
      → ReleasesOwn stack engine_of r
      → (p q : ℕ) → Holds t p
      → Holds t q
      → (p ≡ q) × (lookup stack t.locks ≡ some (engine_of p))
  lock_exclusive {s} starts r prompt own p q h k =
      let safe = Reach-IsSafe (Starts-IsSafe s starts) r prompt own in
      (safe.one p q h k, safe.owned p h)
