-- ===== src/StackLock/Late.antt =====
-- What an engine that answers late loses.
use heat.Prelude.{
  ℕ, true, false, ◌≡◌, refl, subst, ap, ◌∙◌, Eq, ◌==◌, member, none, some, nat_eq, arith, beq_refl,
}
use heat.Dict.{lookup, put}
use heat.StackLock.Table.{Locks}
use heat.StackLock.Acquire.{
  Phase, creating, asking, stealing, acquired, idle, engine_alive, acquire_step,
}
use heat.StackLock.Steps.{create_taken, ask_lem, steal_same}
use heat.StackLock.System.{System, set_phase, do_acquire, Reach, here, next, call, transact}
use heat.StackLock.Exclusion.{Holds}

module _ {Key : Type 0} ⦃e : Eq Key⦄ (stack : Key) (engine_of : ℕ → Key) where
  abbrev after : ℕ → Phase Key → Locks Key → System Key → System Key
  after q phase locks s = record s { locks = locks; phase = set_phase q phase s }

  -- A step of `acquire` of the thread `q`, where every call times out.
  goes_on :
      (s u : System Key) (q : ℕ) (phase phase' : Phase Key) (locks : Locks Key)
      → Reach stack engine_of s u
      → u.phase q ≡ phase
      → member (engine_of q) u.stopped ≡ false
      → acquire_step (λ _. none) stack (engine_of q) phase u.locks ≡ (phase', locks)
      → Reach stack engine_of s (after q phase' locks u)
  unfolding do_acquire
  goes_on s u q phase phase' locks r at runs does =
      subst (λ d. Reach stack engine_of s (after q d.0 d.1 u))
        (ap (λ z. acquire_step (λ _. none) stack (engine_of q) z u.locks) at ∙ does)
        (next r (transact q (λ _. none) (ground arith)))

  asks :
      (owner engine : Key) (locks : Locks Key)
      → lookup stack locks ≡ some owner
      → (owner == engine) ≡ false
      → acquire_step (λ _. none) stack engine (creating true) locks ≡ (asking true owner, locks)
  asks owner engine locks row other =
      create_taken (λ _. none) stack engine locks true owner row ∙ rw other refl

  gives_up_waiting :
      (owner engine : Key) (locks : Locks Key)
      → acquire_step (λ _. none) stack engine (asking true owner) locks
        ≡ (stealing true owner, locks)
  unfolding engine_alive
  gives_up_waiting owner engine locks = ask_lem (λ _. none) stack engine locks true owner

  pub lock_stolen :
      (s : System Key) (p q : ℕ)
      → Holds stack engine_of s p
      → lookup stack s.locks ≡ some (engine_of p)
      → s.phase q ≡ idle
      → member (engine_of q) s.stopped ≡ false
      → (engine_of p == engine_of q) ≡ false
      → (t : System Key) × Reach stack engine_of s t
        × Holds stack engine_of t p
        × Holds stack engine_of t q
        × (t.stopped ≡ s.stopped)
  lock_stolen s p q h row free runs other =
      let e' = engine_of q in
      let asked = after q (asking true (engine_of p)) s.locks called in
      let waited = after q (stealing true (engine_of p)) s.locks asked in
      (
        after q acquired (put stack e' s.locks) waited,
        goes_on s waited q (stealing true (engine_of p)) acquired (put stack e' s.locks)
            (goes_on s asked q (asking true (engine_of p)) (stealing true (engine_of p)) s.locks
              (goes_on s called q (creating true) (asking true (engine_of p)) s.locks
                (next here (call q free)) (ground (arith, beq_refl q)) runs
                (asks (engine_of p) e' s.locks row other))
              (ground (arith, beq_refl q)) runs (gives_up_waiting (engine_of p) e' s.locks))
            (ground (arith, beq_refl q)) runs
            (steal_same (λ _. none) stack e' s.locks true (engine_of p) (engine_of p) row
              (beq_refl (engine_of p))),
        (ground (arith, h.0, nat_eq.beq_iff q p), h.1),
        (ground (arith, beq_refl q), runs),
        refl,
      )
    where
      called : System Key
      called = record s { phase = set_phase q (creating true) s }
