-- ===== src/Scheduler/Delegation.antt =====
-- A wrapped task goes on like its parent where that yields no subtask, and gets on at every step.
use heat.Prelude.{
  ℕ, zero, suc, ◌<◌, ◌≤◌, false, ◌≡◌, refl, ◌⊎◌, inl, inr, Option, none, some, arith, Bool-cases,
  if◌then◌else◌, if_ind,
}
use heat.Scheduler.Coroutine.{
  Exn, generator_exit, Result, ok, raise, Resumed, yields, stops, raises, closed,
}
use heat.Scheduler.Wrapped.{
  Delegating, is_exit, parent_closed, passed_on, behind, delegate, wrapped_next, wrapped_throw,
}

module _ {P C : Type 0} (d : Delegating P C) where
  -- What the parent does, at the places of the wrapper.
  abbrev pub alone : Resumed P → Resumed (P × Option C)
  alone (yields p) = yields (p, none)
  alone stops = stops
  alone (raises x) = raises x

  delegate-alone :
      (rounds : ℕ) (r : Resumed P)
      → ((p : P) → d.delegates p ≡ false)
      → delegate d (suc rounds) r ≡ some (alone r)
  unfolding delegate
  delegate-alone rounds stops never = refl
  delegate-alone rounds (raises x) never = refl
  delegate-alone rounds (yields p) never = rw (never p, delegate) refl

  -- A wrapped task that never yields a subtask does what the task itself does, when it is resumed and
  -- when an exception is thrown into it; and a GeneratorExit closes the task.
  pub wrapped-alone :
      (rounds : ℕ) (p : P) (x : Exn)
      → ((q : P) → d.delegates q ≡ false)
      → (wrapped_next d (suc rounds) (p, none) ≡ some (alone (d.parent.next p)))
        × (wrapped_throw d (suc rounds) (p, none) x
            ≡ some (if is_exit x then parent_closed d p else alone (d.parent.throw p x)))
  unfolding wrapped_next wrapped_throw passed_on
  wrapped-alone rounds p x never = (
    delegate-alone rounds (d.parent.next p) never,
    ground (arith, delegate-alone rounds (d.parent.throw p x) never),
  )

  module _ (rank : P → ℕ) where
    -- The parent gets on, when it is resumed and when an exception of a subtask is thrown into it.
    pub record GetsOn : Type 0 where
      pub next_falls : (p q : P) → d.parent.next p ≡ yields q → rank q < rank p
      pub throw_falls : (p q : P) (x : Exn) → d.parent.throw p x ≡ yields q → rank q < rank p

    -- The subtask goes on from its `yield` to its next.
    abbrev pub IsStep : P → Option C → Option C → Type 0
    IsStep p (some c) (some c') = (d.child p).next c ≡ yields c'
    IsStep p _ _ = ⊥

    abbrev pub Progress : P → Option C → Option (Resumed (P × Option C)) → Type 0
    Progress p at none = ⊥
    Progress p at (some (yields (q, at'))) = (rank q < rank p) ⊎ ((q ≡ p) × IsStep p at at')
    Progress p at (some _) = Unit

    module _ (gets_on : GetsOn) where
      -- Behind a call of the parent the wrapper comes to a place, with a rank below `m`, or ends.
      abbrev Lands : ℕ → Option (Resumed (P × Option C)) → Type 0
      Lands m none = ⊥
      Lands m (some (yields w)) = rank w.0 < m
      Lands m (some _) = Unit

      abbrev Below : ℕ → Resumed P → Type 0
      Below m (yields p) = rank p < m
      Below m _ = Unit

      Below-next : (p : P) (r : Resumed P) → d.parent.next p ≡ r → Below (rank p) r
      Below-next p (yields q) h = gets_on.next_falls p q h
      Below-next p stops h = tt
      Below-next p (raises x) h = tt

      Below-throw : (p : P) (x : Exn) (r : Resumed P) → d.parent.throw p x ≡ r → Below (rank p) r
      Below-throw p x (yields q) h = gets_on.throw_falls p q x h
      Below-throw p x stops h = tt
      Below-throw p x (raises y) h = tt

      Lands-weaken : (m k : ℕ) (o : Option (Resumed (P × Option C))) → m ≤ k → Lands m o → Lands k o
      Lands-weaken m k none le h = h
      Lands-weaken m k (some (yields w)) le h = omega arith
      Lands-weaken m k (some stops) le h = tt
      Lands-weaken m k (some (raises x)) le h = tt

      Lands-close :
          (m : ℕ) (c : Result Unit)
          → Lands m (some (elim c [ ok u ↦ raises generator_exit | raise y ↦ raises y ]))
      Lands-close m (ok u) = tt
      Lands-close m (raise y) = tt

      Lands-parent_closed : (m : ℕ) (p : P) → Lands m (some (parent_closed d p))
      unfolding parent_closed
      Lands-parent_closed m p = Lands-close m (closed (d.parent.throw p generator_exit))

      Lands-passed_on :
          (m : ℕ) (continue : Resumed P → Option (Resumed (P × Option C))) (p : P) (x : Exn)
          → ((r : Resumed P) → Below (rank p) r → Lands m (continue r))
          → Lands m (passed_on d continue p x)
      unfolding passed_on
      Lands-passed_on m continue p x lands =
          if_ind (Lands m) (is_exit x) (λ _. Lands-parent_closed m p)
            (λ _. lands (d.parent.throw p x) (Below-throw p x (d.parent.throw p x) refl))

      Lands-behind :
          (m : ℕ) (continue : Resumed P → Option (Resumed (P × Option C))) (p : P) (r : Resumed C)
          → rank p < m
          → ((r : Resumed P) → Below (rank p) r → Lands m (continue r))
          → Lands m (behind d continue p r)
      unfolding behind
      Lands-behind m continue p (yields c) b lands = b
      Lands-behind m continue p stops b lands =
          lands (d.parent.next p) (Below-next p (d.parent.next p) refl)
      Lands-behind m continue p (raises x) b lands = Lands-passed_on m continue p x lands

      Lands-delegate :
          (rounds m : ℕ) (r : Resumed P) → Below m r → m < rounds → Lands m (delegate d rounds r)
      unfolding delegate behind
      Lands-delegate zero m r b h = absurd (omega arith)
      Lands-delegate (suc rounds) m stops b h = tt
      Lands-delegate (suc rounds) m (raises x) b h = tt
      Lands-delegate (suc rounds) m (yields p) b h = elim (Bool-cases (d.delegates p)) [
        | inr plain ↦ rw (plain, delegate) b
        | inl delegating ↦
            rw (delegating, delegate)
              (Lands-behind m (λ r. delegate d rounds r) p (d.child p).first b
                (λ r below.
                  Lands-weaken (rank p) m (delegate d rounds r) (omega arith)
                    (Lands-delegate rounds (rank p) r below (omega arith))))
      ]

      Progress-Lands :
          (p : P) (at : Option C) (o : Option (Resumed (P × Option C)))
          → Lands (rank p) o
          → Progress p at o
      Progress-Lands p at none l = l
      Progress-Lands p at (some (yields (q, at'))) l = inl l
      Progress-Lands p at (some stops) l = tt
      Progress-Lands p at (some (raises x)) l = tt

      Progress-behind :
          (rounds : ℕ) (p : P) (c : C) (r : Resumed C)
          → (d.child p).next c ≡ r
          → rank p < rounds
          → Progress p (some c) (behind d (λ q. delegate d rounds q) p r)
      unfolding behind
      Progress-behind rounds p c (yields c') h enough = inr (refl, h)
      Progress-behind rounds p c stops h enough =
          Progress-Lands p (some c) (delegate d rounds (d.parent.next p)) (
            Lands-delegate rounds (rank p) (d.parent.next p) (Below-next p (d.parent.next p) refl)
              enough)
      Progress-behind rounds p c (raises x) h enough =
          Progress-Lands p (some c) (passed_on d (λ q. delegate d rounds q) p x) (
            Lands-passed_on (rank p) (λ q. delegate d rounds q) p x
              (λ r below. Lands-delegate rounds (rank p) r below enough))

      -- A wrapped task whose parent gets on (a rank falls from each of its places to the next, also
      -- behind an exception of a subtask), with more rounds than the rank of its place: whenever it
      -- is resumed it comes to a result; and if it yields, then the parent has got on, or is where
      -- it was and the subtask has gone on to its next `yield`.
      pub wrapped_next-Progress :
          (rounds : ℕ) (p : P) (at : Option C)
          → rank p < rounds
          → Progress p at (wrapped_next d rounds (p, at))
      unfolding wrapped_next
      wrapped_next-Progress rounds p none enough =
          Progress-Lands p none (delegate d rounds (d.parent.next p)) (
            Lands-delegate rounds (rank p) (d.parent.next p) (Below-next p (d.parent.next p) refl)
              enough)
      wrapped_next-Progress rounds p (some c) enough =
          Progress-behind rounds p c ((d.child p).next c) refl enough
