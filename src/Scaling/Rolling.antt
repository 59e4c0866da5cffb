-- ===== src/Scaling/Rolling.antt =====
-- The rolling update comes to an end, keeps the asked number of instances in service and leaves the
-- group with the size it had.
use Prim.Native.Nat.{min}
use heat.Prelude.{
  ℕ, zero, suc, ◌+◌, ◌-◌, ◌*◌, ◌/◌, ◌≤◌, ◌<◌, true, ◌||◌, ◌≡◌, ◌⊎◌, inl, inr, some, List, [], ◌∷◌,
  ltb, arith, length, All, Bool-cases, subst,
}
use heat.Scaling.Replace.{Round, rounds, next_size, replace_loop, first_size, replace_from, replace}

-- In the round, the instances that are not in the batch are `least` at least, or as many have been
-- replaced before; and the group is never smaller than its capacity.
abbrev pub InService : ℕ → ℕ → Round → Type 0
InService capacity least r =
    (capacity ≤ r.size) × ((least + r.batch ≤ r.size) ⊎ (least ≤ r.replaced))

-- The size of the last round, or `size` where there is no round.
abbrev pub last_size : ℕ → List Round → ℕ
last_size size [] = size
last_size size (r ∷ rs) = last_size r.size rs

-- What a run of the loop promises, from `replaced` and `size` on.
pub record Rolled (capacity batch least replaced size : ℕ) (rs : List Round) : Type 0 where
  pub in_service : All (InService capacity least) rs
  pub ends_at : last_size size rs ≡ capacity
  pub all_replaced : capacity ≤ replaced + length rs * batch

module _ (capacity batch least : ℕ) (some_batch : 0 < batch) (fits : least ≤ capacity) where
  -- The round that begins with `replaced` and `size`.
  abbrev this_round : ℕ → ℕ → Round
  this_round replaced size = record {
    size = next_size capacity least replaced size;
    batch = batch;
    replaced = replaced;
  }

  loop_round :
      (fuel replaced size : ℕ) (rs : List Round)
      → (ltb replaced capacity || ltb capacity size) ≡ true
      → replace_loop fuel capacity batch least
          (replaced + batch)
          (next_size capacity least replaced size)
        ≡ some rs
      → replace_loop (suc fuel) capacity batch least replaced size
        ≡ some (this_round replaced size ∷ rs)
  unfolding replace_loop
  loop_round fuel replaced size rs goes_on h = ground arith

  loop_settled :
      (fuel replaced : ℕ)
      → capacity ≤ replaced
      → replace_loop (suc fuel) capacity batch least replaced capacity ≡ some []
  unfolding replace_loop
  loop_settled fuel replaced h = ground arith

  round_safe :
      (replaced size : ℕ)
      → capacity ≤ size
      → (least + batch ≤ size) ⊎ (least ≤ replaced)
      → InService capacity least (this_round replaced size)
  unfolding next_size
  round_safe replaced size large safe = ground arith

  next_size-settled :
      (replaced size : ℕ) → capacity ≤ replaced → next_size capacity least replaced size ≡ capacity
  unfolding next_size
  next_size-settled replaced size h = ground arith

  Rolled-cons :
      (replaced size : ℕ) (rs : List Round)
      → capacity ≤ size
      → (least + batch ≤ size) ⊎ (least ≤ replaced)
      → Rolled capacity batch least (replaced + batch) (next_size capacity least replaced size) rs
      → Rolled capacity batch least replaced size (this_round replaced size ∷ rs)
  Rolled-cons replaced size rs large safe rolled = record {
    in_service = (round_safe replaced size large safe, rolled.in_service);
    ends_at = rolled.ends_at;
    all_replaced = grind (arith, rolled.all_replaced);
  }

  loop_ends :
      (fuel replaced size : ℕ)
      → capacity - replaced + 2 ≤ fuel
      → capacity ≤ size
      → (least + batch ≤ size) ⊎ (least ≤ replaced)
      → (rs : List Round) × (replace_loop fuel capacity batch least replaced size ≡ some rs)
        × Rolled capacity batch least replaced size rs
  loop_ends zero replaced size enough large safe = absurd (omega arith)
  loop_ends (suc zero) replaced size enough large safe = absurd (omega arith)
  loop_ends (suc (suc fuel)) replaced size enough large safe =
      let next = next_size capacity least replaced size in
      let here = round_safe replaced size large safe in
      elim (Bool-cases (ltb replaced capacity)) [
        | inl more ↦
            let (rs, ran, rolled) =
              loop_ends (suc fuel) (replaced + batch) next (ground arith) here.0 (ground arith) in
            (
              this_round replaced size ∷ rs,
              loop_round (suc fuel) replaced size rs (ground arith) ran,
              Rolled-cons replaced size rs large safe rolled,
            )
        | inr finished ↦ elim (Bool-cases (ltb capacity size)) [
          | inl swollen ↦
              let settled = next_size-settled replaced size (ground arith) in
              (
                this_round replaced size ∷ [],
                loop_round (suc fuel) replaced size [] (ground arith)
                    (rw settled (loop_settled fuel (replaced + batch) (ground arith))),
                record { in_service = (here, tt); ends_at = settled; all_replaced = ground arith },
              )
          | inr same ↦ (
            [],
            subst (λ z. replace_loop (suc (suc fuel)) capacity batch least replaced z ≡ some [])
                {x = capacity} (ground arith) (loop_settled (suc fuel) replaced (ground arith)),
            record { in_service = tt; ends_at = ground arith; all_replaced = ground arith },
          )
        ]
      ]

first_size_bounds :
    (capacity batch least : ℕ)
    → (capacity ≤ first_size capacity batch least)
      × (least + batch ≤ first_size capacity batch least)
unfolding first_size
first_size_bounds capacity batch least = omega arith

replace_from-eq-loop :
    (limit capacity batch least pause : ℕ) {rs : List Round}
    → 0 < batch
    → pause * ((capacity + batch - 1) / batch - 1) < limit
    → replace_loop (capacity + 2) capacity batch least 0 (first_size capacity batch least) ≡ some rs
    → replace_from limit capacity batch least pause ≡ rounds (some rs)
unfolding replace_from
replace_from-eq-loop limit capacity batch least pause some_batch in_time ran = ground arith

module _ (limit capacity min_in_service batch_size pause : ℕ) where
  -- A rolling update of a group that has instances, with batches of one at least and with pauses that
  -- the time-out of the stack leaves room for: the loop ends; in every round the asked number of
  -- instances, or all there are, is outside the batch or has been replaced before; the batches
  -- come to all the instances; and the last round has as many instances as there were.
  pub replace_rolls :
      0 < capacity
      → 0 < batch_size
      → pause * ((capacity + min batch_size capacity - 1) / min batch_size capacity - 1) < limit
      → (rs : List Round) × (replace limit capacity min_in_service batch_size pause
          ≡ rounds (some rs))
        × Rolled capacity
            (min batch_size capacity)
            (min min_in_service capacity)
            0
            (first_size capacity (min batch_size capacity) (min min_in_service capacity))
            rs
  unfolding replace
  replace_rolls some_instances some_batch in_time =
      let batch = min batch_size capacity in
      let least = min min_in_service capacity in
      let bounds = first_size_bounds capacity batch least in
      let (rs, ran, rolled) =
        loop_ends capacity batch least (omega arith) (omega arith) (capacity + 2) 0
          (first_size capacity batch least) (omega arith) bounds.0 (inl bounds.1) in
      (rs, replace_from-eq-loop limit capacity batch least pause (omega arith) in_time ran, rolled)
