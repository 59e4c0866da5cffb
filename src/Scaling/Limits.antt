-- ===== src/Scaling/Limits.antt =====
-- `adjust` keeps a group within its limits.
use heat.Prelude.{
  ℕ, ◌+◌, ◌≤◌, ◌<◌, ◌*◌, Bool, true, false, ◌≡◌, none, some, [], ◌⊎◌, if◌then◌else◌, arith, ℤ, ◌≤ℤ◌,
  ◌<ℤ◌, int_beq,
}
use heat.Scaling.Cooldown.{cooldown_seconds}
use heat.Scaling.Adjust.{
  AdjustmentType, no_change, resize_to, decide_capacity, rounded_size, Group, returned, adjust,
}

-- Where the lower limit is at most the upper one: a new capacity that `adjust` decides on lies
-- within the limits and differs from the capacity.
pub decide_capacity_within :
    (capacity lower upper new_capacity n : ℤ)
    → lower ≤ℤ upper
    → decide_capacity capacity lower upper new_capacity ≡ resize_to n
    → (lower ≤ℤ n) × (n ≤ℤ upper) × (int_beq n capacity ≡ false)
unfolding decide_capacity
decide_capacity_within capacity lower upper new_capacity n ordered h = ground arith

-- The decision on a wanted capacity that lies within the limits is that capacity, unless it is the
-- capacity of the group.
pub decide_capacity_asked :
    (capacity lower upper n : ℤ)
    → lower ≤ℤ n
    → n ≤ℤ upper
    → decide_capacity capacity lower upper n
      ≡ (if int_beq n capacity then no_change else resize_to n)
unfolding decide_capacity
decide_capacity_asked capacity lower upper n p q = ground arith

-- The rounding of a percentage gives at least one instance for anything above zero, and at most the
-- exact amount, rounded up.
pub rounded_size_bounds :
    (m : ℕ) → 0 < m → (0 < rounded_size m) × (rounded_size m * 100 ≤ m + 99) × (rounded_size m ≤ m)
unfolding rounded_size
rounded_size_bounds m h = (ground arith, ground arith, ground arith)

-- Where the lower limit is at most the upper one: a new capacity that `adjust` decides on is above
-- the capacity and more was asked for, or it is below the capacity and less was asked for.
pub decide_capacity_direction :
    (capacity lower upper new_capacity n : ℤ)
    → decide_capacity capacity lower upper new_capacity ≡ resize_to n
    → lower ≤ℤ upper
    → (capacity <ℤ new_capacity × capacity <ℤ n) ⊎ (new_capacity <ℤ capacity × n <ℤ capacity)
unfolding decide_capacity
decide_capacity_direction capacity lower upper new_capacity n h ordered = ground arith

adjust_stamps :
    (now : ℕ) (a : ℤ) (kind : AdjustmentType) (g : Group) (n : ℤ)
    → (adjust true now a kind g).1 ≡ returned (some (resize_to n))
    → (adjust true now a kind g).2 ≡ record g { last_adjust = some now }
unfolding adjust
adjust_stamps now a kind g n h = ground arith

adjust_cooling :
    (now later : ℕ) (b : ℤ) (kind : AdjustmentType) (g : Group) (resize_ok : Bool)
    → 0 < cooldown_seconds g.cooldown
    → later ≤ now + cooldown_seconds g.cooldown
    → adjust resize_ok later b kind (record g { last_adjust = some now })
      ≡ ([], returned none, record g { last_adjust = some now })
unfolding adjust
adjust_cooling now later b kind g resize_ok positive soon = ground arith

-- Once `adjust` has resized a group with a positive cooldown, no call of it, up to the end of the
-- cooldown, resizes the group, sends a notice or changes its timestamp.
pub adjust_cools_down :
    (now later : ℕ) (a b : ℤ) (kind kind' : AdjustmentType) (g : Group) (resize_ok : Bool) (n : ℤ)
    → (adjust true now a kind g).1 ≡ returned (some (resize_to n))
    → 0 < cooldown_seconds g.cooldown
    → later ≤ now + cooldown_seconds g.cooldown
    → adjust resize_ok later b kind' (adjust true now a kind g).2
      ≡ ([], returned none, (adjust true now a kind g).2)
adjust_cools_down now later a b kind kind' g resize_ok n h positive soon =
    rw (adjust_stamps now a kind g n h) (adjust_cooling now later b kind' g resize_ok positive soon)
