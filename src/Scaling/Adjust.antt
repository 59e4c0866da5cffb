-- ===== src/Scaling/Adjust.antt =====
-- `AutoScalingGroup.adjust` of autoscaling.py. `resize`, the update of the nested stack, is an
-- argument: whether it raises.
use heat.Prelude.{
  ℕ, suc, ◌*◌, ◌/◌, Bool, Option, none, some, List, [], ◌∷◌, ltb, nat_beq, if◌then◌else◌, ℤ, pos,
  negsuc, sub_ℕ, ◌+ℤ◌, int_ltb, int_beq,
}
use heat.Scaling.Cooldown.{cooldown_inprogress, cooldown_timestamp}

-- Anything but the first two is taken for the third.
pub data AdjustmentType : Type 0 where
  change_in_capacity exact_capacity percent_change_in_capacity : AdjustmentType

-- `rounded`, for the size `m` of `capacity * adjustment`: less than one instance counts as one, more
-- is rounded towards zero. The source computes with floats, which are exact here while `m` is below
-- 2 ^ 53 and off the multiples of 100.
unfoldable pub rounded_size : ℕ → ℕ
rounded_size m = if ltb m 100 then (if nat_beq m 0 then 0 else 1) else m / 100

unfoldable pub rounded : ℕ → ℤ → ℤ
unfolding rounded_size
rounded capacity (pos a) = pos (rounded_size (capacity * a))
rounded capacity (negsuc a) = sub_ℕ 0 (rounded_size (capacity * suc a))

-- `new_capacity`, before it is held to the limits
unfoldable pub wanted : AdjustmentType → ℕ → ℤ → ℤ
unfolding rounded
wanted change_in_capacity capacity adjustment = pos capacity +ℤ adjustment
wanted exact_capacity capacity adjustment = adjustment
wanted percent_change_in_capacity capacity adjustment = pos capacity +ℤ rounded capacity adjustment

-- What the tests of `adjust` come to: no change, or a new capacity.
pub data Decision : Type 0 where
  cannot_exceed cannot_be_less no_change : Decision
  resize_to : ℤ → Decision

-- The test against `lower` and the test for no change.
unfoldable pub hold_lower : ℤ → ℤ → ℤ → Decision
hold_lower capacity lower new_capacity =
    if int_ltb new_capacity lower
    then (if int_ltb lower capacity
        then (if int_beq lower capacity then no_change else resize_to lower)
        else cannot_be_less)
    else (if int_beq new_capacity capacity then no_change else resize_to new_capacity)

unfoldable pub decide_capacity : ℤ → ℤ → ℤ → ℤ → Decision
unfolding hold_lower
decide_capacity capacity lower upper new_capacity =
    if int_ltb upper new_capacity
    then (if int_ltb capacity upper then hold_lower capacity lower upper else cannot_exceed)
    else hold_lower capacity lower new_capacity

pub record Group : Type 0 where
  -- the instances that have not failed
  pub capacity : ℕ
  pub min_size : ℤ
  pub max_size : ℤ
  pub cooldown : Option ℤ
  -- the timestamp in the metadata
  pub last_adjust : Option ℕ

pub data Notice : Type 0 where
  start end error : Notice

pub data Adjusted : Type 0 where
  -- it returned, having decided so
  returned : Option Decision → Adjusted
  -- `resize` raised, and so does `adjust`
  resize_failed : Adjusted

-- What follows the tests: the notices that are sent, the result, and the group. Its capacity is what
-- the nested stack then holds, and is left to the caller.
unfoldable pub carry_out : Bool → ℕ → Group → Decision → List Notice × Adjusted × Group
carry_out resize_ok now g (resize_to n) =
    if resize_ok
    then (
      start ∷ end ∷ [],
      returned (some (resize_to n)),
      record g { last_adjust = cooldown_timestamp now },
    )
    else (start ∷ error ∷ [], resize_failed, g)
carry_out resize_ok now g other = ([], returned (some other), g)

-- `adjust(adjustment, adjustment_type)`; `returned none` stands for a cooldown in progress.
unfoldable pub adjust : Bool → ℕ → ℤ → AdjustmentType → Group → List Notice × Adjusted × Group
unfolding carry_out cooldown_inprogress
adjust resize_ok now adjustment kind g =
    if cooldown_inprogress now g.cooldown g.last_adjust
    then ([], returned none, g)
    else carry_out resize_ok now g
        (decide_capacity (pos g.capacity) g.min_size g.max_size (wanted kind g.capacity adjustment))
