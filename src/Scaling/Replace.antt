-- ===== src/Scaling/Replace.antt =====
-- `InstanceGroup._replace` of autoscaling.py, the rolling update. `replaced` stands for
-- `capacity - remainder` of the source, which may pass `capacity`, so that the test
-- `remainder > 0` reads `replaced < capacity`.
use heat.Prelude.{
  ℕ, zero, suc, ◌+◌, ◌-◌, ◌*◌, ◌/◌, ◌||◌, Option, none, some, List, [], ◌∷◌, ltb, leb, nat_beq,
  if◌then◌else◌,
}
use Prim.Native.Nat.{min, max}

-- A round updates the nested stack with a template of `size` instances of which `batch` may be
-- replaced.
pub record Round : Type 0 where
  pub size : ℕ
  pub batch : ℕ
  -- `capacity - remainder` when the round begins
  pub replaced : ℕ

pub data Replaced : Type 0 where
  zero_division value_error : Replaced
  -- the rounds that were made; `none`: more than the fuel
  rounds : Option (List Round) → Replaced

prepend : Round → Option (List Round) → Option (List Round)
prepend r none = none
prepend r (some rs) = some (r ∷ rs)

-- `if capacity - remainder >= efft_min_sz: efft_capacity = capacity`
unfoldable pub next_size : ℕ → ℕ → ℕ → ℕ → ℕ
next_size capacity least replaced size = if leb least replaced then capacity else size

-- The `while` loop.
unfoldable pub replace_loop : ℕ → ℕ → ℕ → ℕ → ℕ → ℕ → Option (List Round)
unfolding prepend next_size
replace_loop zero capacity batch least replaced size = none
replace_loop (suc fuel) capacity batch least replaced size =
    let size' = next_size capacity least replaced size in
    let rest = replace_loop fuel capacity batch least (replaced + batch) size' in
    if ltb replaced capacity || ltb capacity size
    then prepend (record { size = size'; batch = batch; replaced = replaced }) rest
    else some []

-- `efft_capacity` before the loop
unfoldable pub first_size : ℕ → ℕ → ℕ → ℕ
first_size capacity batch least = max (capacity - batch) least + batch

-- The part of `_replace` behind the two effective sizes, with `timeout_mins * 60` as `limit`.
unfoldable pub replace_from : ℕ → ℕ → ℕ → ℕ → ℕ → Replaced
replace_from limit capacity batch least pause =
    if nat_beq batch 0
    then zero_division
    else (if leb limit (pause * ((capacity + batch - 1) / batch - 1))
        then value_error
        else rounds
            (replace_loop (capacity + 2) capacity batch least 0 (first_size capacity batch least)))

-- `_replace(min_in_service, batch_size, pause_time)` of a group with `capacity` instances
unfoldable pub replace : ℕ → ℕ → ℕ → ℕ → ℕ → Replaced
replace limit capacity min_in_service batch_size pause =
    replace_from limit capacity (min batch_size capacity) (min min_in_service capacity) pause
