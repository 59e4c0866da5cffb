-- ===== src/Scaling/Policy.antt =====
-- `ScalingPolicy.handle_signal` of autoscaling.py.
use heat.Prelude.{ℕ, Bool, Option, none, some, List, String, ◌==◌, string_eq, if◌then◌else◌, ℤ}
use heat.Scaling.Cooldown.{cooldown_inprogress, cooldown_timestamp}
use heat.Scaling.Adjust.{AdjustmentType, Group, Adjusted, returned, resize_failed, Notice, adjust}

pub record Policy : Type 0 where
  pub scaling_adjustment : ℤ
  pub adjustment_type : AdjustmentType
  pub policy_cooldown : Option ℤ
  pub policy_last_adjust : Option ℕ

pub data Handled : Type 0 where
  -- the signal is no alarm, or the policy cools down
  ignored : Handled
  -- `resource_by_refid` finds no group: NotFound is raised
  group_not_found : Handled
  adjusted : Adjusted → Handled

-- The alarm state that `details` names, in lower case: its 'current', else its 'state', else 'alarm'.
unfoldable pub alarm_state : Option (Option String × Option String) → String
alarm_state none = "alarm"
alarm_state (some (some current, state)) = current
alarm_state (some (none, some state)) = state
alarm_state (some (none, none)) = "alarm"

-- Behind `group.adjust(…)`: if that raises, the timestamp of the policy is not written.
unfoldable pub stamped :
    ℕ → Policy → List Notice × Adjusted × Group → Handled × Policy × Option Group
stamped now p (notices, resize_failed, g) = (adjusted resize_failed, p, some g)
stamped now p (notices, returned d, g) =
    (adjusted (returned d), record p { policy_last_adjust = cooldown_timestamp now }, some g)

unfoldable pub adjust_group : Bool → ℕ → Policy → Option Group → Handled × Policy × Option Group
unfolding adjust stamped
adjust_group resize_ok now p none = (group_not_found, p, none)
adjust_group resize_ok now p (some g) =
    stamped now p (adjust resize_ok now p.scaling_adjustment p.adjustment_type g)

-- `handle_signal(details)`, `group` being what the policy's reference id names
unfoldable pub handle_signal :
    Bool
    → ℕ
    → Option (Option String × Option String)
    → Policy
    → Option Group
    → Handled × Policy × Option Group
unfolding alarm_state adjust_group cooldown_inprogress
handle_signal resize_ok now details p group =
    if alarm_state details == "alarm"
    then (if cooldown_inprogress now p.policy_cooldown p.policy_last_adjust
        then (ignored, p, group)
        else adjust_group resize_ok now p group)
    else (ignored, p, group)
