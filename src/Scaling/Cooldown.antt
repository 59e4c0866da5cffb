-- ===== src/Scaling/Cooldown.antt =====
-- `CooldownMixin` of autoscaling.py. The metadata of a resource is a dict with one timestamp for a
-- key, or empty; the clock is an argument.
use heat.Prelude.{
  ℕ, ◌+◌, Bool, false, not, Option, none, some, ltb, nat_beq, if◌then◌else◌, ℤ, pos_part,
}

-- `max(0, int(self.properties['Cooldown']))`; the property may be missing.
unfoldable pub cooldown_seconds : Option ℤ → ℕ
cooldown_seconds none = 0
cooldown_seconds (some c) = pos_part c

-- `_cooldown_inprogress()`, with `timeutils.is_older_than(last_adjust, cooldown)` written out
unfoldable pub cooldown_inprogress : ℕ → Option ℤ → Option ℕ → Bool
unfolding cooldown_seconds
cooldown_inprogress now cooldown none = false
cooldown_inprogress now cooldown (some last_adjust) =
    if nat_beq (cooldown_seconds cooldown) 0
    then false
    else not (ltb (last_adjust + cooldown_seconds cooldown) now)

-- The metadata that `_cooldown_timestamp(reason)` writes
abbrev pub cooldown_timestamp : ℕ → Option ℕ
cooldown_timestamp now = some now
