-- ===== src/Scaling/Samples.antt =====
-- Groups of instances, and the theorems about scaling at them.
use heat.Prelude.{
  ℕ, ◌<◌, ◌+◌, ◌≤◌, true, false, ◌≡◌, refl, List, [], ◌∷◌, none, some, arith, nat_eq, pos, ◌≤ℤ◌,
  int_beq, string_eq,
}
use heat.Scaling.Cooldown.{cooldown_seconds, cooldown_inprogress}
use heat.Scaling.Adjust.{
  change_in_capacity, exact_capacity, resize_to, Group, returned, adjust, carry_out,
  decide_capacity, hold_lower, wanted, rounded, rounded_size,
}
use heat.Scaling.Replace.{
  Replaced, rounds, Round, next_size, replace_loop, first_size, replace_from, replace,
}
use heat.Scaling.Template.{drop, newest, keep_old, create_new, resource_templates}
use heat.Scaling.Limits.{decide_capacity_within, adjust_cools_down}
use heat.Scaling.Rolling.{Rolled, replace_rolls}

program : Unit {0}
unfolding cooldown_seconds cooldown_inprogress adjust carry_out decide_capacity hold_lower wanted
    rounded rounded_size next_size replace_loop first_size replace_from replace drop newest keep_old
    create_new resource_templates
program = tt

abbrev group : Group
group = record {
  capacity = 3;
  min_size = pos 1;
  max_size = pos 5;
  cooldown = some (pos 60);
  last_adjust = none;
}

decide-group : decide_capacity (pos 3) (pos 1) (pos 5) (pos 9) ≡ resize_to (pos 5)
unfolding program
decide-group = refl

adjust-group :
    (adjust true 100 (pos 9) change_in_capacity group).1 ≡ returned (some (resize_to (pos 5)))
unfolding program
adjust-group = refl

cooldown-group : 0 < cooldown_seconds group.cooldown
unfolding program
cooldown-group = omega arith

soon-group : 150 ≤ 100 + cooldown_seconds group.cooldown
unfolding program
soon-group = omega arith

decide_capacity_within_example :
    (pos 1 ≤ℤ pos 5) × (pos 5 ≤ℤ pos 5) × (int_beq (pos 5) (pos 3) ≡ false)
decide_capacity_within_example =
    decide_capacity_within (pos 3) (pos 1) (pos 5) (pos 9) (pos 5) (ground arith) decide-group

adjust_cools_down_example :
    adjust true 150 (pos 1) exact_capacity (adjust true 100 (pos 9) change_in_capacity group).2
    ≡ ([], returned none, (adjust true 100 (pos 9) change_in_capacity group).2)
adjust_cools_down_example =
    adjust_cools_down 100 150 (pos 9) (pos 1) change_in_capacity exact_capacity group true (pos 5)
      adjust-group cooldown-group soon-group

-- A rolling update of three instances, two at a time with two in service: one round grows the group
-- to four, and the last ones bring it back to three.
sizes : List Round → List ℕ
sizes [] = []
sizes (r ∷ rs) = r.size ∷ sizes rs

replaced_sizes : Replaced → List ℕ
unfolding sizes
replaced_sizes (rounds (some rs)) = sizes rs
replaced_sizes _ = []

replace-three : replaced_sizes (replace 3600 3 2 2 60) ≡ 4 ∷ 3 ∷ []
unfolding program replaced_sizes
replace-three = refl

replace_rolls_example :
    (rs : List Round) × (replace 3600 3 2 2 60 ≡ rounds (some rs))
    × Rolled 3 2 2 0 (first_size 3 2 2) rs
replace_rolls_example = replace_rolls 3600 3 2 2 60 (omega arith) (omega arith) (omega arith)

abbrev olds : List (ℕ × ℕ)
olds = (10, 1) ∷ (11, 1) ∷ (12, 2) ∷ []

-- Definition 2 replaces definition 1 in one instance of three.
templates-olds : resource_templates 2 (λ n. 20 + n) olds 3 1 ≡ (10, 2) ∷ (11, 1) ∷ (12, 2) ∷ []
unfolding program
templates-olds = refl
