-- ===== src/WatchRule/Tests.antt =====
-- A watch of whole numbers, and the theorems about rules at it.
use heat.Prelude.{true, false, ◌≡◌, ◌⊎◌, refl, List, [], ◌∷◌, none, some, nat_eq, ◌==◌, string_eq}
use heat.WatchRule.Numbers.{whole_numbers}
use heat.WatchRule.Statistics.{
  alarm, normal, suspended, greater_than_threshold, maximum, Datum, do_data_cmp, max_loop, min_loop,
  count_loop, sum_loop, do_maximum, do_minimum, do_sample_count, do_average, do_sum,
  get_alarm_state,
}
use heat.WatchRule.Rule.{
  ok, same_state, StackView, Watch, actions_for, signals, rule_actions, finish_run, run_rule,
  evaluate, set_watch_state,
}
use heat.WatchRule.Evaluation.{Ran, evaluate_effect}

program : Unit {0}
unfolding do_data_cmp max_loop min_loop count_loop sum_loop do_maximum do_minimum do_sample_count
    do_average do_sum get_alarm_state same_state actions_for signals rule_actions finish_run
    run_rule evaluate set_watch_state
program = tt

abbrev data_ : List (Datum whole_numbers)
data_ =
    record { created_at = 10; value = 90 }
    ∷ record { created_at = 95; value = 40 }
    ∷ record { created_at = 99; value = 60 }
    ∷ []

abbrev watch : Watch whole_numbers
watch = record {
  state = normal;
  period = 60;
  statistic = maximum;
  operator = greater_than_threshold;
  threshold = 50;
  alarm_actions = some ("policy" ∷ []);
  ok_actions = none;
  insufficient_data_actions = none;
  watch_data = data_;
  last_evaluated = 20;
  stored = none;
}

abbrev complete_stack : StackView
complete_stack = record { deleting = false; complete = true; has_refid = λ r. r == "policy" }

evaluate-watch : evaluate whole_numbers complete_stack 100 watch ≡ (
  ok ("policy" ∷ []),
  record watch { state = alarm; last_evaluated = 100; stored = some alarm },
)
unfolding program
evaluate-watch = refl

evaluate-early : evaluate whole_numbers complete_stack 79 watch ≡ (ok [], watch)
unfolding program
evaluate-early = refl

evaluate_effect_example :
    ((evaluate whole_numbers complete_stack 100 watch).1 ≡ watch)
    ⊎ Ran whole_numbers 100 watch (evaluate whole_numbers complete_stack 100 watch).1
evaluate_effect_example = evaluate_effect whole_numbers complete_stack 100 watch

actions-watch : rule_actions whole_numbers complete_stack watch alarm ≡ ok ("policy" ∷ [])
unfolding program
actions-watch = refl

differs-watch : same_state suspended watch.state ≡ false
unfolding program
differs-watch = refl
