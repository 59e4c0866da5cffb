-- ===== src/Scheduler/Samples.antt =====
-- Small tasks and groups, what scheduler.py does with them, and the theorems at them.
use heat.Prelude.{
  List, ltb, ◌++◌, ℕ, zero, suc, ◌<◌, ◌-◌, true, false, ◌≡◌, refl, sym, ◌∙◌, [], ◌∷◌, Option, none,
  some, arith, nat_eq, ap, ◌==◌, if◌then◌else◌,
}
use heat.Dict.{lookup, put, delete, has_key}
use heat.Dependencies.Graph.{
  Graph, touch, add_satisfy, add_require, needs, feeds, reverse_copy, first_leaf, toposort_loop,
  toposort, delitem, remove_from_all, remove_from,
}
use heat.Dependencies.Deps.{iadd, iadd_all, dependencies, deps_graph, deps_iter}
use heat.Dependencies.Shape.{dependencies-WellFormed}
use heat.Dependencies.Edges.{says_needs, dependencies-edges}
use heat.Scheduler.Coroutine.{
  timed_out, Exn, task_error, assertion_error, Result, ok, raise, yields, stops, raises, Resumed,
  waiting, finished,
}
use heat.Scheduler.Runner.{
  Runner, Task, plain, generator, running, new_runner, cancel, throw_timeout, step, start,
  run_to_completion,
}
use heat.Scheduler.Group.{
  ended, Group, Status, paused, new_group_from, make_runners, set_runner, started_as, stepped_as,
  cancelled_as, each, handled, any_left, finish_group, begin_runner, begin, start_ready, advance,
  step_running, cancel_runner, cancel_recursively, escape, handle, loop_top, resume_group,
}
use heat.Scheduler.Polling.{
  new_runners, start_all, drop_finished, cancel_runners, escape_polling, poll_top, start_polling,
  resume_polling,
}
use heat.Scheduler.Wrapped.{
  Delegating, parent_closed, passed_on, behind, delegate, wrapped_first, wrapped_next, closed_child,
  wrapped_throw,
}
use heat.Scheduler.Delegation.{Progress, wrapped_next-Progress}
use heat.Scheduler.Completion.{run_to_completion_by_deadline}
use heat.Scheduler.Ordering.{started_in, done_in}
use heat.Scheduler.Requirements.{entered, resumed, Reached-requirements_done}
use heat.Scheduler.Revival.{FallsUp, cancel_recursively_revives}

countdown : ℕ → Resumed ℕ
countdown zero = stops
countdown (suc n) = yields n

-- A task that yields three times, counting down, and does not catch what is thrown into it.
abbrev counting : Task ℕ
counting = record {
  call = generator;
  body = record { first = yields 2; next = countdown; throw = λ s x. raises x };
}

-- A task that never ends by itself, and catches what is thrown into it.
abbrev stubborn : Task ℕ
stubborn = record {
  call = generator;
  body = record { first = yields 0; next = λ s. yields s; throw = λ s x. yields s };
}

abbrev at_two : Runner ℕ
at_two = record { handle = running (waiting 2); done = false; timeout = none }

abbrev late : Runner ℕ
late = record { handle = running (waiting 0); done = false; timeout = some 5 }

abbrev through : Runner ℕ
through = record { handle = running finished; done = true; timeout = none }

program : Unit {0}
unfolding lookup put delete touch add_satisfy add_require needs feeds reverse_copy first_leaf
    delitem toposort_loop toposort remove_from remove_from_all iadd iadd_all dependencies deps_graph
    deps_iter cancel throw_timeout step start run_to_completion make_runners new_group_from
    set_runner started_as stepped_as cancelled_as each handled any_left finish_group begin_runner
    begin start_ready advance step_running cancel_runner cancel_recursively escape handle loop_top
    resume_group countdown new_runners start_all drop_finished cancel_runners escape_polling
    poll_top start_polling resume_polling parent_closed passed_on behind delegate wrapped_first
    wrapped_next closed_child wrapped_throw
program = tt

start-counting : start 0 0 none counting new_runner ≡ (ok tt, at_two)
unfolding program
start-counting = refl

completion-counting : run_to_completion (0 ∷ 1 ∷ 2 ∷ []) counting at_two ≡ some (ok tt, through)
unfolding program
completion-counting = refl

start-twice : (start 0 0 none counting at_two).0 ≡ raise assertion_error
unfolding program
start-twice = refl

run_to_completion_by_deadline_example :
    (out : Result Unit × Runner ℕ) × (run_to_completion (3 ∷ 9 ∷ []) stubborn late ≡ some out)
run_to_completion_by_deadline_example =
    run_to_completion_by_deadline (3 ∷ 9 ∷ []) stubborn late refl

countdown_falls : (s s' : ℕ) → countdown s ≡ yields s' → s' < s
unfolding countdown
countdown_falls zero s' h = absurd (ground arith)
countdown_falls (suc n) s' h = ground arith

step-at_two : (step 0 counting at_two).0 ≡ ok false
unfolding program
step-at_two = refl

-- 2 requires 1.
abbrev chain : Graph ℕ
chain = dependencies ((2, some 1) ∷ [])

-- The task of 1 is a function that returns, the others are generators.
abbrev tasks : ℕ → Task ℕ
tasks k = record { call = if k == 1 then plain else generator; body = counting.body }

-- The group of `deps`, and the groups at its next yields.
abbrev empty_group : Group ℕ ℕ
empty_group = record { runners = []; graph = []; raised = []; last = none }

abbrev or_empty : Option (Group ℕ ℕ) → Group ℕ ℕ
or_empty none = empty_group
or_empty (some s) = s

abbrev group_of : Option (Group ℕ ℕ × Status) → Group ℕ ℕ
group_of none = empty_group
group_of (some (s, status)) = s

abbrev chained : Group ℕ ℕ
chained = or_empty (new_group_from (deps_iter chain) chain)

abbrev nth : ℕ → Group ℕ ℕ
nth zero = group_of (loop_top tasks 9 false 1 chained)
nth (suc n) = group_of (resume_group tasks 9 false 1 (nth n))

chained_lem : new_group_from (deps_iter chain) chain ≡ some chained
unfolding program
chained_lem = refl

entered_lem : loop_top tasks 9 false 1 chained ≡ some (nth 0, paused)
unfolding program
entered_lem = refl

resumed_lem : resume_group tasks 9 false 1 (nth 0) ≡ some (nth 1, paused)
unfolding program
resumed_lem = refl

started-nth : started_in (nth 1).runners 2 ≡ true
unfolding program
started-nth = refl

chain_lem : (has_key 2 chain ≡ true) × (needs chain 2 1 ≡ true)
unfolding program
chain_lem = (refl, refl)

Reached-requirements_done_example : done_in (nth 1).runners 1 ≡ true
Reached-requirements_done_example =
    Reached-requirements_done tasks 9 chain (deps_iter chain)
      (dependencies-WellFormed ((2, some 1) ∷ [])) chained_lem
      (resumed 1 (entered 1 entered_lem) resumed_lem) 2 1 chain_lem.0 started-nth chain_lem.1

-- The task of 1 has run when the group is at its first yield.
cancelled-chained : (cancel_recursively tasks 9 1 (nth 0)).1 ≡ none
unfolding program
cancelled-chained = refl

graph-nth : (nth 0).graph ≡ chain
unfolding program
graph-nth = refl

falls-chained : FallsUp (λ k. 3 - k) (nth 0).graph
falls-chained a b h =
    let fed : feeds chain a b ≡ true = sym (ap (λ g. feeds g a b) graph-nth) ∙ h in
    let said : says_needs ((2, some 1) ∷ []) b a ≡ true =
      sym ((dependencies-edges ((2, some 1) ∷ [])).0 b a)
      ∙ (dependencies-WellFormed ((2, some 1) ∷ [])).symmetric b a
      ∙ fed in
    ground (arith, said)

fed-chained : feeds (nth 0).graph 1 2 ≡ true
unfolding program
fed-chained = refl

cancel_recursively_revives_example :
    (has_key 2 (cancel_recursively tasks 9 1 (nth 0)).0.graph ≡ true)
    × ((x : ℕ) → needs (cancel_recursively tasks 9 1 (nth 0)).0.graph 2 x ≡ false)
cancel_recursively_revives_example =
    cancel_recursively_revives (λ k. 3 - k) tasks 9 1 (nth 0) falls-chained cancelled-chained 2
      fed-chained

abbrev failing : Task ℕ
failing = record {
  call = generator;
  body = record { first = yields 0; next = λ s. raises (task_error 1); throw = λ s x. raises x };
}

abbrev at_zero : Runner ℕ
at_zero = record { handle = running (waiting 0); done = false; timeout = none }

-- Behind a task that is not done no other is stepped.
resume-counting :
    resume_polling ((counting, at_zero) ∷ (counting, at_two) ∷ (failing, at_zero) ∷ [])
    ≡ ((counting, record at_two { handle = running (waiting 1) }) ∷ (failing, at_zero) ∷ [], paused)
unfolding program
resume-counting = refl

abbrev finishing : List (Task ℕ × Runner ℕ)
finishing = (counting, at_zero) ∷ (counting, at_zero) ∷ []

resume-finishing : (resume_polling finishing).1 ≡ ended
unfolding program
resume-finishing = refl

abbrev doomed : List (Task ℕ × Runner ℕ)
doomed = (counting, at_zero) ∷ (failing, at_zero) ∷ (counting, at_two) ∷ []

resume-doomed :
    ((drop_finished doomed).2 ≡ some (task_error 1))
    × ((cancel_runners ((drop_finished doomed).0 ++ (drop_finished doomed).1)).1 ≡ none)
unfolding program
resume-doomed = (refl, refl)

-- The parent yields three times, and each time but the last it waits for a subtask that yields twice.
abbrev wrapped : Delegating ℕ ℕ
wrapped = record {
  parent = counting.body;
  delegates = λ p. ltb 0 p;
  child = λ p. record { first = yields 1; next = countdown; throw = λ s x. raises x };
}

-- The subtask goes on; behind its end the parent goes on, to another subtask.
wrapped-steps :
    (wrapped_first wrapped 9 ≡ some (yields (2, some 1)))
    × (wrapped_next wrapped 9 (2, some 1) ≡ some (yields (2, some 0)))
    × (wrapped_next wrapped 9 (2, some 0) ≡ some (yields (1, some 1)))
    × (wrapped_next wrapped 9 (1, some 0) ≡ some (yields (0, none)))
    × (wrapped_next wrapped 9 (0, none) ≡ some stops)
    × (wrapped_throw wrapped 9 (2, some 1) timed_out ≡ some (raises timed_out))
unfolding program
wrapped-steps = (refl, refl, refl, refl, refl, refl)

abbrev unwrapped : Delegating ℕ ℕ
unwrapped = record { parent = counting.body; delegates = λ p. false; child = wrapped.child }

throw_falls_counting : (p q : ℕ) (x : Exn) → counting.body.throw p x ≡ yields q → q < p
throw_falls_counting p q x h = absurd cc

wrapped_next-Progress_example :
    Progress wrapped (λ p. p) 2 (some 0) (wrapped_next wrapped 3 (2, some 0))
wrapped_next-Progress_example =
    wrapped_next-Progress wrapped (λ p. p)
      (record { next_falls = countdown_falls; throw_falls = throw_falls_counting }) 3 2 (some 0)
      (omega arith)
