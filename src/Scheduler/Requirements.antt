-- ===== src/Scheduler/Requirements.antt =====
-- A DependencyTaskGroup starts a runner only when the runners of all that its key requires are done,
-- and comes to its end only when all runners are done.
use heat.Prelude.{
  ℕ, zero, suc, true, false, ◌≡◌, ◌≢◌, refl, Option, none, some, List, [], ◌∷◌, Eq, arith,
  Option-cases, inl, inr, subst, if_ind,
}
use mathlib.Core.Option.{some_inj}
use heat.Dict.{lookup, has_key, IsDict-items}
use heat.Dependencies.Graph.{Graph, needs}
use heat.Dependencies.Shape.{WellFormed, has_key_of_needs, has_key_of_required}
use heat.Scheduler.Coroutine.{Exn}
use heat.Scheduler.Runner.{Task}
use heat.Scheduler.Group.{
  Group, Status, paused, new_group_from, make_runners, start_ready, step_running, handle, handled,
  escape, any_left, finish_group, loop_top, resume_group, cancel_recursively,
}
use heat.Scheduler.Ordering.{
  started_in, done_in, Orderly, start_ready-Orderly, step_running-Orderly,
}

module _ {K S : Type 0} ⦃e : Eq K⦄ (task : K → Task S) (depth : ℕ) where
  handled_escapes : (x : Exn) (c : Group K S × Option Exn) → (handled false x c).1 ≢ none
  unfolding handled
  handled_escapes x (s, none) h = cc
  handled_escapes x (s, some y) h = cc

  -- Without `aggregate_exceptions` the handler lets every exception out.
  handle_escapes : (x : Exn) (s : Group K S) → (handle task depth false x s).1 ≢ none
  unfolding handle
  handle_escapes x s =
      ground (arith, λ (k : K). handled_escapes x (cancel_recursively task depth k s))

  abbrev PausedOrderly : Graph K → Option (Group K S × Status) → Type 0
  PausedOrderly g (some (s, paused)) = Orderly g s
  PausedOrderly g _ = Unit

  finish_group-Orderly : (g : Graph K) (s : Group K S) → PausedOrderly g (some (finish_group s))
  unfolding finish_group
  finish_group-Orderly g s = ground arith

  escape-Orderly :
      (g : Graph K) (x : Exn) (s : Group K S) → PausedOrderly g (some (escape task x s))
  unfolding escape
  escape-Orderly g x s = ground arith

  loop_top-Orderly :
      {g : Graph K} (rounds : ℕ) (s : Group K S)
      → Orderly g s
      → PausedOrderly g (loop_top task depth false rounds s)
  unfolding loop_top
  loop_top-Orderly zero s o = tt
  loop_top-Orderly {g} (suc rounds) s o =
      let r = start_ready task s.graph s in
      let o' : Orderly g r.0 =
        start_ready-Orderly task s.graph s (IsDict-items s.graph o.wf.distinct) o in
      elim (Option-cases r.1) [
        | inl fine ↦
            rw (fine, loop_top)
              (if_ind (PausedOrderly g) (any_left s.runners) (λ _. o')
                (λ _. finish_group-Orderly g s))
        | inr (x, fault) ↦ elim (Option-cases (handle task depth false x r.0).1) [
          | inl kept ↦ absurd (handle_escapes x r.0 kept)
          | inr (y, out) ↦
              rw (fault, loop_top)
                (if_ind (PausedOrderly g) (any_left s.runners)
                  (λ _. rw (out, loop_top) (escape-Orderly g y (handle task depth false x r.0).0))
                  (λ _. finish_group-Orderly g s))
        ]
      ]

  resume_group-Orderly :
      {g : Graph K} (rounds : ℕ) (s : Group K S)
      → Orderly g s
      → PausedOrderly g (resume_group task depth false rounds s)
  unfolding resume_group
  resume_group-Orderly {g} rounds s o =
      let r = step_running task s.runners s in
      let o' : Orderly g r.0 = step_running-Orderly task s.runners s o in
      elim (Option-cases r.1) [
        | inl fine ↦ rw (fine, resume_group) (loop_top-Orderly rounds r.0 o')
        | inr (x, fault) ↦ elim (Option-cases (handle task depth false x r.0).1) [
          | inl kept ↦ absurd (handle_escapes x r.0 kept)
          | inr (y, out) ↦
              rw (fault, resume_group)
                (rw (out, resume_group) (escape-Orderly g y (handle task depth false x r.0).0))
        ]
      ]

  -- The groups at a `yield` that come of `start`, one resumption after another.
  pub data Reached (start : Group K S) : Group K S → Type 0 where
    entered :
        (rounds : ℕ) {s : Group K S}
        → loop_top task depth false rounds start ≡ some (s, paused)
        → Reached start s
    resumed :
        (rounds : ℕ) {s s' : Group K S}
        → Reached start s
        → resume_group task depth false rounds s ≡ some (s', paused)
        → Reached start s'

  Reached-Orderly :
      {g : Graph K} {start s : Group K S} → Orderly g start → Reached start s → Orderly g s
  Reached-Orderly {g} {start} o (entered rounds h) =
      subst (PausedOrderly g) h (loop_top-Orderly rounds start o)
  Reached-Orderly {g} o (resumed rounds {s} r h) =
      subst (PausedOrderly g) h (resume_group-Orderly rounds s (Reached-Orderly o r))

  started_in-make_runners : (os : List K) (k : K) → started_in {S = S} (make_runners os) k ≡ false
  unfolding make_runners lookup
  started_in-make_runners [] k = refl
  started_in-make_runners (o ∷ os) k = ground (arith, started_in-make_runners os k)

  new_group-Orderly :
      (g : Graph K) (it : List K × Option (Graph K)) {s : Group K S}
      → WellFormed g
      → new_group_from it g ≡ some s
      → Orderly g s
  unfolding new_group_from
  new_group-Orderly g (os, some left) w h = absurd (ground arith)
  new_group-Orderly g (os, none) w h = subst (Orderly g) (some_inj.0 h) (record {
    wf = w;
    kept = λ a b. ground (arith, has_key_of_needs g a b, has_key_of_required w a b);
    gone = λ k p q. absurd (ground arith);
    below = λ k b p q n. absurd (ground arith);
    idle = λ k p b. absurd (ground (arith, started_in-make_runners os k));
  })

  -- At every `yield` of a DependencyTaskGroup without `aggregate_exceptions`, whatever the tasks do:
  -- a runner that has been started is behind runners that are done, those of everything that its key
  -- requires in the graph that the group was given.
  pub Reached-requirements_done :
      (g : Graph K) (it : List K × Option (Graph K)) {start s : Group K S}
      → WellFormed g
      → new_group_from it g ≡ some start
      → Reached start s
      → (k b : K) → has_key k g ≡ true
      → started_in s.runners k ≡ true
      → needs g k b ≡ true
      → done_in s.runners b ≡ true
  Reached-requirements_done g it w h r k b inside begun n =
      let o = Reached-Orderly (new_group-Orderly g it w h) r in
      o.gone b (has_key_of_required w k b n)
        (ground (arith, o.idle k begun b, o.kept k b, o.below k b inside))
