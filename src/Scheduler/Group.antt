-- ===== src/Scheduler/Group.antt =====
-- `DependencyTaskGroup` of scheduler.py, as a generator: `resume` runs from one `yield` to the next.
-- A method returns the group that it leaves and the exception that it lets out, if any.
use heat.Prelude.{
  ℕ, zero, suc, Bool, true, false, not, ◌&&◌, ◌||◌, Option, none, some, List, [], ◌∷◌, ◌++◌, map,
  Eq, if◌then◌else◌,
}
use heat.Dict.{Dict, lookup, put, has_key}
use heat.Dependencies.Node.{Node, nonzero}
use heat.Dependencies.Graph.{Graph, node_at, touch, delitem}
use heat.Scheduler.Coroutine.{
  Exn, key_error, runtime_error, exception_group, is_exception, Result, ok, raise,
}
use heat.Scheduler.Runner.{Runner, Task, new_runner, started, cancel, step, start}

pub record Group (K S : Type 0) : Type 0 where
  -- `self._runners`
  pub runners : Dict K (Runner S)
  -- `self._graph`
  pub graph : Graph K
  -- `raised_exceptions`
  pub raised : List Exn
  -- the local variable `k`, which the exception handler uses, if it is bound yet
  pub last : Option K

-- Where the generator stands: at its `yield`, at its end, or left by an exception.
pub data Status : Type 0 where
  paused ended : Status
  failed : Exn → Status

module _ {K S : Type 0} ⦃e : Eq K⦄ where
  unfoldable pub make_runners : List K → Dict K (Runner S)
  make_runners [] = []
  make_runners (o ∷ os) = (o, new_runner) ∷ make_runners os

  -- `DependencyTaskGroup(dependencies, task)`, given the iteration of the dependencies and a copy of
  -- their graph. `none`: the iteration raised a CircularDependencyException.
  unfoldable pub new_group_from : List K × Option (Graph K) → Graph K → Option (Group K S)
  unfolding make_runners
  new_group_from (os, some left) g = none
  new_group_from (os, none) g =
      some (record { runners = make_runners os; graph = g; raised = []; last = none })

  unfoldable pub set_runner : K → Runner S → Group K S → Group K S
  set_runner k r s = record s { runners = put k r s.runners }

  unfoldable pub started_as : K → Result Unit × Runner S → Group K S → Group K S × Option Exn
  unfolding set_runner
  started_as k (ok u, r) s = (set_runner k r s, none)
  started_as k (raise x, r) s = (set_runner k r s, some x)

  unfoldable pub stepped_as : K → Result Bool × Runner S → Group K S → Group K S × Option Exn
  unfolding set_runner
  stepped_as k (ok true, r) s = (record (set_runner k r s) { graph = delitem k s.graph }, none)
  stepped_as k (ok false, r) s = (set_runner k r s, none)
  stepped_as k (raise x, r) s = (set_runner k r s, some x)

  unfoldable pub cancelled_as : K → Result Unit × Runner S → Group K S → Group K S × Option Exn
  unfolding set_runner
  cancelled_as k (ok u, r) s = (set_runner k r s, none)
  cancelled_as k (raise x, r) s = (set_runner k r s, some x)

  -- Runs the second action in the group that the first one leaves, unless that raised.
  infixl 20 ◌then_do◌
  abbrev pub ◌then_do◌ :
      Group K S × Option Exn → (Group K S → Group K S × Option Exn) → Group K S × Option Exn
  r then_do f = let next = f r.0 in elim r.1 [ none ↦ next | some x ↦ (r.0, some x) ]

  -- The loop of `_cancel_recursively` over the nodes that require `key`.
  unfoldable pub each :
      (K → Group K S → Group K S × Option Exn) → List K → Group K S → Group K S × Option Exn
  each act [] s = (s, none)
  each act (k ∷ ks) s = act k s then_do each act ks

  abbrev pub drop_node : K → Group K S → Group K S × Option Exn
  drop_node key s = (record s { graph = delitem key s.graph }, none)

  -- What follows `_cancel_recursively(k, r)` in the handler: `none` lets the loop go on.
  unfoldable pub handled : Bool → Exn → Group K S × Option Exn → Group K S × Option Exn
  handled aggregate x (s, some y) = (s, some y)
  handled true x (s, none) = (record s { raised = s.raised ++ x ∷ [] }, none)
  handled false x (s, none) = (s, some x)

  -- `any(self._runners.itervalues())`: some runner is not done.
  unfoldable pub any_left : Dict K (Runner S) → Bool
  any_left [] = false
  any_left ((k, r) ∷ rs) = not r.done || any_left rs

  unfoldable pub finish_group : Group K S → Group K S × Status
  finish_group s = elim s.raised [ [] ↦ (s, ended) | x ∷ xs ↦ (s, failed exception_group) ]

module _ {K S : Type 0} ⦃e : Eq K⦄ (task : K → Task S) where
  -- `self._runners[k]` of a key that is missing is a KeyError.
  unfoldable pub begin_runner : K → Option (Runner S) → Group K S → Group K S × Option Exn
  unfolding started_as
  begin_runner k none s = (s, some key_error)
  begin_runner k (some r) s =
      if started r
      then (s, none)
      else started_as k (start 0 0 none (task k) r) (record s { last = some k })

  -- A round of `for k, r in self._ready(): r.start()`.
  unfoldable pub begin : K → Node K → Group K S → Group K S × Option Exn
  unfolding begin_runner
  begin k n s = if nonzero n then (s, none) else begin_runner k (lookup k s.runners) s

  unfoldable pub start_ready : Graph K → Group K S → Group K S × Option Exn
  start_ready [] s = (s, none)
  start_ready ((k, n) ∷ items) s =
      let r = begin k n s in
      let rest = start_ready items r.0 in elim r.1 [ none ↦ rest | some x ↦ (r.0, some x) ]

  -- A round of `for k, r in self._running(): …`, `r` being the runner of `k`.
  unfoldable pub advance : K → Group K S → Group K S × Option Exn
  unfolding stepped_as
  advance k s = elim (lookup k s.runners) [
    | none ↦ (s, none)
    | some r ↦
        if has_key k s.graph && started r
        then stepped_as k (step 0 (task k) r) (record s { last = some k })
        else (s, none)
  ]

  unfoldable pub step_running : Dict K (Runner S) → Group K S → Group K S × Option Exn
  step_running [] s = (s, none)
  step_running ((k, r) ∷ items) s =
      let a = advance k s in
      let rest = step_running items a.0 in elim a.1 [ none ↦ rest | some x ↦ (a.0, some x) ]

  -- `self._runners[k].cancel()`
  unfoldable pub cancel_runner : K → Group K S → Group K S × Option Exn
  unfolding cancelled_as
  cancel_runner k s = elim (lookup k s.runners) [
    | none ↦ (s, some key_error)
    | some r ↦ cancelled_as k (cancel (task k) r) s
  ]

  -- `_cancel_recursively(key, runner)`, with the depth that Python's stack allows: beyond it a
  -- RuntimeError is raised.
  unfoldable pub cancel_recursively : ℕ → K → Group K S → Group K S × Option Exn
  cancel_recursively zero key s = (s, some runtime_error)
  cancel_recursively (suc depth) key s = cancel_runner key s then_do (λ s1.
      each (λ k t. cancel_recursively depth k t) (node_at key s1.graph).satisfy
        (record s1 { graph = touch key s1.graph })
      then_do drop_node key)

  -- `for r in self._runners.itervalues(): r.cancel()`
  abbrev pub cancel_all : Group K S → Group K S × Option Exn
  cancel_all s = each cancel_runner (map (λ kr. kr.0) s.runners) s

  -- The outer `except:` clause: the exception goes on, unless a `cancel` raises another.
  unfoldable pub escape : Exn → Group K S → Group K S × Status
  unfolding each cancel_runner
  escape x s = let c = cancel_all s in (c.0, elim c.1 [ none ↦ failed x | some y ↦ failed y ])

  -- The handler `except Exception as e`. While `k` is not bound its use raises UnboundLocalError, a
  -- NameError, which stands here with the other errors of the run time.
  unfoldable pub handle : ℕ → Bool → Exn → Group K S → Group K S × Option Exn
  unfolding handled
  handle depth aggregate x s =
      if is_exception x
      then elim s.last [
        | none ↦ (s, some runtime_error)
        | some k ↦ handled aggregate x (cancel_recursively depth k s)
      ]
      else (s, some x)

  module _ (depth : ℕ) (aggregate : Bool) where
    -- The `while` loop from its test to the `yield`. It comes back to the test only behind an
    -- exception that is aggregated: `rounds` bounds how often, and `none` is that bound passed.
    unfoldable pub loop_top : ℕ → Group K S → Option (Group K S × Status)
    unfolding finish_group
    loop_top zero s = none
    loop_top (suc rounds) s =
        let r = start_ready s.graph s in
        if any_left s.runners
        then elim r.1 [
          | none ↦ some (r.0, paused)
          | some x ↦
              let h = handle depth aggregate x r.0 in
              let again = loop_top rounds h.0 in
              elim h.1 [ none ↦ again | some y ↦ some (escape y h.0) ]
        ]
        else some (finish_group s)

    -- The group from its `yield` to the next: the second half of the loop's body.
    unfoldable pub resume_group : ℕ → Group K S → Option (Group K S × Status)
    resume_group rounds s =
        let r = step_running s.runners s in
        elim r.1 [
          | none ↦ loop_top rounds r.0
          | some x ↦
              let h = handle depth aggregate x r.0 in
              elim h.1 [ none ↦ loop_top rounds h.0 | some y ↦ some (escape y h.0) ]
        ]
