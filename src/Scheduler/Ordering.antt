-- ===== src/Scheduler/Ordering.antt =====
-- The invariant of DependencyTaskGroup: no runner is started before the runners of everything that
-- its key requires are done. It holds up to the first exception of a task.
use heat.Prelude.{
  Bool, true, false, ◌&&◌, ◌≡◌, refl, Option, none, some, [], ◌∷◌, Eq, arith, if_ind, All,
  Option-cases, inl, inr,
}
use heat.Dict.{Dict, IsItemOf, lookup, put, has_key, lookup-put}
use heat.Dependencies.Node.{Node, nonzero}
use heat.Dependencies.Graph.{Graph, needs, delitem}
use heat.Dependencies.Shape.{WellFormed}
use heat.Dependencies.Leaves.{
  not-member_of_empty, delitem-WellFormed, needs-delitem_leaf, has_key-delitem_leaf,
}
use heat.Scheduler.Coroutine.{Exn, Result, ok, raise}
use heat.Scheduler.Runner.{Runner, Task, started, step}
use heat.Scheduler.Stepping.{step_tells}
use heat.Scheduler.Group.{
  Group, started_as, begin_runner, stepped_as, begin, start_ready, advance, step_running,
}

-- The node of a dict that requires nothing makes a leaf of its key.
node_leaf :
    {K : Type 0} ⦃e : Eq K⦄ (h : Graph K) (k : K) (n : Node K)
    → lookup k h ≡ some n
    → nonzero n ≡ false
    → (b : K) → needs h k b ≡ false
unfolding needs
node_leaf h k n found leaf b = ground (arith, not-member_of_empty b n.require)

module _ {K S : Type 0} ⦃e : Eq K⦄ where
  -- Whether the runner of `k` has been started, and whether it is done.
  abbrev pub started_in : Dict K (Runner S) → K → Bool
  started_in rs k = elim (lookup k rs) [ none ↦ false | some r ↦ started r ]

  abbrev pub done_in : Dict K (Runner S) → K → Bool
  done_in rs k = elim (lookup k rs) [ none ↦ false | some r ↦ r.done ]

  -- `g` being the graph that the group was given: its graph `h` is the part of `g` that is not done,
  -- and what has been started requires nothing that is left.
  pub record IsOrderly (g h : Graph K) (rs : Dict K (Runner S)) : Type 0 where
    pub wf : WellFormed h
    pub kept : (a b : K) → needs h a b ≡ (has_key a h && needs g a b && has_key b h)
    pub gone : (k : K) → has_key k g ≡ true → has_key k h ≡ false → done_in rs k ≡ true
    pub below :
        (k b : K)
        → has_key k g ≡ true
        → has_key k h ≡ false
        → needs g k b ≡ true
        → has_key b h ≡ false
    pub idle : (k : K) → started_in rs k ≡ true → (b : K) → needs h k b ≡ false

  module _ {g h : Graph K} {rs : Dict K (Runner S)} (o : IsOrderly g h rs) (k : K) (r : Runner S)
      (inside : has_key k h ≡ true) (leaf : (b : K) → needs h k b ≡ false) where
    put-IsOrderly : IsOrderly g h (put k r rs)
    put-IsOrderly = record {
      wf = o.wf;
      kept = o.kept;
      gone = λ j p q. ground (arith, lookup-put k j r rs, o.gone j p q, e.beq_iff k j);
      below = o.below;
      idle = λ j p b. ground (
        arith,
        lookup-put k j r rs,
        leaf b,
        e.beq_iff k j,
        λ (q : started_in rs j ≡ true). o.idle j q b,
      );
    }

    drop-IsOrderly : r.done ≡ true → IsOrderly g (delitem k h) (put k r rs)
    drop-IsOrderly is_done = record {
      wf = delitem-WellFormed h k o.wf leaf;
      kept = λ a b. ground (
        arith,
        needs-delitem_leaf h k o.wf leaf a b,
        has_key-delitem_leaf h k o.wf a,
        has_key-delitem_leaf h k o.wf b,
        o.kept a b,
        leaf b,
        e.beq_iff k a,
      );
      gone =
          λ j p q. ground (arith, lookup-put k j r rs, has_key-delitem_leaf h k o.wf j, o.gone j p);
      below = λ j b p q n. ground (
        arith,
        has_key-delitem_leaf h k o.wf j,
        has_key-delitem_leaf h k o.wf b,
        o.below j b p,
        o.kept k b,
        leaf b,
        e.beq_iff k j,
      );
      idle = λ j p b. ground (
        arith,
        lookup-put k j r rs,
        needs-delitem_leaf h k o.wf leaf j b,
        leaf b,
        e.beq_iff k j,
        λ (q : started_in rs j ≡ true). o.idle j q b,
      );
    }

  abbrev pub Orderly : Graph K → Group K S → Type 0
  Orderly g s = IsOrderly g s.graph s.runners

  abbrev LeavesOrderly : Graph K → Group K S × Option Exn → Type 0
  LeavesOrderly g (s, x) = Orderly g s

  graph-begin :
      (task : K → Task S) (k : K) (n : Node K) (s : Group K S)
      → (begin task k n s).0.graph ≡ s.graph
  unfolding begin
  graph-begin task k n s = ground arith

  module _ {g : Graph K} (task : K → Task S) where
    started_as-Orderly :
        (k : K) (r : Result Unit × Runner S) (s : Group K S)
        → Orderly g s
        → has_key k s.graph ≡ true
        → ((b : K) → needs s.graph k b ≡ false)
        → Orderly g (started_as k r s).0
    unfolding started_as
    started_as-Orderly k (ok u, r) s o inside leaf = put-IsOrderly o k r inside leaf
    started_as-Orderly k (raise x, r) s o inside leaf = put-IsOrderly o k r inside leaf

    begin_runner-Orderly :
        (k : K) (r : Option (Runner S)) (s : Group K S)
        → Orderly g s
        → has_key k s.graph ≡ true
        → ((b : K) → needs s.graph k b ≡ false)
        → Orderly g (begin_runner task k r s).0
    unfolding begin_runner
    begin_runner-Orderly k none s o inside leaf = o
    begin_runner-Orderly k (some r) s o inside leaf =
        if_ind (LeavesOrderly g) (started r) (λ _. o)
          (λ _. started_as-Orderly k _ (record s { last = some k }) o inside leaf)

    begin-Orderly :
        (k : K) (n : Node K) (s : Group K S)
        → Orderly g s
        → lookup k s.graph ≡ some n
        → Orderly g (begin task k n s).0
    unfolding begin
    begin-Orderly k n s o found =
        if_ind (LeavesOrderly g) (nonzero n) (λ _. o)
          (λ leaf.
            begin_runner-Orderly k (lookup k s.runners) s o (ground arith)
              (node_leaf s.graph k n found leaf))

    stepped_as-Orderly :
        (k : K) (r : Result Bool × Runner S) (s : Group K S)
        → (r.0 ≡ ok true → r.1.done ≡ true)
        → Orderly g s
        → has_key k s.graph ≡ true
        → ((b : K) → needs s.graph k b ≡ false)
        → Orderly g (stepped_as k r s).0
    unfolding stepped_as
    stepped_as-Orderly k (ok true, r) s d o inside leaf = drop-IsOrderly o k r inside leaf (d refl)
    stepped_as-Orderly k (ok false, r) s d o inside leaf = put-IsOrderly o k r inside leaf
    stepped_as-Orderly k (raise x, r) s d o inside leaf = put-IsOrderly o k r inside leaf

    advance-Orderly : (k : K) (s : Group K S) → Orderly g s → Orderly g (advance task k s).0
    unfolding advance
    advance-Orderly k s o = elim (Option-cases (lookup k s.runners)) [
      | inl missing ↦ rw (missing, advance) o
      | inr (r, found) ↦
          rw (found, advance)
            (if_ind (LeavesOrderly g) (has_key k s.graph && started r)
              (λ both.
                stepped_as-Orderly k (step 0 (task k) r) (record s { last = some k })
                  (step_tells 0 (task k) r true) o (ground arith) (λ b. o.idle k (ground arith) b))
              (λ _. o))
    ]

    pub start_ready-Orderly :
        (items : Graph K) (s : Group K S)
        → All (IsItemOf s.graph) items
        → Orderly g s
        → Orderly g (start_ready task items s).0
    unfolding start_ready
    start_ready-Orderly [] s all o = o
    start_ready-Orderly ((k, n) ∷ items) s all o =
        let first = begin task k n s in
        let o' : Orderly g first.0 = begin-Orderly k n s o all.0 in
        elim (Option-cases first.1) [
          | inl fine ↦
              rw (fine, start_ready) (start_ready-Orderly items first.0 (rw graph-begin all.1) o')
          | inr (x, fault) ↦ rw (fault, start_ready) o'
        ]

    pub step_running-Orderly :
        (items : Dict K (Runner S)) (s : Group K S)
        → Orderly g s
        → Orderly g (step_running task items s).0
    unfolding step_running
    step_running-Orderly [] s o = o
    step_running-Orderly ((k, r) ∷ items) s o =
        let first = advance task k s in
        let o' : Orderly g first.0 = advance-Orderly k s o in
        elim (Option-cases first.1) [
          | inl fine ↦ rw (fine, step_running) (step_running-Orderly items first.0 o')
          | inr (x, fault) ↦ rw (fault, step_running) o'
        ]
