-- ===== src/Scheduler/Revival.antt =====
-- `_cancel_recursively` with `aggregate_exceptions`: the keys that it cancels come back into the
-- graph, since `del graph[key]` reads the nodes of the dependents, which were deleted before, from a
-- defaultdict.
use heat.Prelude.{
  ℕ, zero, suc, ◌<◌, ◌≤◌, true, false, ◌≡◌, refl, sym, ◌∙◌, Option, none, some, List, [], ◌∷◌, Eq,
  ◌==◌, beq_refl, arith, Bool-cases, inl, inr, ap, member, subst, beq→eq,
}
use native.Mathlib.Nat.{le_refl}
use heat.Dict.{has_key}
use heat.Dependencies.Graph.{Graph, node_at, touch, needs, feeds, delitem}
use heat.Dependencies.Deletion.{
  needs-touch, feeds-touch, needs-delitem, feeds-delitem, has_key-delitem,
}
use heat.Scheduler.Coroutine.{Exn}
use heat.Scheduler.Runner.{Task}
use heat.Scheduler.Group.{Group, ◌then_do◌, drop_node, cancel_runner, each, cancel_recursively}

module _ {K : Type 0} ⦃e : Eq K⦄ (rank : K → ℕ) where
  -- `g'` has only edges of `g`, and of the keys with a rank from `n` up the same dependents.
  record Shrinks (n : ℕ) (g g' : Graph K) : Type 0 where
    needs_le : (a b : K) → needs g' a b ≡ true → needs g a b ≡ true
    feeds_le : (a b : K) → feeds g' a b ≡ true → feeds g a b ≡ true
    above : (a b : K) → n ≤ rank a → feeds g' a b ≡ feeds g a b

  -- `rank` falls from each key to the keys that require it.
  abbrev pub FallsUp : Graph K → Type 0
  FallsUp g = (a b : K) → feeds g a b ≡ true → rank b < rank a

  Shrinks-refl : (n : ℕ) (g : Graph K) → Shrinks n g g
  Shrinks-refl n g = record { needs_le = λ a b h. h; feeds_le = λ a b h. h; above = λ a b h. refl }

  Shrinks-trans : {n : ℕ} {g g' g'' : Graph K} → Shrinks n g g' → Shrinks n g' g'' → Shrinks n g g''
  Shrinks-trans s t = record {
    needs_le = λ a b h. s.needs_le a b (t.needs_le a b h);
    feeds_le = λ a b h. s.feeds_le a b (t.feeds_le a b h);
    above = λ a b h. t.above a b h ∙ s.above a b h;
  }

  Shrinks-weaken : {n m : ℕ} {g g' : Graph K} → n ≤ m → Shrinks n g g' → Shrinks m g g'
  Shrinks-weaken le s = record {
    needs_le = s.needs_le;
    feeds_le = s.feeds_le;
    above = λ a b h. s.above a b (omega arith);
  }

  Shrinks-touch : (n : ℕ) (k : K) (g : Graph K) → Shrinks n g (touch k g)
  Shrinks-touch n k g = record {
    needs_le = λ a b h. sym (needs-touch k g a b) ∙ h;
    feeds_le = λ a b h. sym (feeds-touch k g a b) ∙ h;
    above = λ a b h. feeds-touch k g a b;
  }

  Shrinks-delitem : {n : ℕ} (k : K) (g : Graph K) → rank k < n → Shrinks n g (delitem k g)
  Shrinks-delitem k g h = record {
    needs_le = λ a b p. ground (arith, needs-delitem k g a b);
    feeds_le = λ a b p. ground (arith, feeds-delitem k g a b);
    above = λ a b p. elim (Bool-cases (k == a)) [
      | inl same ↦ absurd (omega (arith, ap rank (beq→eq k a same)))
      | inr other ↦ ground (arith, feeds-delitem k g a b)
    ];
  }

  FallsUp-ne : (g : Graph K) → FallsUp g → (a b : K) → feeds g a b ≡ true → (a == b) ≡ false
  FallsUp-ne g f a b fed = elim (Bool-cases (a == b)) [
    | inl same ↦ absurd (omega (arith, f a b fed, ap rank (beq→eq a b same)))
    | inr other ↦ other
  ]

  FallsUp-Shrinks : {n : ℕ} {g g' : Graph K} → Shrinks n g g' → FallsUp g → FallsUp g'
  FallsUp-Shrinks s f a b h = f a b (s.feeds_le a b h)

  module _ {S : Type 0} (task : K → Task S) where
    graph-cancel_runner : (k : K) (s : Group K S) → (cancel_runner task k s).0.graph ≡ s.graph
    unfolding cancel_runner
    graph-cancel_runner k s = ground arith

    then_do-ok :
        (r : Group K S × Option Exn) (f : Group K S → Group K S × Option Exn)
        → (r then_do f).1 ≡ none
        → (r.1 ≡ none) × ((f r.0).1 ≡ none) × ((r then_do f).0 ≡ (f r.0).0)
    then_do-ok (s, none) f h = (refl, h, refl)
    then_do-ok (s, some x) f h = cc

    -- What an action on the group promises, if it lets no exception out, of the graph that it leaves.
    abbrev Clears : ℕ → (K → Group K S → Group K S × Option Exn) → Type 0
    Clears n act =
        (k : K) (s : Group K S)
        → FallsUp s.graph
        → rank k < n
        → (act k s).1 ≡ none
        → Shrinks n s.graph (act k s).0.graph × ((x : K) → needs (act k s).0.graph k x ≡ false)

    each-cons :
        (act : K → Group K S → Group K S × Option Exn) (k : K) (ks : List K) (s : Group K S)
        → (each act (k ∷ ks) s).1 ≡ none
        → ((act k s).1 ≡ none)
          × ((each act ks (act k s).0).1 ≡ none)
          × ((each act (k ∷ ks) s).0 ≡ (each act ks (act k s).0).0)
    unfolding each
    each-cons act k ks s h = ground arith

    each-Clears :
        (n : ℕ) (act : K → Group K S → Group K S × Option Exn)
        → Clears n act
        → (ks : List K) (s : Group K S) → FallsUp s.graph
        → ((k : K) → member k ks ≡ true → rank k < n)
        → (each act ks s).1 ≡ none
        → Shrinks n s.graph (each act ks s).0.graph
          × ((k : K) → member k ks ≡ true → (x : K) → needs (each act ks s).0.graph k x ≡ false)
    each-Clears n act clears [] s f below h =
        unfold each in (Shrinks-refl n s.graph, λ k m. absurd (ground arith))
    each-Clears n act clears (k ∷ ks) s f below h =
        let (first, later, same) = each-cons act k ks s h in
        let one = clears k s f (below k (ground (arith, beq_refl k))) first in
        let rest =
          each-Clears n act clears ks (act k s).0 (FallsUp-Shrinks one.0 f)
            (λ j m. below j (ground arith)) later in
        subst
          (λ (t : Group K S).
            Shrinks n s.graph t.graph
            × ((j : K) → member j (k ∷ ks) ≡ true → (x : K) → needs t.graph j x ≡ false))
          (sym same)
          (
            Shrinks-trans one.0 rest.0,
            λ j m x. elim (Bool-cases (member j ks)) [
              | inl among ↦ rest.1 j among x
              | inr only ↦ ground (arith, rest.0.needs_le k x, one.1 x, e.beq_iff j k)
            ],
          )

    abbrev clear_dependents : ℕ → K → Group K S → Group K S × Option Exn
    clear_dependents depth key s1 =
        each (λ k t. cancel_recursively task depth k t) (node_at key s1.graph).satisfy
          (record s1 { graph = touch key s1.graph })

    cancel_recursively-ok :
        (depth : ℕ) (key : K) (s : Group K S)
        → (cancel_recursively task (suc depth) key s).1 ≡ none
        → ((clear_dependents depth key (cancel_runner task key s).0).1 ≡ none)
          × ((cancel_recursively task (suc depth) key s).0.graph
              ≡ delitem key (clear_dependents depth key (cancel_runner task key s).0).0.graph)
    unfolding cancel_recursively
    cancel_recursively-ok depth key s h =
        let s1 = (cancel_runner task key s).0 in
        let (_, rest, same) =
          then_do-ok (cancel_runner task key s)
            (λ t. clear_dependents depth key t then_do drop_node key) h in
        let (done, _, same') = then_do-ok (clear_dependents depth key s1) (drop_node key) rest in
        (done, ap (λ (t : Group K S). t.graph) (same ∙ same'))

    feeds_lem : (g : Graph K) (a b : K) → feeds g a b ≡ member b (node_at a g).satisfy
    unfolding feeds
    feeds_lem g a b = refl

    clear_dependents-Clears :
        (depth : ℕ) (key : K) (s : Group K S)
        → Clears (rank key) (λ k t. cancel_recursively task depth k t)
        → FallsUp s.graph
        → (clear_dependents depth key s).1 ≡ none
        → Shrinks (rank key) s.graph (clear_dependents depth key s).0.graph
          × ((d : K)
              → feeds s.graph key d ≡ true
              → (x : K) → needs (clear_dependents depth key s).0.graph d x ≡ false)
    clear_dependents-Clears depth key s clears f h =
        let touched = Shrinks-touch (rank key) key s.graph in
        let cleared =
          each-Clears (rank key) (λ k t. cancel_recursively task depth k t) clears
            (node_at key s.graph).satisfy (record s { graph = touch key s.graph })
            (FallsUp-Shrinks touched f) (λ k m. f key k (feeds_lem s.graph key k ∙ m)) h in
        (
          Shrinks-trans touched cleared.0,
          λ d fed x. cleared.1 d (sym (feeds_lem s.graph key d) ∙ fed) x,
        )

    cancel_recursively-Clears : (depth n : ℕ) → Clears n (λ k t. cancel_recursively task depth k t)
    cancel_recursively-Clears zero n key s f below h = unfold cancel_recursively in cc
    cancel_recursively-Clears (suc depth) n key s f below h =
        let s1 = (cancel_runner task key s).0 in
        let (done, same) = cancel_recursively-ok depth key s h in
        let same_graph = graph-cancel_runner key s in
        let cleared =
          clear_dependents-Clears depth key s1 (cancel_recursively-Clears depth (rank key))
            (rw same_graph f) done in
        rw same (
          Shrinks-trans
              (Shrinks-weaken {n = rank key} (omega arith) (
                subst (λ g. Shrinks (rank key) g (clear_dependents depth key s1).0.graph) same_graph
                  cleared.0))
              (Shrinks-delitem key (clear_dependents depth key s1).0.graph below),
          λ x. ground (
            arith,
            needs-delitem key (clear_dependents depth key s1).0.graph key x,
            beq_refl key,
          ),
        )

    -- When `_cancel_recursively(key, runner)` is over without an exception, in a graph where a rank
    -- falls from each key to the keys that require it: every key that required `key` is in the
    -- graph again, and requires nothing there, so that the loop of the group takes it for ready to
    -- start.
    pub cancel_recursively_revives :
        (depth : ℕ) (key : K) (s : Group K S)
        → FallsUp s.graph
        → (cancel_recursively task depth key s).1 ≡ none
        → (d : K) → feeds s.graph key d ≡ true
        → (has_key d (cancel_recursively task depth key s).0.graph ≡ true)
          × ((x : K) → needs (cancel_recursively task depth key s).0.graph d x ≡ false)
    cancel_recursively_revives zero key s f h d fed = unfold cancel_recursively in cc
    cancel_recursively_revives (suc depth) key s f h d fed =
        let s1 = (cancel_runner task key s).0 in
        let (done, same) = cancel_recursively-ok depth key s h in
        let same_graph = graph-cancel_runner key s in
        let cleared =
          clear_dependents-Clears depth key s1 (cancel_recursively-Clears depth (rank key))
            (rw same_graph f) done in
        let left = (clear_dependents depth key s1).0.graph in
        let fed' : feeds left key d ≡ true =
          cleared.0.above key d (le_refl (rank key)) ∙ ap (λ g. feeds g key d) same_graph ∙ fed in
        let other : (key == d) ≡ false = FallsUp-ne s.graph f key d fed in
        rw same (
          ground (arith, has_key-delitem key left d),
          λ x. ground (
            arith,
            needs-delitem key left d x,
            cleared.1 d (ap (λ g. feeds g key d) same_graph ∙ fed) x,
          ),
        )
