-- ===== src/Update/Created.antt =====
-- The operations of an update that create, swap or update a resource lose none.
use heat.Prelude.{
  ℕ, true, ◌&&◌, ◌≡◌, inl, inr, ap, subst, some, Eq, nat_eq, if_ind, Option-cases, beq_refl, arith,
}
use heat.Dict.{lookup, lookup-put}
use heat.Scheduler.Coroutine.{Result, ok, raise}
use heat.Resource.Lifecycle.{
  update_action, in_progress, State, is_complete, is_in_progress, is_update_like,
}
use heat.Update.Operations.{
  InPlace, unchanged, other_class, not_begun, in_place, replaced, update_fails, left_in_progress,
  with_state, ran_as, begun_as, World, Plugins, is_gone, put_in, destroy, and_then, exchange_stacks,
  swap_in, updated_as, back_up_and_create, create_resource, process_new_resource_update,
}
use heat.Update.Kept.{
  is_idle, InStacks, Kept, Owned, SameStacks, IdleIfOk, destroy-SameStacks, destroy-IdleIfOk,
  KeptAfter, and_then-ind, some-injective, InStacks-same, gone-PreviousIdle, back_up-Kept,
  PreviousIdle,
}

module _ {Name : Type 0} ⦃n : Eq Name⦄ (plugins : Plugins) (name : Name) where
  exchange_stacks-Kept :
      (ex prev q : ℕ) (w : World Name)
      → Owned plugins name w
      → lookup name w.existing ≡ some ex
      → lookup name w.previous ≡ some prev
      → InStacks plugins name w q
      → InStacks plugins name (exchange_stacks name ex prev w) q
  unfolding exchange_stacks put_in
  exchange_stacks-Kept ex prev q w owned e p (inl h) = inr (
      rw (owned.0 ex e, owned.1 prev p, lookup-put name name ex w.previous, beq_refl name)
        (ap some (some-injective plugins name (lookup name w.existing) ex q e h)))
  exchange_stacks-Kept ex prev q w owned e p (inr h) = inl (
      rw (owned.0 ex e, owned.1 prev p, lookup-put name name prev w.existing, beq_refl name)
        (ap some (some-injective plugins name (lookup name w.previous) prev q p h)))

  -- `destroy` of the previous object, and then an operation that keeps what is in the stacks as long as
  -- the previous object is idle
  destroyed-Kept :
      (prev q : ℕ) (w : World Name) (k : World Name → World Name × Result Unit)
      → lookup name w.previous ≡ some prev
      → InStacks plugins name w q
      → ((v : World Name)
          → SameStacks plugins name w (v, ok tt)
          → PreviousIdle plugins name v
          → InStacks plugins name v q
          → Kept plugins name (k v).0 q)
      → Kept plugins name (and_then (destroy plugins prev w) k).0 q
  destroyed-Kept prev q w k p h keeps =
      and_then-ind plugins name (KeptAfter plugins name q) (destroy plugins prev w) k
        (λ v x d. inl (
          InStacks-same plugins name q w (v, raise x)
            (subst (SameStacks plugins name w) d (destroy-SameStacks plugins name prev w)) h))
        (λ v d.
          let same = subst (SameStacks plugins name w) d (destroy-SameStacks plugins name prev w) in
          keeps v same
            (gone-PreviousIdle plugins name v prev (rw same.1 p)
              (subst (IdleIfOk plugins name prev) d (destroy-IdleIfOk plugins name prev w)))
            (InStacks-same plugins name q w (v, ok tt) same h))

  gone-is_idle : (s : State) → is_gone s ≡ true → is_idle s ≡ true
  gone-is_idle s h = ground arith

  swap_in-Kept :
      (prev q : ℕ) (w : World Name)
      → Owned plugins name w
      → lookup name w.previous ≡ some prev
      → InStacks plugins name w q
      → InStacks plugins name (swap_in name prev w).0 q
  unfolding swap_in
  swap_in-Kept prev q w owned p h = elim (Option-cases (lookup name w.existing)) [
    | inl e ↦ rw (swap_in, e) h
    | inr e ↦ rw (swap_in, e.1) (exchange_stacks-Kept e.0 prev q w owned e.1 p h)
  ]

  create_resource-Kept :
      (new_res q : ℕ) (w : World Name)
      → Owned plugins name w
      → InStacks plugins name w q
      → Kept plugins name (create_resource plugins name new_res w).0 q
  unfolding create_resource
  create_resource-Kept new_res q w owned h = elim (Option-cases (lookup name w.previous)) [
    | inl e ↦
        rw (create_resource, e)
          (back_up-Kept plugins name new_res q w (λ r p. absurd (ground (arith, p, e))) h)
    | inr p ↦
        rw (create_resource, p.1)
          (if_ind (KeptAfter plugins name q) (is_gone (w.state p.0))
            (λ gone.
              back_up-Kept plugins name new_res q w
                (gone-PreviousIdle plugins name w p.0 p.1 (gone-is_idle (w.state p.0) gone)) h)
            (λ _.
              if_ind (KeptAfter plugins name q) (is_complete (w.state p.0).status)
                (λ _. inl (swap_in-Kept p.0 q w owned p.1 h))
                (λ _.
                  destroyed-Kept p.0 q w (back_up_and_create plugins name new_res) p.1 h
                    (λ v same idle. back_up-Kept plugins name new_res q v idle))))
  ]

  ran_as-Kept :
      (u : InPlace) (ex new_res q : ℕ) (w : World Name)
      → Owned plugins name w
      → InStacks plugins name w q
      → Kept plugins name (ran_as plugins u name ex new_res w).0 q
  unfolding ran_as
  ran_as-Kept replaced ex new_res q w owned h = create_resource-Kept new_res q w owned h
  ran_as-Kept unchanged ex new_res q w owned h = inl h
  ran_as-Kept other_class ex new_res q w owned h = inl h
  ran_as-Kept (not_begun x) ex new_res q w owned h = inl h
  ran_as-Kept in_place ex new_res q w owned h = inl h
  ran_as-Kept update_fails ex new_res q w owned h = inl h
  ran_as-Kept (left_in_progress x) ex new_res q w owned h = inl h

  begun_as-Kept :
      (u : InPlace) (ex new_res q : ℕ) (w : World Name)
      → Owned plugins name w
      → InStacks plugins name w q
      → Kept plugins name (begun_as plugins u name ex new_res w).0 q
  unfolding begun_as
  begun_as-Kept u ex new_res q w owned h =
      if_ind (KeptAfter plugins name q)
        (is_update_like (w.state ex).action && is_in_progress (w.state ex).status) (λ _. inl h)
        (λ _. ran_as-Kept u ex new_res q (with_state ex update_action in_progress w) owned h)

  updated_as-Kept :
      (u : InPlace) (ex new_res q : ℕ) (w : World Name)
      → Owned plugins name w
      → InStacks plugins name w q
      → Kept plugins name (updated_as plugins u name ex new_res w).0 q
  unfolding updated_as
  updated_as-Kept unchanged ex new_res q w owned h = inl h
  updated_as-Kept other_class ex new_res q w owned h = create_resource-Kept new_res q w owned h
  updated_as-Kept (not_begun x) ex new_res q w owned h = inl h
  updated_as-Kept in_place ex new_res q w owned h = begun_as-Kept in_place ex new_res q w owned h
  updated_as-Kept replaced ex new_res q w owned h = begun_as-Kept replaced ex new_res q w owned h
  updated_as-Kept update_fails ex new_res q w owned h =
      begun_as-Kept update_fails ex new_res q w owned h
  updated_as-Kept (left_in_progress x) ex new_res q w owned h =
      begun_as-Kept (left_in_progress x) ex new_res q w owned h

  pub process_new-Kept :
      (new_res q : ℕ) (w : World Name)
      → Owned plugins name w
      → InStacks plugins name w q
      → Kept plugins name (process_new_resource_update plugins name new_res w).0 q
  unfolding process_new_resource_update
  process_new-Kept new_res q w owned h = elim (Option-cases (lookup name w.existing)) [
    | inl e ↦ rw (process_new_resource_update, e) (create_resource-Kept new_res q w owned h)
    | inr e ↦
        rw (process_new_resource_update, e.1)
          (updated_as-Kept (plugins.updates e.0) e.0 new_res q w owned h)
  ]
