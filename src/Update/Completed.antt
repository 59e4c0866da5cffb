-- ===== src/Update/Completed.antt =====
-- An operation of an update that creates or updates a resource, and returns.
use heat.Prelude.{
  ℕ, Bool, true, not, ◌&&◌, ◌≡◌, ◌⊎◌, inl, inr, refl, ◌∙◌, some, Eq, nat_eq, if◌then◌else◌, if_ind,
  Option-cases, beq_refl, arith,
}
use heat.Dict.{lookup, lookup-put}
use heat.Scheduler.Coroutine.{Result, ok, raise}
use heat.Resource.Lifecycle.{
  update_action, in_progress, is_complete, is_in_progress, is_update_like,
}
use heat.Update.Operations.{
  existing_side, InPlace, unchanged, other_class, not_begun, in_place, replaced, update_fails,
  left_in_progress, Creation, created, create_fails, unprepared, created_as, with_state, ran_as,
  begun_as, World, Plugins, is_gone, is_new, put_in, destroy, create_object, exchange_stacks,
  swap_in, updated_as, back_up_and_create, create_resource, process_new_resource_update,
}
use heat.Update.Kept.{and_then-ind, back_up_none, back_up_some, back_up-existing, backed_up, Owned}

module _ {Name : Type 0} ⦃n : Eq Name⦄ (plugins : Plugins) (name : Name) where
  -- If the operation returns, the existing stack has a resource under the name whose status is COMPLETE.
  abbrev Completes : World Name × Result Unit → Type 0
  Completes (v, ok u) =
      (r : ℕ) × (lookup name v.existing ≡ some r) × (is_complete (v.state r).status ≡ true)
  Completes (v, raise x) = Unit

  abbrev CompleteIfOk : ℕ → World Name × Result Unit → Type 0
  CompleteIfOk r (v, ok u) = is_complete (v.state r).status ≡ true
  CompleteIfOk r (v, raise x) = Unit

  created_as-CompleteIfOk :
      (c : Creation) (r : ℕ) (w : World Name) → CompleteIfOk r (created_as plugins c r w)
  unfolding created_as
  created_as-CompleteIfOk created r w = rw (beq_refl r) refl
  created_as-CompleteIfOk create_fails r w = tt
  created_as-CompleteIfOk (unprepared x) r w = tt

  create_object-CompleteIfOk : (r : ℕ) (w : World Name) → CompleteIfOk r (create_object plugins r w)
  unfolding create_object
  create_object-CompleteIfOk r w =
      if_ind (CompleteIfOk r) (not (is_new (w.state r))) (λ _. tt)
        (λ _. created_as-CompleteIfOk (plugins.creates r) r w)

  ends :
      (r : ℕ) (d : World Name × Result Unit)
      → lookup name d.0.existing ≡ some r
      → CompleteIfOk r d
      → Completes d
  ends r (v, ok u) e c = (r, e, c)
  ends r (v, raise x) e c = tt

  back_up-Completes :
      (new_res : ℕ) (w : World Name) → Completes (back_up_and_create plugins name new_res w)
  back_up-Completes new_res w =
      ends new_res (back_up_and_create plugins name new_res w)
        (back_up-existing plugins name new_res w)
        (elim (Option-cases (lookup name w.existing)) [
          | inl e ↦
              rw (back_up_none plugins name new_res w e)
                (create_object-CompleteIfOk new_res (put_in existing_side name new_res w))
          | inr e ↦
              rw (back_up_some plugins name new_res e.0 w e.1)
                (create_object-CompleteIfOk new_res (backed_up plugins name e.0 new_res w))
        ])

  swap_in-Completes :
      (prev : ℕ) (w : World Name)
      → Owned plugins name w
      → lookup name w.previous ≡ some prev
      → is_complete (w.state prev).status ≡ true
      → Completes (swap_in name prev w)
  unfolding swap_in exchange_stacks put_in
  swap_in-Completes prev w owned p c = elim (Option-cases (lookup name w.existing)) [
    | inl e ↦ rw (swap_in, e) tt
    | inr e ↦
        rw (swap_in, e.1, owned.0 e.0 e.1, owned.1 prev p)
          (prev, lookup-put name name prev w.existing ∙ first (beq_refl name), c)
  ]
    where
      first : {b : Bool} → b ≡ true → (if b then some prev else lookup name w.existing) ≡ some prev
      first h = ground arith

  create_resource-Completes :
      (new_res : ℕ) (w : World Name)
      → Owned plugins name w
      → Completes (create_resource plugins name new_res w)
  unfolding create_resource
  create_resource-Completes new_res w owned = elim (Option-cases (lookup name w.previous)) [
    | inl e ↦ rw (create_resource, e) (back_up-Completes new_res w)
    | inr p ↦
        rw (create_resource, p.1)
          (if_ind Completes (is_gone (w.state p.0)) (λ _. back_up-Completes new_res w)
            (λ _.
              if_ind Completes (is_complete (w.state p.0).status)
                (λ c. swap_in-Completes p.0 w owned p.1 c)
                (λ _.
                  and_then-ind plugins name Completes (destroy plugins p.0 w)
                    (back_up_and_create plugins name new_res) (λ v x d. tt)
                    (λ v d. back_up-Completes new_res v))))
  ]

  -- If the operation returns, the existing stack has a resource under the name, and its status is
  -- COMPLETE, or it is the one of before, which its `update` found unchanged and left as it was.
  abbrev pub EndsComplete : World Name → World Name × Result Unit → Type 0
  EndsComplete w (v, ok u) =
      (r : ℕ) × (lookup name v.existing ≡ some r)
      × ((is_complete (v.state r).status ≡ true) ⊎ ((plugins.updates r ≡ unchanged) × (v ≡ w)))
  EndsComplete w (v, raise x) = Unit

  Completes-EndsComplete :
      (w : World Name) (d : World Name × Result Unit) → Completes d → EndsComplete w d
  Completes-EndsComplete w (v, ok u) (r, e, c) = (r, e, inl c)
  Completes-EndsComplete w (v, raise x) h = tt

  ran_as-Completes :
      (u : InPlace) (ex new_res : ℕ) (w : World Name)
      → Owned plugins name w
      → lookup name w.existing ≡ some ex
      → Completes (ran_as plugins u name ex new_res w)
  unfolding ran_as
  ran_as-Completes in_place ex new_res w owned e = (ex, e, rw (beq_refl ex) refl)
  ran_as-Completes replaced ex new_res w owned e = create_resource-Completes new_res w owned
  ran_as-Completes unchanged ex new_res w owned e = tt
  ran_as-Completes other_class ex new_res w owned e = tt
  ran_as-Completes (not_begun x) ex new_res w owned e = tt
  ran_as-Completes update_fails ex new_res w owned e = tt
  ran_as-Completes (left_in_progress x) ex new_res w owned e = tt

  begun_as-EndsComplete :
      (u : InPlace) (ex new_res : ℕ) (w : World Name)
      → Owned plugins name w
      → lookup name w.existing ≡ some ex
      → EndsComplete w (begun_as plugins u name ex new_res w)
  unfolding begun_as
  begun_as-EndsComplete u ex new_res w owned e =
      if_ind (EndsComplete w)
        (is_update_like (w.state ex).action && is_in_progress (w.state ex).status) (λ _. tt)
        (λ _.
          Completes-EndsComplete w
            (ran_as plugins u name ex new_res (with_state ex update_action in_progress w))
            (ran_as-Completes u ex new_res (with_state ex update_action in_progress w) owned e))

  updated_as-EndsComplete :
      (u : InPlace) (ex new_res : ℕ) (w : World Name)
      → Owned plugins name w
      → lookup name w.existing ≡ some ex
      → plugins.updates ex ≡ u
      → EndsComplete w (updated_as plugins u name ex new_res w)
  unfolding updated_as
  updated_as-EndsComplete unchanged ex new_res w owned e same = (ex, e, inr (same, refl))
  updated_as-EndsComplete other_class ex new_res w owned e same =
      Completes-EndsComplete w (create_resource plugins name new_res w)
        (create_resource-Completes new_res w owned)
  updated_as-EndsComplete (not_begun x) ex new_res w owned e same = tt
  updated_as-EndsComplete in_place ex new_res w owned e same =
      begun_as-EndsComplete in_place ex new_res w owned e
  updated_as-EndsComplete replaced ex new_res w owned e same =
      begun_as-EndsComplete replaced ex new_res w owned e
  updated_as-EndsComplete update_fails ex new_res w owned e same =
      begun_as-EndsComplete update_fails ex new_res w owned e
  updated_as-EndsComplete (left_in_progress x) ex new_res w owned e same =
      begun_as-EndsComplete (left_in_progress x) ex new_res w owned e

  pub process_new-EndsComplete :
      (new_res : ℕ) (w : World Name)
      → Owned plugins name w
      → EndsComplete w (process_new_resource_update plugins name new_res w)
  unfolding process_new_resource_update
  process_new-EndsComplete new_res w owned = elim (Option-cases (lookup name w.existing)) [
    | inl e ↦
        rw (process_new_resource_update, e)
          (Completes-EndsComplete w (create_resource plugins name new_res w)
            (create_resource-Completes new_res w owned))
    | inr e ↦
        rw (process_new_resource_update, e.1)
          (updated_as-EndsComplete (plugins.updates e.0) e.0 new_res w owned e.1 refl)
  ]
