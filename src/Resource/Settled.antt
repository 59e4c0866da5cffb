-- ===== src/Resource/Settled.antt =====
-- The state of a resource tells where its action stands, at every `yield` and at the end.
use heat.Prelude.{
  Option, none, some, Bool, true, false, ◌&&◌, ◌≡◌, refl, ◌⊎◌, inl, inr, arith, if_ind,
}
use heat.Scheduler.Coroutine.{
  Exn, is_exception, resource_failure, update_replace, Resumed, yields, stops, raises, Body,
}
use heat.Resource.Lifecycle.{
  Action, init, create_action, delete_action, update_action, in_progress, failed, complete, State,
  is_complete, is_in_progress, is_init, is_delete, is_update_like, settle, do_action, create,
  delete, settle_update, update,
}

module _ {S : Type 0} where
  -- What a co-routine comes to from its first `yield` on: it is resumed, or an exception is thrown
  -- into it, any number of times.
  pub data Runs (settled : Resumed S → State → State × Resumed S) (body : Body S)
      (first : State × Resumed S) : State × Resumed S → Type 0 where
    begun : Runs settled body first first
    resumed :
        {state : State} {s : S}
        → Runs settled body first (state, yields s)
        → Runs settled body first (settled (body.next s) state)
    thrown :
        {state : State} {s : S} (x : Exn)
        → Runs settled body first (state, yields s)
        → Runs settled body first (settled (body.throw s x) state)

  -- In progress at a `yield`, complete at the end, failed behind an exception.
  abbrev pub Tells : Action → State × Resumed S → Type 0
  Tells action (state, yields s) = state ≡ record { action = action; status = in_progress }
  Tells action (state, stops) = state ≡ record { action = action; status = complete }
  Tells action (state, raises x) = state ≡ record { action = action; status = failed }

  settle-Tells :
      (action : Action) (r : Resumed S) (state : State)
      → state ≡ record { action = action; status = in_progress }
      → Tells action (settle action r state)
  unfolding settle
  settle-Tells action (yields s) state h = h
  settle-Tells action stops state h = refl
  settle-Tells action (raises x) state h = refl

  -- What holds of the first result, and behind every `yield` where it held, holds of all.
  Runs-invariant :
      {settled : Resumed S → State → State × Resumed S} {body : Body S}
      {first r : State × Resumed S}
      → (I : State × Resumed S → Type 0) → I first
      → ((q : Resumed S) (state : State) (s : S) → I (state, yields s) → I (settled q state))
      → Runs settled body first r
      → I r
  Runs-invariant I base step begun = base
  Runs-invariant {body = body} I base step (resumed {state} {s} run) =
      step (body.next s) state s (Runs-invariant I base step run)
  Runs-invariant {body = body} I base step (thrown {state} {s} x run) =
      step (body.throw s x) state s (Runs-invariant I base step run)

  -- With a snippet that cannot be resolved, nothing has happened; the others tell.
  abbrev pub CreateTells : Option Exn → State × Resumed S → Type 0
  CreateTells (some x) r = r ≡ (record { action = init; status = complete }, raises x)
  CreateTells none r = Tells create_action r

  create-first :
      (resolved : Option Exn) (body : Body S)
      → CreateTells resolved (create resolved body (record { action = init; status = complete }))
  unfolding create do_action
  create-first (some x) body = refl
  create-first none body =
      settle-Tells create_action body.first
        (record { action = create_action; status = in_progress }) refl

  -- The creation of a resource that was only initialised, whatever its plug-in does and however the
  -- co-routine is resumed and interrupted: if the snippet of the resource is resolved, the state is
  -- CREATE, in progress at every `yield`, complete at the end, and failed behind an exception. If it is
  -- not, the creation raises that exception, and the state is still INIT, complete.
  pub create-Tells :
      (resolved : Option Exn) (body : Body S) (r : State × Resumed S)
      → Runs
          (settle create_action)
          body
          (create resolved body (record { action = init; status = complete }))
          r
      → CreateTells resolved r
  create-Tells resolved body r run =
      Runs-invariant (CreateTells resolved) (create-first resolved body) (kept resolved) run
    where
      kept :
          (resolved : Option Exn) (q : Resumed S) (state : State) (s : S)
          → CreateTells resolved (state, yields s)
          → CreateTells resolved (settle create_action q state)
      kept none q state s h = settle-Tells create_action q state h
      kept (some x) q state s h = absurd (ground arith)

  -- The deletion of a resource that was created and is not deleted: the state is DELETE, in progress
  -- at every `yield`, complete at the end, and failed behind an exception.
  pub delete-Tells :
      (body : Body S) (state : State) (r : State × Resumed S)
      → is_init state.action ≡ false
      → (is_delete state.action && is_complete state.status) ≡ false
      → Runs (settle delete_action) body (delete body state) r
      → Tells delete_action r
  unfolding delete
  delete-Tells body state r created undeleted run =
      Runs-invariant (Tells delete_action)
        (rw (undeleted, created)
          (settle-Tells delete_action body.first
            (record { action = delete_action; status = in_progress }) refl))
        (λ q at s h. settle-Tells delete_action q at h) run

  -- In progress at a `yield`, complete at the end, failed behind an exception that is caught.
  abbrev UpdateTells : State × Resumed S → Type 0
  UpdateTells (state, yields s) = state ≡ record { action = update_action; status = in_progress }
  UpdateTells (state, stops) = state ≡ record { action = update_action; status = complete }
  UpdateTells (state, raises x) =
      (is_exception x ≡ true) ⊎ (state ≡ record { action = update_action; status = in_progress })

  settle_update-Tells :
      (resolved : Option Exn) (q : Resumed S) (state : State)
      → state ≡ record { action = update_action; status = in_progress }
      → UpdateTells (settle_update resolved q state)
  unfolding settle_update
  settle_update-Tells resolved (yields s) state h = h
  settle_update-Tells none stops state h = refl
  settle_update-Tells (some x) stops state h = inr h
  settle_update-Tells resolved (raises x) state h = ground (arith, h)

  update-Tells :
      (resolved : Option Exn) (body : Body S) (state : State)
      → UpdateTells (update false false resolved body state)
  unfolding update
  update-Tells resolved body state =
      if_ind UpdateTells (is_update_like state.action && is_in_progress state.status)
        (λ _. inl refl)
        (λ _.
          settle_update-Tells resolved body.first
            (record { action = update_action; status = in_progress }) refl)

  -- What an update in the state UPDATE, IN_PROGRESS comes to: whether the class is another and whether
  -- nothing differs.
  abbrev pub later_end : Bool → Bool → Resumed S
  later_end true same = raises update_replace
  later_end false true = stops
  later_end false false = raises resource_failure

  later_update :
      (resolved : Option Exn) (body : Body S) (left : State)
      → left ≡ record { action = update_action; status = in_progress }
      → (other_class same : Bool)
      → update other_class same resolved body left ≡ (left, later_end other_class same)
  unfolding update
  later_update resolved body left there true same = refl
  later_update resolved body left there false true = refl
  later_update resolved body left there false false = rw there refl

  -- An update, begun with a difference and no other class, that anything but an Exception leaves, such
  -- as a time-out, whatever the plug-in does and however the co-routine is resumed and interrupted
  -- before: the state is UPDATE, in progress, and no later update that is given the old snippet gets out
  -- of it or comes to the plug-in. It raises UpdateReplace if the class of the previous resource is
  -- another, returns if nothing differs, and raises a ResourceFailure otherwise.
  pub update_interrupted :
      (resolved resolved_later : Option Exn) (body later : Body S) (state left : State) (x : Exn)
      → is_exception x ≡ false
      → Runs (settle_update resolved) body (update false false resolved body state) (left, raises x)
      → (left ≡ record { action = update_action; status = in_progress })
        × ((other_class same : Bool)
            → update other_class same resolved_later later left
              ≡ (left, later_end other_class same))
  update_interrupted resolved resolved_later body later state left x h run =
      elim (Runs-invariant UpdateTells (update-Tells resolved body state)
        (λ q at s t. settle_update-Tells resolved q at t) run) [
          | inl caught ↦ absurd (ground arith)
          | inr there ↦ (there, later_update resolved_later later left there)
        ]
