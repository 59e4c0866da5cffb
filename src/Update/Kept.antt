-- ===== src/Update/Kept.antt =====
-- No operation of an update loses a resource.
use heat.Prelude.{
  ℕ, Bool, true, false, not, ◌&&◌, ◌||◌, ◌≡◌, ◌⊎◌, inl, inr, refl, subst, ◌∙◌, Option, none, some,
  Eq, ◌==◌, nat_eq, if_ind, Bool-cases, Option-cases, beq_refl, arith,
}
use heat.Dict.{lookup, put, lookup-put}
use heat.Scheduler.Coroutine.{Exn, Result, ok, raise}
use heat.Resource.Lifecycle.{update_action, complete, State, is_complete, is_init, is_delete}
use heat.Update.Operations.{
  existing_side, previous_side, World, Plugins, is_new, with_state, put_in, destroy, Creation,
  created, create_fails, unprepared, created_as, create_object, and_then, back_up_and_create,
}

-- Never created, or deleted.
abbrev pub is_idle : State → Bool
is_idle s = is_init s.action || is_delete s.action && is_complete s.status

module _ {Name : Type 0} ⦃n : Eq Name⦄ (plugins : Plugins) (name : Name) where
  -- The object is in the existing stack or in the previous one, under the name.
  abbrev pub InStacks : World Name → ℕ → Type 0
  InStacks w r = (lookup name w.existing ≡ some r) ⊎ (lookup name w.previous ≡ some r)

  abbrev pub Kept : World Name → ℕ → Type 0
  Kept w r = InStacks w r ⊎ (is_idle (w.state r) ≡ true)

  -- `r.stack` of the objects under the name
  abbrev pub Owned : World Name → Type 0
  Owned w =
      ((r : ℕ) → lookup name w.existing ≡ some r → w.stack r ≡ existing_side)
      × ((r : ℕ) → lookup name w.previous ≡ some r → w.stack r ≡ previous_side)

  abbrev pub SameStacks : World Name → World Name × Result Unit → Type 0
  SameStacks w (v, r) =
      (v.existing ≡ w.existing)
      × (v.previous ≡ w.previous)
      × (v.new ≡ w.new)
      × ((q : ℕ) → v.stack q ≡ w.stack q)

  pub destroy-SameStacks : (r : ℕ) (w : World Name) → SameStacks w (destroy plugins r w)
  unfolding destroy
  destroy-SameStacks r w =
      if_ind (SameStacks w) (is_idle (w.state r)) (λ _. (refl, refl, refl, λ q. refl))
        (λ _.
          if_ind (SameStacks w) (plugins.destroys r) (λ _. (refl, refl, refl, λ q. refl))
            (λ _. (refl, refl, refl, λ q. refl)))

  abbrev pub IdleIfOk : ℕ → World Name × Result Unit → Type 0
  IdleIfOk r (v, ok u) = is_idle (v.state r) ≡ true
  IdleIfOk r (v, raise x) = Unit

  pub destroy-IdleIfOk : (r : ℕ) (w : World Name) → IdleIfOk r (destroy plugins r w)
  unfolding destroy
  destroy-IdleIfOk r w =
      if_ind (IdleIfOk r) (is_idle (w.state r)) (λ idle. idle)
        (λ _. if_ind (IdleIfOk r) (plugins.destroys r) (λ _. rw (beq_refl r) refl) (λ _. tt))

  created_as-SameStacks :
      (c : Creation) (r : ℕ) (w : World Name) → SameStacks w (created_as plugins c r w)
  unfolding created_as
  created_as-SameStacks created r w = (refl, refl, refl, λ q. refl)
  created_as-SameStacks create_fails r w = (refl, refl, refl, λ q. refl)
  created_as-SameStacks (unprepared x) r w = (refl, refl, refl, λ q. refl)

  create_object-SameStacks : (r : ℕ) (w : World Name) → SameStacks w (create_object plugins r w)
  unfolding create_object
  create_object-SameStacks r w =
      if_ind (SameStacks w) (not (is_new (w.state r))) (λ _. (refl, refl, refl, λ q. refl))
        (λ _. created_as-SameStacks (plugins.creates r) r w)

  abbrev StateAt : ℕ → State → World Name × Result Unit → Type 0
  StateAt q before (v, r) = v.state q ≡ before

  created_as-state :
      (c : Creation) (new_res q : ℕ) (w : World Name)
      → (new_res == q) ≡ false
      → StateAt q (w.state q) (created_as plugins c new_res w)
  unfolding created_as
  created_as-state created new_res q w other = rw other refl
  created_as-state create_fails new_res q w other = rw other refl
  created_as-state (unprepared x) new_res q w other = refl

  create_object-state :
      (new_res q : ℕ) (w : World Name)
      → (new_res == q) ≡ false
      → StateAt q (w.state q) (create_object plugins new_res w)
  unfolding create_object
  create_object-state new_res q w other =
      if_ind (StateAt q (w.state q)) (not (is_new (w.state new_res))) (λ _. refl)
        (λ _. created_as-state (plugins.creates new_res) new_res q w other)

  abbrev pub backed_up : ℕ → ℕ → World Name → World Name
  backed_up ex new_res w =
      put_in existing_side name new_res
        (with_state ex update_action complete (put_in previous_side name ex w))

  pub back_up_none :
      (new_res : ℕ) (w : World Name)
      → lookup name w.existing ≡ none
      → back_up_and_create plugins name new_res w
        ≡ create_object plugins new_res (put_in existing_side name new_res w)
  unfolding back_up_and_create
  back_up_none new_res w e = rw (back_up_and_create, e) refl

  pub back_up_some :
      (new_res ex : ℕ) (w : World Name)
      → lookup name w.existing ≡ some ex
      → back_up_and_create plugins name new_res w
        ≡ create_object plugins new_res (backed_up ex new_res w)
  unfolding back_up_and_create
  back_up_some new_res ex w e = rw (back_up_and_create, e) refl

  created-existing :
      (new_res : ℕ) (v w : World Name)
      → v.existing ≡ put name new_res w.existing
      → lookup name (create_object plugins new_res v).0.existing ≡ some new_res
  created-existing new_res v w e =
      rw
        (
          (create_object-SameStacks new_res v).0,
          e,
          lookup-put name name new_res w.existing,
          beq_refl name,
        )
        refl

  pub back_up-existing :
      (new_res : ℕ) (w : World Name)
      → lookup name (back_up_and_create plugins name new_res w).0.existing ≡ some new_res
  unfolding put_in
  back_up-existing new_res w = elim (Option-cases (lookup name w.existing)) [
    | inl e ↦
        rw (back_up_none new_res w e)
          (created-existing new_res (put_in existing_side name new_res w) w refl)
    | inr e ↦
        rw (back_up_some new_res e.0 w e.1)
          (created-existing new_res (backed_up e.0 new_res w) w refl)
  ]

  back_up-previous_none :
      (new_res : ℕ) (w : World Name)
      → lookup name w.existing ≡ none
      → lookup name (back_up_and_create plugins name new_res w).0.previous ≡ lookup name w.previous
  unfolding put_in
  back_up-previous_none new_res w e =
      rw
        (
          back_up_none new_res w e,
          (create_object-SameStacks new_res (put_in existing_side name new_res w)).1,
        )
        refl

  back_up-previous_some :
      (new_res ex : ℕ) (w : World Name)
      → lookup name w.existing ≡ some ex
      → lookup name (back_up_and_create plugins name new_res w).0.previous ≡ some ex
  unfolding put_in
  back_up-previous_some new_res ex w e =
      rw
        (
          back_up_some new_res ex w e,
          (create_object-SameStacks new_res (backed_up ex new_res w)).1,
          lookup-put name name ex w.previous,
          beq_refl name,
        )
        refl

  -- An object that is neither the new one nor the one that is backed up has its state.
  back_up-state :
      (new_res ex q : ℕ) (w : World Name)
      → lookup name w.existing ≡ some ex
      → (ex == q) ≡ false
      → (new_res == q) ≡ false
      → (back_up_and_create plugins name new_res w).0.state q ≡ w.state q
  unfolding put_in
  back_up-state new_res ex q w e other_ex other_new =
      rw
        (
          back_up_some new_res ex w e,
          create_object-state new_res q (backed_up ex new_res w) other_new,
          other_ex,
        )
        refl

  abbrev pub PreviousIdle : World Name → Type 0
  PreviousIdle w = (q : ℕ) → lookup name w.previous ≡ some q → is_idle (w.state q) ≡ true

  pub back_up-Kept :
      (new_res q : ℕ) (w : World Name)
      → PreviousIdle w
      → InStacks w q
      → Kept (back_up_and_create plugins name new_res w).0 q
  back_up-Kept new_res q w idle (inl e) = inl (inr (back_up-previous_some new_res q w e))
  back_up-Kept new_res q w idle (inr p) = elim (Option-cases (lookup name w.existing)) [
    | inl e ↦ inl (inr (back_up-previous_none new_res w e ∙ p))
    | inr e ↦ elim (Bool-cases (e.0 == q)) [
      | inl same ↦ inl (inr (ground (arith, back_up-previous_some new_res e.0 w e.1, same)))
      | inr other_ex ↦ elim (Bool-cases (new_res == q)) [
        | inl same ↦ inl (inl (ground (arith, back_up-existing new_res w, same)))
        | inr other_new ↦ inr (rw (back_up-state new_res e.0 q w e.1 other_ex other_new) (idle q p))
      ]
    ]
  ]

  -- What holds of the world behind an operation.
  abbrev pub KeptAfter : ℕ → World Name × Result Unit → Type 0
  KeptAfter q d = Kept d.0 q

  pub and_then-ind :
      (P : World Name × Result Unit → Type 0) (d : World Name × Result Unit)
      (k : World Name → World Name × Result Unit)
      → ((v : World Name) (x : Exn) → d ≡ (v, raise x) → P (v, raise x))
      → ((v : World Name) → d ≡ (v, ok tt) → P (k v))
      → P (and_then d k)
  and_then-ind P (v, ok u) k fails goes_on = goes_on v refl
  and_then-ind P (v, raise x) k fails goes_on = fails v x refl

  pub some-injective : (o : Option ℕ) (p q : ℕ) → o ≡ some p → o ≡ some q → p ≡ q
  some-injective o p q hp hq = ground arith

  pub gone-PreviousIdle :
      (w : World Name) (prev : ℕ)
      → lookup name w.previous ≡ some prev
      → is_idle (w.state prev) ≡ true
      → PreviousIdle w
  gone-PreviousIdle w prev p idle q e =
      subst (λ r. is_idle (w.state r) ≡ true) (some-injective (lookup name w.previous) prev q p e)
        idle

  pub InStacks-same :
      (q : ℕ) (w : World Name) (d : World Name × Result Unit)
      → SameStacks w d
      → InStacks w q
      → InStacks d.0 q
  InStacks-same q w d same (inl e) = inl (rw same.0 e)
  InStacks-same q w d same (inr e) = inr (rw same.1 e)
