-- ===== src/Update/CleanedUp.antt =====
-- The operations of an update that clean up, and the operations together: no resource is lost.
use heat.Prelude.{
  ℕ, true, ◌≡◌, inl, inr, refl, sym, ap, subst, ◌∙◌, none, some, Eq, ◌==◌, nat_eq, if_ind,
  Bool-cases, Option-cases, arith,
}
use heat.Dict.{lookup, delete, has_key}
use heat.Scheduler.Coroutine.{Result, ok, raise}
use heat.Update.Operations.{
  Side, existing_side, previous_side, new_side, is_previous, World, Plugins, is_gone, is_new,
  destroy, remove_backup_resource, drop_unwanted, clean_up, look_up_new,
  process_existing_resource_update, resource_update,
}
use heat.Update.Kept.{
  is_idle, InStacks, Kept, Owned, SameStacks, IdleIfOk, KeptAfter, destroy-SameStacks,
  destroy-IdleIfOk, and_then-ind, some-injective, InStacks-same,
}
use heat.Update.Created.{process_new-Kept}

module _ {Name : Type 0} ⦃n : Eq Name⦄ (plugins : Plugins) (name : Name) where
  -- The object that an operation cleans up is the one of the existing stack if the new stack does not
  -- have the name.
  abbrev pub CleansUp : World Name → ℕ → Type 0
  CleansUp w res = lookup name w.new ≡ none → lookup name w.existing ≡ some res

  drop_unwanted-Kept :
      (ex q : ℕ) (w : World Name)
      → CleansUp w ex
      → (lookup name w.new ≡ none → is_idle (w.state ex) ≡ true)
      → InStacks plugins name w q
      → Kept plugins name (drop_unwanted name w).0 q
  unfolding drop_unwanted
  drop_unwanted-Kept ex q w target idle h =
      if_ind (KeptAfter plugins name q) (has_key name w.new) (λ _. inl h)
        (λ unwanted.
          if_ind (KeptAfter plugins name q) (has_key name w.existing)
            (λ _. dropped (ground (arith, unwanted)) h) (λ _. inl h))
    where
      dropped :
          lookup name w.new ≡ none
          → InStacks plugins name w q
          → Kept plugins name (record w { existing = delete name w.existing }) q
      dropped missing (inl e) = inr (
          subst (λ r. is_idle (w.state r) ≡ true)
            (some-injective plugins name (lookup name w.existing) ex q (target missing) e)
            (idle missing))
      dropped missing (inr e) = inl (inr e)

  clean_up-Kept :
      (ex q : ℕ) (w : World Name)
      → Owned plugins name w
      → CleansUp w ex
      → InStacks plugins name w q
      → Kept plugins name (clean_up plugins name ex w).0 q
  unfolding clean_up
  clean_up-Kept ex q w owned target h = elim (Bool-cases (is_previous (w.stack ex))) [
    | inl backed ↦
        rw (clean_up, backed)
          (drop_unwanted-Kept ex q w target
            (λ missing. absurd (not_previous (w.stack ex) (owned.0 ex (target missing)) backed)) h)
    | inr here ↦
        rw (clean_up, here)
          (and_then-ind plugins name (KeptAfter plugins name q) (destroy plugins ex w)
            (drop_unwanted name)
            (λ v x d. inl (
              InStacks-same plugins name q w (v, raise x)
                (subst (SameStacks plugins name w) d (destroy-SameStacks plugins name ex w)) h))
            (λ v d.
              let same =
                subst (SameStacks plugins name w) d (destroy-SameStacks plugins name ex w) in
              drop_unwanted-Kept ex q v (λ missing. rw same.0 (target (rw (sym same.2) missing)))
                (λ _. subst (IdleIfOk plugins name ex) d (destroy-IdleIfOk plugins name ex w))
                (InStacks-same plugins name q w (v, ok tt) same h)))
  ]
    where
      not_previous : (side : Side) → side ≡ existing_side → is_previous side ≡ true → ⊥
      not_previous existing_side e h = ground arith
      not_previous previous_side e h = ground arith
      not_previous new_side e h = ground arith

  look_up_new-Kept :
      (ex q : ℕ) (w : World Name)
      → Owned plugins name w
      → CleansUp w ex
      → InStacks plugins name w q
      → Kept plugins name (look_up_new plugins name ex w).0 q
  unfolding look_up_new
  look_up_new-Kept ex q w owned target h = elim (Option-cases (lookup name w.new)) [
    | inl e ↦ rw (look_up_new, e) (clean_up-Kept ex q w owned target h)
    | inr e ↦
        rw (look_up_new, e.1)
          (if_ind (KeptAfter plugins name q) (is_new (w.state e.0)) (λ _. inl h)
            (λ _. clean_up-Kept ex q w owned target h))
  ]

  -- `Owned plugins name` and `CleansUp` speak of the stacks alone.
  Owned-same :
      (w : World Name) (d : World Name × Result Unit)
      → SameStacks plugins name w d
      → Owned plugins name w
      → Owned plugins name d.0
  Owned-same w d same owned = (
    λ r e. same.3 r ∙ owned.0 r (ap (λ s. lookup name s) (sym same.0) ∙ e),
    λ r e. same.3 r ∙ owned.1 r (ap (λ s. lookup name s) (sym same.1) ∙ e),
  )

  CleansUp-same :
      (ex : ℕ) (w : World Name) (d : World Name × Result Unit)
      → SameStacks plugins name w d
      → CleansUp w ex
      → CleansUp d.0 ex
  CleansUp-same ex w d same target missing =
      ap (λ s. lookup name s) same.0 ∙ target (ap (λ s. lookup name s) (sym same.2) ∙ missing)

  remove_backup-SameStacks :
      (prev : ℕ) (w : World Name)
      → SameStacks plugins name w (remove_backup_resource plugins prev w)
  unfolding remove_backup_resource
  remove_backup-SameStacks prev w =
      if_ind (SameStacks plugins name w) (is_gone (w.state prev))
        (λ _. (refl, refl, refl, λ q. refl)) (λ _. destroy-SameStacks plugins name prev w)

  process_existing-Kept :
      (ex q : ℕ) (w : World Name)
      → Owned plugins name w
      → CleansUp w ex
      → InStacks plugins name w q
      → Kept plugins name (process_existing_resource_update plugins name ex w).0 q
  unfolding process_existing_resource_update
  process_existing-Kept ex q w owned target h = elim (Option-cases (lookup name w.previous)) [
    | inl e ↦ rw (process_existing_resource_update, e) (look_up_new-Kept ex q w owned target h)
    | inr e ↦
        rw (process_existing_resource_update, e.1)
          (and_then-ind plugins name (KeptAfter plugins name q)
            (remove_backup_resource plugins e.0 w) (look_up_new plugins name ex)
            (λ v x d. inl (
              InStacks-same plugins name q w (v, raise x)
                (subst (SameStacks plugins name w) d (remove_backup-SameStacks e.0 w)) h))
            (λ v d.
              let same = subst (SameStacks plugins name w) d (remove_backup-SameStacks e.0 w) in
              look_up_new-Kept ex q v (Owned-same w (v, ok tt) same owned)
                (CleansUp-same ex w (v, ok tt) same target)
                (InStacks-same plugins name q w (v, ok tt) same h)))
  ]

  -- If the resources under the name know the stack that they are in, and if the resource of the
  -- operation is the one of the existing stack where the new stack lacks the name: whether the operation
  -- of the update returns or raises, and whatever the plug-ins do, each resource that the existing stack
  -- or the previous stack had under the name is still in one of the two, or was never created, or is
  -- deleted.
  pub resource_update-Kept :
      (res q : ℕ) (w : World Name)
      → Owned plugins name w
      → CleansUp w res
      → InStacks plugins name w q
      → Kept plugins name (resource_update plugins name res w).0 q
  unfolding resource_update
  resource_update-Kept res q w owned target h = elim (Option-cases (lookup name w.new)) [
    | inl e ↦ rw (resource_update, e) (process_existing-Kept res q w owned target h)
    | inr e ↦
        rw (resource_update, e.1)
          (if_ind (KeptAfter plugins name q) (e.0 == res)
            (λ _. process_new-Kept plugins name res q w owned h)
            (λ _. process_existing-Kept res q w owned target h))
  ]
