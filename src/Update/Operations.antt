-- ===== src/Update/Operations.antt =====
-- The operations of StackUpdate: `_resource_update` and what it calls, each run from its start to its
-- end. A resource is an object, known by a number; the stacks are dicts from names to objects. How the
-- `destroy`, the `create` and the `update` of each object end is an argument.
use heat.Prelude.{
  ℕ, Bool, true, false, not, ◌&&◌, ◌||◌, none, some, Eq, ◌==◌, nat_eq, if◌then◌else◌,
}
use heat.Dict.{Dict, lookup, put, delete, has_key}
use heat.Scheduler.Coroutine.{Exn, key_error, resource_failure, Result, ok, raise}
use heat.Resource.Lifecycle.{
  Action, create_action, delete_action, update_action, Status, in_progress, failed, complete, State,
  is_complete, is_in_progress, is_init, is_delete, is_update_like,
}

-- `existing_stack`, `previous_stack`, `new_stack`
pub data Side : Type 0 where
  existing_side previous_side new_side : Side

abbrev pub is_previous : Side → Bool
is_previous previous_side = true
is_previous _ = false

pub data InPlace : Type 0 where
  -- `existing_res.update` returns at once, or raises UpdateReplace at once
  unchanged other_class : InPlace
  -- an exception before the state is set, such as one of `resolve_runtime_data`
  not_begun : Exn → InPlace
  -- the update is done, or `handle_update` raises UpdateReplace or an Exception
  in_place replaced update_fails : InPlace
  -- an exception that `update` does not catch, such as one of the last `resolve_static_data`
  left_in_progress : Exn → InPlace

pub data Creation : Type 0 where
  created create_fails : Creation
  -- an exception of `resolve_static_data`, which stands before `_do_action`
  unprepared : Exn → Creation

pub record World (Name : Type 0) : Type 0 where
  pub existing : Dict Name ℕ
  pub previous : Dict Name ℕ
  pub new : Dict Name ℕ
  -- `r.state` and `r.stack`
  pub state : ℕ → State
  pub stack : ℕ → Side

-- What the plug-ins do to each object.
pub record Plugins : Type 0 where
  pub destroys : ℕ → Bool
  pub creates : ℕ → Creation
  pub updates : ℕ → InPlace

-- The state is (INIT, COMPLETE) or (DELETE, COMPLETE).
abbrev pub is_gone : State → Bool
is_gone s = (is_init s.action || is_delete s.action) && is_complete s.status

abbrev pub is_new : State → Bool
is_new s = is_init s.action && is_complete s.status

module _ {Name : Type 0} ⦃n : Eq Name⦄ where
  abbrev pub with_state : ℕ → Action → Status → World Name → World Name
  with_state r action status w = record w {
    state = λ q. if r == q then record { action = action; status = status } else w.state q;
  }

  -- `stack[name] = r`, which sets `r.stack` too
  unfoldable pub put_in : Side → Name → ℕ → World Name → World Name
  unfolding put
  put_in existing_side name r w = record w {
    existing = put name r w.existing;
    stack = λ q. if r == q then existing_side else w.stack q;
  }
  put_in previous_side name r w = record w {
    previous = put name r w.previous;
    stack = λ q. if r == q then previous_side else w.stack q;
  }
  put_in new_side name r w = record w {
    new = put name r w.new;
    stack = λ q. if r == q then new_side else w.stack q;
  }

  abbrev pub and_then :
      World Name × Result Unit → (World Name → World Name × Result Unit) → World Name × Result Unit
  and_then (w, ok u) next = next w
  and_then (w, raise x) next = (w, raise x)

  -- `_exchange_stacks(existing_res, prev_res)`, both under one name
  unfoldable pub exchange_stacks : Name → ℕ → ℕ → World Name → World Name
  unfolding put_in
  exchange_stacks name ex prev w = put_in (w.stack ex) name prev (put_in (w.stack prev) name ex w)

  -- The previous object takes the place of the existing one, which has to be there.
  unfoldable pub swap_in : Name → ℕ → World Name → World Name × Result Unit
  unfolding exchange_stacks lookup
  swap_in name prev w = elim (lookup name w.existing) [
    | none ↦ (w, raise key_error)
    | some ex ↦ (exchange_stacks name ex prev w, ok tt)
  ]

  -- `if res_name not in self.new_stack: del self.existing_stack[res_name]`
  unfoldable pub drop_unwanted : Name → World Name → World Name × Result Unit
  unfolding lookup delete
  drop_unwanted name w =
      if has_key name w.new
      then (w, ok tt)
      else (if has_key name w.existing
          then (record w { existing = delete name w.existing }, ok tt)
          else (w, raise key_error))

module _ {Name : Type 0} ⦃n : Eq Name⦄ (plugins : Plugins) where
  -- `yield r.destroy()`
  unfoldable pub destroy : ℕ → World Name → World Name × Result Unit
  destroy r w =
      let s = w.state r in
      if is_init s.action || is_delete s.action && is_complete s.status
      then (w, ok tt)
      else (if plugins.destroys r
          then (with_state r delete_action complete w, ok tt)
          else (with_state r delete_action failed w, raise resource_failure))

  -- `create` from `resolve_static_data` on
  unfoldable pub created_as : Creation → ℕ → World Name → World Name × Result Unit
  created_as created r w = (with_state r create_action complete w, ok tt)
  created_as create_fails r w = (with_state r create_action failed w, raise resource_failure)
  created_as (unprepared x) r w = (w, raise x)

  -- `yield r.create()`
  unfoldable pub create_object : ℕ → World Name → World Name × Result Unit
  unfolding created_as
  create_object r w =
      let s = w.state r in
      if not (is_init s.action && is_complete s.status)
      then (w, raise resource_failure)
      else created_as (plugins.creates r) r w

  -- `_remove_backup_resource(prev_res)`
  unfoldable pub remove_backup_resource : ℕ → World Name → World Name × Result Unit
  unfolding destroy
  remove_backup_resource prev w = if is_gone (w.state prev) then (w, ok tt) else destroy prev w

  -- `_create_resource` from the back-up of the existing resource on
  unfoldable pub back_up_and_create : Name → ℕ → World Name → World Name × Result Unit
  unfolding put_in create_object lookup
  back_up_and_create name new_res w = elim (lookup name w.existing) [
    | none ↦ create_object new_res (put_in existing_side name new_res w)
    | some ex ↦ create_object new_res (
        put_in existing_side name new_res
          (with_state ex update_action complete (put_in previous_side name ex w)))
  ]

  -- `_create_resource(new_res)`
  unfoldable pub create_resource : Name → ℕ → World Name → World Name × Result Unit
  unfolding back_up_and_create swap_in destroy lookup
  create_resource name new_res w = elim (lookup name w.previous) [
    | none ↦ back_up_and_create name new_res w
    | some prev ↦
        if is_gone (w.state prev)
        then back_up_and_create name new_res w
        else (if is_complete (w.state prev).status
            then swap_in name prev w
            else and_then (destroy prev w) (back_up_and_create name new_res))
  ]

  -- Behind `state_set(UPDATE, IN_PROGRESS)` of the existing object; UpdateReplace leads to a new object.
  unfoldable pub ran_as : InPlace → Name → ℕ → ℕ → World Name → World Name × Result Unit
  unfolding create_resource
  ran_as in_place name ex new_res w = (with_state ex update_action complete w, ok tt)
  ran_as replaced name ex new_res w = create_resource name new_res w
  ran_as (left_in_progress x) name ex new_res w = (w, raise x)
  ran_as _ name ex new_res w = (with_state ex update_action failed w, raise resource_failure)

  -- An update that is already requested fails without a change of the state.
  unfoldable pub begun_as : InPlace → Name → ℕ → ℕ → World Name → World Name × Result Unit
  unfolding ran_as
  begun_as u name ex new_res w =
      let s = w.state ex in
      if is_update_like s.action && is_in_progress s.status
      then (w, raise resource_failure)
      else ran_as u name ex new_res (with_state ex update_action in_progress w)

  -- `existing_res.update(...)`, and what follows it.
  unfoldable pub updated_as : InPlace → Name → ℕ → ℕ → World Name → World Name × Result Unit
  unfolding begun_as create_resource
  updated_as unchanged name ex new_res w = (w, ok tt)
  updated_as other_class name ex new_res w = create_resource name new_res w
  updated_as (not_begun x) name ex new_res w = (w, raise x)
  updated_as u name ex new_res w = begun_as u name ex new_res w

  -- `_process_new_resource_update(new_res)`
  unfoldable pub process_new_resource_update : Name → ℕ → World Name → World Name × Result Unit
  unfolding updated_as create_resource lookup
  process_new_resource_update name new_res w = elim (lookup name w.existing) [
    | none ↦ create_resource name new_res w
    | some ex ↦ updated_as (plugins.updates ex) name ex new_res w
  ]

  -- `_process_existing_resource_update` from the look-up in the new stack on
  unfoldable pub clean_up : Name → ℕ → World Name → World Name × Result Unit
  unfolding destroy drop_unwanted
  clean_up name ex w =
      and_then (if is_previous (w.stack ex) then (w, ok tt) else destroy ex w) (drop_unwanted name)

  unfoldable pub look_up_new : Name → ℕ → World Name → World Name × Result Unit
  unfolding clean_up lookup
  look_up_new name ex w = elim (lookup name w.new) [
    | none ↦ clean_up name ex w
    | some new_res ↦ if is_new (w.state new_res) then (w, ok tt) else clean_up name ex w
  ]

  -- `_process_existing_resource_update(existing_res)`
  unfoldable pub process_existing_resource_update : Name → ℕ → World Name → World Name × Result Unit
  unfolding look_up_new remove_backup_resource lookup
  process_existing_resource_update name ex w = elim (lookup name w.previous) [
    | none ↦ look_up_new name ex w
    | some prev ↦ and_then (remove_backup_resource prev w) (look_up_new name ex)
  ]

  -- `_resource_update(res)`
  unfoldable pub resource_update : Name → ℕ → World Name → World Name × Result Unit
  unfolding process_new_resource_update process_existing_resource_update lookup
  resource_update name res w = elim (lookup name w.new) [
    | none ↦ process_existing_resource_update name res w
    | some r ↦
        if r == res
        then process_new_resource_update name res w
        else process_existing_resource_update name res w
  ]
