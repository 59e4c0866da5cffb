-- ===== src/Resource/Lifecycle.antt =====
-- The actions of a resource as co-routines. What runs inside the `try` (the validation of the
-- properties, the template differences of an update, and the plug-in with `handle_create`,
-- `check_create_complete` and so on) is a parameter, the code of a generator. The first part of a
-- method runs to its first `yield`; behind each `yield` the `settle` function of the method follows.
use heat.Prelude.{Option, none, some, Bool, true, false, ◌||◌, ◌&&◌, not, if◌then◌else◌}
use heat.Scheduler.Coroutine.{
  Exn, is_exception, resource_failure, update_replace, Resumed, yields, stops, raises, Body,
}

pub data Action : Type 0 where
  init create_action delete_action update_action rollback suspend resume adopt : Action

pub data Status : Type 0 where
  in_progress failed complete : Status

pub record State : Type 0 where
  pub action : Action
  pub status : Status

abbrev pub is_complete : Status → Bool
is_complete complete = true
is_complete _ = false

abbrev pub is_in_progress : Status → Bool
is_in_progress in_progress = true
is_in_progress _ = false

abbrev pub is_init : Action → Bool
is_init init = true
is_init _ = false

abbrev pub is_delete : Action → Bool
is_delete delete_action = true
is_delete _ = false

-- `action in (CREATE, UPDATE, ADOPT)`
abbrev pub is_update_like : Action → Bool
is_update_like create_action = true
is_update_like update_action = true
is_update_like adopt = true
is_update_like _ = false

-- What an `except Exception` clause makes of an exception; the bare `except` lets the others through.
abbrev pub failure : Exn → Exn
failure x = if is_exception x then resource_failure else x

abbrev pub is_update_replace : Exn → Bool
is_update_replace update_replace = true
is_update_replace _ = false

module _ {S : Type 0} where
  -- The `except` clauses and the end of `_do_action`, and likewise of `delete`.
  unfoldable pub settle : Action → Resumed S → State → State × Resumed S
  settle action (yields s) state = (state, yields s)
  settle action stops state = (record { action = action; status = complete }, stops)
  settle action (raises x) state = (record { action = action; status = failed }, raises (failure x))

  -- `_do_action(action)`, whose `handle` and `check` are `body`
  unfoldable pub do_action : Action → Body S → State × Resumed S
  unfolding settle
  do_action action body =
      settle action body.first (record { action = action; status = in_progress })

  -- `create()`. `resolved` is what `resolve_static_data` and the constructor of Properties make of the
  -- snippet: an exception, if there is one.
  unfoldable pub create : Option Exn → Body S → State → State × Resumed S
  unfolding do_action
  create resolved body state =
      if is_init state.action && is_complete state.status
      then elim resolved [ some x ↦ (state, raises x) | none ↦ do_action create_action body ]
      else (state, raises resource_failure)

  -- `delete()`
  unfoldable pub delete : Body S → State → State × Resumed S
  unfolding settle
  delete body state =
      if is_delete state.action && is_complete state.status || is_init state.action
      then (state, stops)
      else settle delete_action body.first (record { action = delete_action; status = in_progress })

  -- The `except` clauses and the end of `update`: UpdateReplace goes on without a change of the
  -- state, and so does what is no Exception, since `update` has no bare `except`. `resolved` is the
  -- exception of `resolve_static_data(after)`, if there is one: no clause catches it.
  unfoldable pub settle_update : Option Exn → Resumed S → State → State × Resumed S
  settle_update resolved (yields s) state = (state, yields s)
  settle_update (some x) stops state = (state, raises x)
  settle_update none stops state = (record { action = update_action; status = complete }, stops)
  settle_update resolved (raises x) state =
      if is_update_replace x || not (is_exception x)
      then (state, raises x)
      else (record { action = update_action; status = failed }, raises resource_failure)

  -- `update(after, before, prev_resource)`, which StackUpdate calls with a `before`: whether the class of
  -- the previous resource is another, and whether version and template are the same, are the first two
  -- arguments.
  unfoldable pub update : Bool → Bool → Option Exn → Body S → State → State × Resumed S
  unfolding settle_update
  update other_class same resolved body state =
      if other_class
      then (state, raises update_replace)
      else (if same
          then (state, stops)
          else (if is_update_like state.action && is_in_progress state.status
              then (state, raises resource_failure)
              else settle_update resolved body.first
                  (record { action = update_action; status = in_progress })))
