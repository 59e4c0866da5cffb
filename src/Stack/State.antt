-- ===== src/Stack/State.antt =====
-- The state of a stack. A row in the database is there while the stack has an id.
use heat.Prelude.{Bool, true, false, Option, none, some}
use heat.Scheduler.Coroutine.{Exn, timed_out, resource_failure}

pub data Action : Type 0 where
  create_action delete_action update_action rollback_action : Action
  suspend_action resume_action adopt_action : Action

pub data Status : Type 0 where
  in_progress failed complete : Status

abbrev pub is_update : Action → Bool
is_update update_action = true
is_update _ = false

abbrev pub is_rollback : Action → Bool
is_rollback rollback_action = true
is_rollback _ = false

abbrev pub is_delete : Action → Bool
is_delete delete_action = true
is_delete _ = false

abbrev pub is_complete : Option (Action × Status) → Bool
is_complete (some (a, complete)) = true
is_complete _ = false

abbrev pub is_failed : Option (Action × Status) → Bool
is_failed (some (a, failed)) = true
is_failed _ = false

-- `T` stands for templates and `E` for environments.
pub record Stack (T E : Type 0) : Type 0 where
  -- `(self.action, self.status)`; both are None at first
  pub state : Option (Action × Status)
  -- the action and the status in the row, if there is one
  pub row : Option (Action × Status)
  pub disable_rollback : Bool
  pub template : T
  pub env : E

-- The exceptions that end an action with the status FAILED: ResourceFailure and Timeout.
abbrev pub is_caught : Exn → Bool
is_caught resource_failure = true
is_caught timed_out = true
is_caught _ = false

module _ {T E : Type 0} where
  -- `state_set(action, status, reason)`, for an action of ACTIONS and a status of STATUSES
  unfoldable pub state_set : Action → Status → Stack T E → Stack T E
  state_set action status s = elim s.row [
    | none ↦ record s { state = some (action, status) }
    | some r ↦ record s { state = some (action, status); row = some (action, status) }
  ]

  -- `store()`: the row is written, or created.
  unfoldable pub store : Stack T E → Stack T E
  store s = record s { row = s.state }
