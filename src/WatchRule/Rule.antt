-- ===== src/WatchRule/Rule.antt =====
-- The methods of WatchRule in watchrule.py that read or change the state of a watch. What they read
-- of the stack and of the clock is an argument; a row of the database is what `store` wrote last.
use heat.Prelude.{
  ℕ, ◌+◌, Bool, true, false, not, ◌&&◌, Option, none, some, List, [], ◌∷◌, ltb, if◌then◌else◌,
  String,
}
use heat.WatchRule.Numbers.{Numbers}
use heat.WatchRule.Statistics.{
  WatchState, alarm, normal, nodata, suspended, ceilometer_controlled, Operator, Statistic, Datum,
  get_alarm_state,
}

pub data Error : Type 0 where
  attribute_error key_error : Error

pub data Result (A : Type 0) : Type 0 where
  ok : A → Result A
  raise : Error → Result A

-- Whether two states are the same.
unfoldable pub same_state : WatchState → WatchState → Bool
same_state alarm alarm = true
same_state normal normal = true
same_state nodata nodata = true
same_state suspended suspended = true
same_state ceilometer_controlled ceilometer_controlled = true
same_state _ _ = false

-- What `rule_actions` reads of the stack: its action and status, and the resource that a reference
-- id names, if there is one.
pub record StackView : Type 0 where
  pub deleting : Bool
  pub complete : Bool
  pub has_refid : String → Bool

module _ (n : Numbers) where
  open n use {F}

  pub record Watch : Type 0 where
    pub state : WatchState
    pub period : ℕ
    pub statistic : Statistic
    pub operator : Operator
    pub threshold : F
    -- `self.rule[AlarmActions]` and so on, where the rule has the key
    pub alarm_actions : Option (List String)
    pub ok_actions : Option (List String)
    pub insufficient_data_actions : Option (List String)
    pub watch_data : List (Datum n)
    pub last_evaluated : ℕ
    -- the state in the row of the database, once `store` was called
    pub stored : Option WatchState

  -- `self.store()`
  abbrev pub store : Watch → Watch
  store w = record w { stored = some w.state }

  -- `ACTION_MAP[state]`, and then the actions of the rule under that name; the outer `none` is the
  -- KeyError of a state that is not in the map.
  unfoldable pub actions_for : Watch → WatchState → Option (Option (List String))
  actions_for w alarm = some w.alarm_actions
  actions_for w normal = some w.ok_actions
  actions_for w nodata = some w.insufficient_data_actions
  actions_for w suspended = none
  actions_for w ceilometer_controlled = none

  -- `actions.append(stack.resource_by_refid(refid).signal)` for each id: the resource's id stands
  -- for its method. An id that names no resource gives None, which has no attribute `signal`.
  unfoldable pub signals : StackView → List String → Result (List String)
  signals stack [] = ok []
  signals stack (refid ∷ rest) =
      let others = signals stack rest in
      if stack.has_refid refid
      then elim others [ ok actions ↦ ok (refid ∷ actions) | raise x ↦ raise x ]
      else raise attribute_error

  -- `rule_actions(new_state)`
  unfoldable pub rule_actions : StackView → Watch → WatchState → Result (List String)
  unfolding actions_for
  rule_actions stack w new_state = elim (actions_for w new_state) [
    | none ↦ raise key_error
    | some none ↦ ok []
    | some (some refids) ↦
        if not stack.deleting && stack.complete then signals stack refids else ok []
  ]

  unfoldable pub finish_run :
      ℕ → Watch → WatchState → Result (List String) → Result (List String) × Watch
  finish_run now w new_state (raise x) = (raise x, w)
  finish_run now w new_state (ok actions) =
      (ok actions, store (record w { state = new_state; last_evaluated = now }))

  -- `run_rule`, at the time `now` that `evaluate` has read
  unfoldable pub run_rule : StackView → ℕ → Watch → Result (List String) × Watch
  unfolding finish_run
  run_rule stack now w =
      elim (get_alarm_state n now w.period w.operator w.threshold w.statistic w.watch_data) [
        | none ↦ (raise attribute_error, w)
        | some new_state ↦ finish_run now w new_state (rule_actions stack w new_state)
      ]

  -- `evaluate`
  unfoldable pub evaluate : StackView → ℕ → Watch → Result (List String) × Watch
  evaluate stack now w =
      if same_state w.state suspended
      then (ok [], w)
      else (if ltb now (w.last_evaluated + w.period) then (ok [], w) else run_rule stack now w)

  -- `state_set(state)`, for a state of WATCH_STATES
  unfoldable pub state_set : WatchState → Watch → Watch
  state_set state w = store (record w { state = state })

  -- `set_watch_state(state)`, for a state of WATCH_STATES. It changes nothing.
  unfoldable pub set_watch_state : StackView → WatchState → Watch → Result (List String)
  unfolding same_state
  set_watch_state stack state w =
      if same_state state w.state then ok [] else rule_actions stack w state
