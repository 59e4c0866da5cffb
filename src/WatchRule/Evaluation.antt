-- ===== src/WatchRule/Evaluation.antt =====
-- The state machine of a watch: when `evaluate` runs the rule, what it may come to, and what it
-- signals to the stack.
use heat.Prelude.{
  ℕ, ◌+◌, ◌≤◌, true, false, ◌≡◌, ◌≢◌, refl, ◌⊎◌, inl, inr, none, some, List, [], ◌∷◌, ltb, arith,
  String, Option-cases, Bool-cases, All, subst, sym,
}
use heat.WatchRule.Numbers.{Numbers}
use heat.WatchRule.Statistics.{
  WatchState, alarm, normal, nodata, suspended, ceilometer_controlled, Operator, Statistic, Datum,
  get_alarm_state,
}
use heat.WatchRule.Rule.{
  Result, ok, raise, Error, StackView, Watch, same_state, rule_actions, run_rule, finish_run,
  evaluate, store, signals, actions_for,
}

Result-cases : {A : Type 0} (r : Result A) → ((a : A) × (r ≡ ok a)) ⊎ ((x : Error) × (r ≡ raise x))
Result-cases (ok a) = inl (a, refl)
Result-cases (raise x) = inr (x, refl)

module _ (n : Numbers) where
  -- A state that the statistics give: never one that only an operator sets.
  abbrev pub IsMeasured : WatchState → Type 0
  IsMeasured alarm = Unit
  IsMeasured normal = Unit
  IsMeasured nodata = Unit
  IsMeasured suspended = ⊥
  IsMeasured ceilometer_controlled = ⊥

  get_alarm_state-IsMeasured :
      (now period : ℕ) (op : Operator) (threshold : n.F) (st : Statistic) (ds : List (Datum n))
      (s : WatchState)
      → get_alarm_state n now period op threshold st ds ≡ some s
      → IsMeasured s
  unfolding get_alarm_state
  get_alarm_state-IsMeasured now period op threshold st ds suspended h = absurd (ground arith)
  get_alarm_state-IsMeasured now period op threshold st ds ceilometer_controlled h =
      absurd (ground arith)
  get_alarm_state-IsMeasured now period op threshold st ds _ h = tt

  -- What a run of the rule leaves: a measured state, in the watch and in its row, evaluated `now`.
  pub record Ran (now : ℕ) (w w' : Watch n) : Type 0 where
    pub measured : IsMeasured w'.state
    pub in_row : w'.stored ≡ some w'.state
    pub evaluated : w'.last_evaluated ≡ now
    pub due : w.last_evaluated + w.period ≤ now
    pub not_suspended : w.state ≢ suspended

  module _ (stack : StackView) (now : ℕ) (w : Watch n) where
    finish_run_effect :
        (s : WatchState) (r : Result (List String))
        → ((finish_run n now w s r).1 ≡ w)
          ⊎ ((finish_run n now w s r).1 ≡ store n (record w { state = s; last_evaluated = now }))
    unfolding finish_run
    finish_run_effect s (raise x) = inl refl
    finish_run_effect s (ok actions) = inr refl

    run_rule_effect :
        ((run_rule n stack now w).1 ≡ w)
        ⊎ ((s : WatchState) × IsMeasured s
            × ((run_rule n stack now w).1 ≡ store n (record w { state = s; last_evaluated = now })))
    unfolding run_rule
    run_rule_effect =
        elim (Option-cases
          (get_alarm_state n now w.period w.operator w.threshold w.statistic w.watch_data)) [
            | inl missing ↦ inl (rw (missing, run_rule))
            | inr (s, given) ↦ elim (finish_run_effect s (rule_actions n stack w s)) [
              | inl same ↦ inl (rw (given, run_rule) same)
              | inr ran ↦ inr (
                s,
                get_alarm_state-IsMeasured now w.period w.operator w.threshold w.statistic
                    w.watch_data s given,
                rw (given, run_rule) ran,
              )
            ]
          ]

    same_state-suspended : same_state w.state suspended ≡ false → w.state ≢ suspended
    unfolding same_state
    same_state-suspended h = λ e. ground arith

    -- `evaluate` either leaves the watch as it is, or the watch was not suspended, its period was
    -- over, and its state is now one of the three that the statistics give, in the row too.
    pub evaluate_effect : ((evaluate n stack now w).1 ≡ w) ⊎ Ran now w (evaluate n stack now w).1
    unfolding evaluate
    evaluate_effect = elim (Bool-cases (same_state w.state suspended)) [
      | inl asleep ↦ inl (rw asleep)
      | inr awake ↦ elim (Bool-cases (ltb now (w.last_evaluated + w.period))) [
        | inl early ↦ inl (ground arith)
        | inr due ↦ elim run_rule_effect [
          | inl same ↦ inl (ground (arith, same))
          | inr (s, measured, ran) ↦ inr (
              subst (Ran now w) {x = store n (record w { state = s; last_evaluated = now })}
                (ground (arith, ran))
                (record {
                  measured = measured;
                  in_row = refl;
                  evaluated = refl;
                  due = ground arith;
                  not_suspended = same_state-suspended awake;
                }))
        ]
      ]
    ]

    signals_known :
        (refids actions : List String)
        → signals n stack refids ≡ ok actions
        → (actions ≡ refids) × All (λ r. stack.has_refid r ≡ true) refids
    unfolding signals
    signals_known [] actions h = (ground arith, tt)
    signals_known (r ∷ rest) actions h = elim (Result-cases (signals n stack rest)) [
      | inr (x, failed) ↦ absurd (ground arith)
      | inl (others, given) ↦
          let (same, known) = signals_known rest others given in
          (ground arith, (ground arith, known))
    ]

    -- Where `rule_actions` returns an action, the stack is complete and not being deleted, and the
    -- actions are the signals of some reference ids.
    rule_actions_known :
        (s : WatchState) (refid : String) (refids : List String)
        → rule_actions n stack w s ≡ ok (refid ∷ refids)
        → (ids : List String) × (stack.deleting ≡ false)
          × (stack.complete ≡ true)
          × (signals n stack ids ≡ ok (refid ∷ refids))
    unfolding rule_actions
    rule_actions_known s refid refids h = elim (Option-cases (actions_for n w s)) [
      | inl missing ↦ absurd (ground arith)
      | inr (none, given) ↦ absurd (ground arith)
      | inr (some ids, given) ↦ (ids, ground arith, ground arith, ground arith)
    ]

    -- If `rule_actions` returns any action, then the stack is complete and is not being deleted,
    -- and has every resource that is signalled.
    pub rule_actions_allowed :
        (s : WatchState) (refid : String) (refids : List String)
        → rule_actions n stack w s ≡ ok (refid ∷ refids)
        → (stack.deleting ≡ false)
          × (stack.complete ≡ true)
          × All (λ r. stack.has_refid r ≡ true) (refid ∷ refids)
    rule_actions_allowed s refid refids h =
        let (ids, active, complete, sent) = rule_actions_known s refid refids h in
        let (same, known) = signals_known ids (refid ∷ refids) sent in
        (active, complete, subst (All (λ r. stack.has_refid r ≡ true)) (sym same) known)
