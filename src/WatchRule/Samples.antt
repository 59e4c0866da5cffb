-- ===== src/WatchRule/Samples.antt =====
-- `rule_can_use_sample` and `create_watch_data` of watchrule.py: which pushed samples a rule takes.
-- The data of a sample is a dict from metric names to values with dimensions.
use heat.Prelude.{
  Bool, true, false, ◌&&◌, none, some, List, [], ◌∷◌, String, ◌==◌, string_eq, if◌then◌else◌,
}
use heat.Dict.{Dict, lookup, has_key}
use heat.WatchRule.Statistics.{WatchState, suspended, ceilometer_controlled}
use heat.WatchRule.Rule.{same_state}

abbrev pub Dimensions : Type 0
Dimensions = Dict String String

-- What a metric of the sample carries under 'Dimensions': nothing, a dict, or a list of dicts.
pub data Carried : Type 0 where
  absent : Carried
  single : Dimensions → Carried
  several : Dimensions → List Dimensions → Carried

-- `v.get('Dimensions', {})`, and the head of it if it is a list
unfoldable pub data_dims : Carried → Dimensions
data_dims absent = []
data_dims (single d) = d
data_dims (several d ds) = d

-- What of a watch the choice reads: its state, the metric that it names and the dimensions that it
-- asks for, both as its kind of rule spells them.
pub record Selector : Type 0 where
  pub state : WatchState
  pub metric : String
  pub rule_dims : Dimensions

-- `match_dimesions(rule, data)`
unfoldable pub match_dimesions : Dimensions → Dimensions → Bool
match_dimesions [] data_ = true
match_dimesions ((k, v) ∷ rule) data_ = elim (lookup k data_) [
  | none ↦ false
  | some w ↦ if v == w then match_dimesions rule data_ else false
]

-- The loop over the items of the sample.
unfoldable pub any_match : String → Dimensions → Dict String Carried → Bool
any_match metric rule_dims [] = false
any_match metric rule_dims ((k, v) ∷ items) =
    let rest = any_match metric rule_dims items in
    if k == "Namespace"
    then rest
    else (if k == metric && match_dimesions rule_dims (data_dims v) then true else rest)

-- `rule_can_use_sample(wr, stats_data)`
unfoldable pub rule_can_use_sample : Selector → Dict String Carried → Bool
unfolding same_state any_match match_dimesions data_dims
rule_can_use_sample s stats =
    if same_state s.state suspended
    then false
    else (if has_key s.metric stats then any_match s.metric s.rule_dims stats else false)

-- What `create_watch_data` does with the data: it goes to ceilometer, it is dropped, or it is stored.
pub data Created : Type 0 where
  to_ceilometer dropped stored : Created

unfoldable pub create_watch_data : Selector → Dict String Carried → Created
unfolding same_state
create_watch_data s stats =
    if same_state s.state ceilometer_controlled
    then to_ceilometer
    else (if same_state s.state suspended
        then dropped
        else (if has_key s.metric stats then stored else dropped))
