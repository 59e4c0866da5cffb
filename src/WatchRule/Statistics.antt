-- ===== src/WatchRule/Statistics.antt =====
-- The statistics of watchrule.py: `do_data_cmp`, the `do_…` methods and `get_alarm_state`. Times are
-- seconds; `d.created_at < self.now - self.timeperiod` is written without the difference, which
-- could fall below the origin.
use heat.Prelude.{
  ℕ, ◌+◌, Bool, false, not, Option, none, some, List, [], ◌∷◌, ltb, if◌then◌else◌, nat_beq,
}
use heat.WatchRule.Numbers.{Numbers}

pub data WatchState : Type 0 where
  alarm normal nodata suspended ceilometer_controlled : WatchState

pub data Operator : Type 0 where
  greater_than_threshold greater_than_or_equal_to_threshold : Operator
  less_than_threshold less_than_or_equal_to_threshold : Operator
  other_operator : Operator

pub data Statistic : Type 0 where
  maximum minimum sample_count average sum : Statistic
  -- a name with no `do_…` method
  other_statistic : Statistic

module _ (n : Numbers) where
  open n use {F, less, zero_f, add, divide, of_count}

  -- A row of `watch_data`, with `float(d.data[MetricName]['Value'])`.
  pub record Datum : Type 0 where
    pub created_at : ℕ
    pub value : F

  -- `do_data_cmp(data, threshold)`
  unfoldable pub do_data_cmp : Operator → F → F → Bool
  do_data_cmp greater_than_threshold data_ threshold = less threshold data_
  do_data_cmp greater_than_or_equal_to_threshold data_ threshold = not (less data_ threshold)
  do_data_cmp less_than_threshold data_ threshold = less data_ threshold
  do_data_cmp less_than_or_equal_to_threshold data_ threshold = not (less threshold data_)
  do_data_cmp other_operator data_ threshold = false

  -- The `if` at the end of each method, and the test of `have_data` before it.
  abbrev pub compared : Operator → F → F → WatchState
  compared op threshold data_ = if do_data_cmp op data_ threshold then alarm else normal

  abbrev pub compared? : Operator → F → Option F → WatchState
  compared? op threshold none = nodata
  compared? op threshold (some data_) = compared op threshold data_

  -- The test at the head of each loop: the row is too old to count.
  abbrev pub is_old : ℕ → ℕ → Datum → Bool
  is_old now period d = ltb (d.created_at + period) now

  module _ (now period : ℕ) where
    -- The loop of `do_Maximum`; `none` stands for `have_data` being False.
    unfoldable pub max_loop : Option F → List Datum → Option F
    max_loop best [] = best
    max_loop best (d ∷ ds) =
        max_loop
          (if is_old now period d then best else elim best [
            | none ↦ some d.value
            | some data_ ↦ if less data_ d.value then some d.value else some data_
          ])
          ds

    -- The loop of `do_Minimum`.
    unfoldable pub min_loop : Option F → List Datum → Option F
    min_loop best [] = best
    min_loop best (d ∷ ds) =
        min_loop
          (if is_old now period d then best else elim best [
            | none ↦ some d.value
            | some data_ ↦ if less d.value data_ then some d.value else some data_
          ])
          ds

    -- The loop of `do_SampleCount`.
    unfoldable pub count_loop : ℕ → List Datum → ℕ
    count_loop data_ [] = data_
    count_loop data_ (d ∷ ds) = count_loop (if is_old now period d then data_ else data_ + 1) ds

    -- The loop of `do_Sum`, and the sum of the loop of `do_Average`.
    unfoldable pub sum_loop : F → List Datum → F
    sum_loop data_ [] = data_
    sum_loop data_ (d ∷ ds) = sum_loop (if is_old now period d then data_ else add data_ d.value) ds

    module _ (op : Operator) (threshold : F) where
      unfoldable pub do_maximum : List Datum → WatchState
      unfolding max_loop
      do_maximum ds = compared? op threshold (max_loop none ds)

      unfoldable pub do_minimum : List Datum → WatchState
      unfolding min_loop
      do_minimum ds = compared? op threshold (min_loop none ds)

      unfoldable pub do_sample_count : List Datum → WatchState
      unfolding count_loop
      do_sample_count ds = compared op threshold (of_count (count_loop 0 ds))

      unfoldable pub do_average : List Datum → WatchState
      unfolding count_loop sum_loop
      do_average ds =
          let samples = count_loop 0 ds in
          if nat_beq samples 0
          then nodata
          else compared op threshold (divide (sum_loop zero_f ds) samples)

      unfoldable pub do_sum : List Datum → WatchState
      unfolding sum_loop
      do_sum ds = compared op threshold (sum_loop zero_f ds)

      -- `get_alarm_state`; `none` is the AttributeError of a statistic with no method.
      unfoldable pub get_alarm_state : Statistic → List Datum → Option WatchState
      unfolding do_maximum do_minimum do_sample_count do_average do_sum
      get_alarm_state maximum ds = some (do_maximum ds)
      get_alarm_state minimum ds = some (do_minimum ds)
      get_alarm_state sample_count ds = some (do_sample_count ds)
      get_alarm_state average ds = some (do_average ds)
      get_alarm_state sum ds = some (do_sum ds)
      get_alarm_state other_statistic ds = none
