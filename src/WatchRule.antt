-- ===== src/WatchRule.antt =====
-- heat/engine/watchrule.py: alarms on metrics. `Numbers` is what the rules use of floating-point
-- numbers, `Statistics` models the `do_…` methods, `Rule` the methods that change the state of a
-- watch, `Samples` the choice of the rules that a sample is for; the other children are named for
-- what they prove.
pub mod Numbers
pub mod Statistics
pub mod Rule
pub mod Samples
pub mod Extremes
pub mod Evaluation
mod Tests
