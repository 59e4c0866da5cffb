-- ===== src/Scheduler.antt =====
-- heat/engine/scheduler.py: tasks as co-routines, the `TaskRunner` that steps one of them, and the
-- groups that step several. `Coroutine` models Python's generators and exceptions, `Runner` the
-- class TaskRunner, `Group` the class DependencyTaskGroup, `Polling` the
-- class PollingTaskGroup, `Wrapped` the decorator wrappertask; the other children are named for what
-- they prove.
pub mod Coroutine
pub mod Runner
pub mod Group
pub mod Stepping
pub mod Completion
pub mod Ordering
pub mod Requirements
pub mod Revival
pub mod Polling
pub mod Polled
pub mod Wrapped
pub mod Delegation
mod Samples
