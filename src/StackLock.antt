-- ===== src/StackLock.antt =====
-- heat/engine/stack_lock.py, with the transactions of heat/db/sqlalchemy/api.py that it calls.
-- `Table` models the table of locks, `Acquire` the class StackLock as the sequence of its
-- transactions, and `System` any number of threads of any number of engines that interleave them.
pub mod Table
pub mod Acquire
pub mod Steps
pub mod System
pub mod Late
pub mod Exclusion
pub mod Ending
mod Samples
