-- ===== src/Update.antt =====
-- heat/engine/update.py: the update of a stack to a new template. `Edges` models the dependencies
-- between the operations of an update; the other children are named for what they prove.
pub mod Edges
pub mod Acyclic
pub mod Operations
pub mod Kept
pub mod Created
pub mod CleanedUp
pub mod Completed
mod Samples
