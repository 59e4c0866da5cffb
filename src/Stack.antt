-- ===== src/Stack.antt =====
-- heat/engine/parser.py: the life of a stack. `State` models the state and its row in the database,
-- `Tasks` the actions that run a task for each resource, `Deleting` and `Updating` the methods of
-- these names, `Restart` models `restart_resource`; the other children are named for what they prove.
pub mod State
pub mod Tasks
pub mod Deleting
pub mod Updating
pub mod Restart
pub mod Outcomes
pub mod Deleted
pub mod Updated
pub mod Restarted
mod Samples
