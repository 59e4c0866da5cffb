-- ===== src/Resource.antt =====
-- heat/engine/resource.py: the life of a resource. `Lifecycle` models `_do_action`, `create`,
-- `update` and `delete` as co-routines that change the state of the resource, `Settled` is about the
-- states that they leave. `Requirements` models `add_dependencies`, `Difference` what an update
-- changes.
pub mod Lifecycle
pub mod Settled
pub mod Requirements
pub mod Required
pub mod Difference
pub mod Changed
mod Samples
