-- ===== src/Scaling.antt =====
-- heat/engine/resources/autoscaling.py and heat/scaling/template.py: groups of instances that grow
-- and shrink. `Cooldown`, `Adjust`, `Policy` and `Replace` model the methods of the classes of the
-- first, `Template` the second; the other children are named for what they prove.
pub mod Cooldown
pub mod Adjust
pub mod Policy
pub mod Replace
pub mod Template
pub mod Limits
pub mod Rolling
pub mod Sizes
mod Samples
