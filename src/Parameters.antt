-- ===== src/Parameters.antt =====
-- Parameters of templates and constraints on values: heat/engine/parameters.py and
-- heat/engine/constraints.py.
mod Constraints
mod Schema
mod Parameter
mod Container
mod Validated
mod Complete
mod Samples
