-- ===== src/Dependencies.antt =====
-- heat/engine/dependencies.py: the graph of the dependencies between objects, its topological sort
-- and the `Dependencies` that build it. `Node`, `Graph` and `Deps` model the classes of the file,
-- and the other children are named for what they prove.
pub mod Node
pub mod Graph
pub mod Deps
pub mod Views
pub mod Deletion
pub mod Shape
pub mod Leaves
pub mod Order
pub mod Cycles
pub mod Edges
pub mod Reversal
pub mod Partial
pub mod Listing
mod Samples
