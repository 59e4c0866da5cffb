-- ===== src/Template.antt =====
-- Templates: heat/engine/template.py, heat/engine/hot.py and the transformations of heat/engine/parser.py.
pub mod Json
mod Resolve
mod Texts
mod Select
pub mod References
mod Members
mod Runtime
mod Plain
mod Contiguous
mod Joins
mod Selected
mod Recursion
mod RoundTrip
mod Sections
mod Translated
mod Hot
mod StrReplace
mod Replaced
mod Samples
