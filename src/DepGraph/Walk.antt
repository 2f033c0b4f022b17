-- ===== src/DepGraph/Walk.antt =====
-- The depth-first search of lib/depgraph.js.
pub mod Defs
pub mod Laws
pub mod Fuel
