-- ===== src/DepGraph.antt =====
-- lib/depgraph.js: the order in which plugins are installed, by the imports of their services.
pub mod Plugin
pub mod Validate
pub mod Build
pub mod Walk
pub mod Broken
pub mod Toposort
pub mod Process
mod Tests
