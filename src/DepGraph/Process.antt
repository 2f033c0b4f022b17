-- ===== src/DepGraph/Process.antt =====
-- `processImports` of lib/depgraph.js.
pub mod Taken
pub mod Run
pub mod Order
use zlux_server_framework.Base.{
  Bool, String, Option, none, some, List, [], ◌∷◌, ◌||◌, member, if◌then◌else◌,
}
use zlux_server_framework.Base.Assoc.{lookup, without}
use zlux_server_framework.Base.Outcome.{Outcome, ok, ◌>>=◌}
use zlux_server_framework.DepGraph.Plugin.{
  Plugin, Versions, Semver, ValidationError, Fault, is_inherited,
}
use zlux_server_framework.DepGraph.Build.{Plugins, build_graph}
use zlux_server_framework.DepGraph.Walk.Defs.{State}
use zlux_server_framework.DepGraph.Broken.{remove_broken_plugins}
use zlux_server_framework.DepGraph.Toposort.{toposort}

unfoldable pub plugins_but : (String → Bool) → Plugins → Plugins
plugins_but refuses [] = []
plugins_but refuses ((id, plugin) ∷ rest) =
    let others = plugins_but refuses rest in
    if refuses plugin.identifier then others else (plugin.identifier, plugin) ∷ others

-- `nonRejectedPlugins`; `rejects` seems to have the keys that it inherits.
unfoldable pub non_rejected : List String → Plugins → Plugins
unfolding plugins_but is_inherited
non_rejected rejects plugins = plugins_but (λ id. is_inherited id || member id rejects) plugins

-- The loop over the sorted nodes: each plugin is taken once.
unfoldable pub take_sorted : List String → Plugins → List Plugin
unfolding lookup without
take_sorted [] plugins = []
take_sorted (id ∷ ids) plugins =
    let rest = take_sorted ids (without id plugins) in
    elim (lookup id plugins) [ none ↦ rest | some plugin ↦ plugin ∷ rest ]

-- The result: the plugins in order, the rejected nodes by their ids with what is written on them, and
-- the versions that the imports have got.
pub record Result : Type 0 where
  pub plugins : List Plugin
  pub rejects : List String
  pub error : String → Option ValidationError
  pub versions : Versions

unfoldable pub finish : Plugins → Versions → State → State → Result
unfolding take_sorted non_rejected
finish plugins versions marked sorted = record {
  plugins = take_sorted sorted.out (non_rejected marked.out plugins);
  rejects = marked.out;
  error = λ id. (marked.notes id).validation_error;
  versions = versions;
}

unfoldable pub process_imports : Semver → Plugins → Versions → Outcome Fault Result
unfolding build_graph remove_broken_plugins toposort finish
process_imports semver plugins versions = do
  b ← build_graph semver plugins versions
  (graph, marked) ← remove_broken_plugins b.graph b.broken_deps
  sorted ← toposort graph marked
  ok (finish plugins b.versions marked sorted)
