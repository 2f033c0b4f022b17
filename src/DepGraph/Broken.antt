-- ===== src/DepGraph/Broken.antt =====
-- `_removeBrokenPlugins` of lib/depgraph.js.
pub mod Closure
use zlux_server_framework.Base.{
  suc, String, true, false, Option, some, List, [], ◌∷◌, ◌++◌, map, member, length, if◌then◌else◌,
}
use zlux_server_framework.Base.Assoc.{without}
use zlux_server_framework.Base.Outcome.{Outcome, ok, ◌>>=◌}
use zlux_server_framework.DepGraph.Plugin.{
  ValidationError, required_plugin_failed_to_load, DepLink, Graph, Fault,
}
use zlux_server_framework.DepGraph.Walk.Defs.{State, Walk, blank, write, follow, visit}

abbrev pub dep_error : DepLink → Option ValidationError
dep_error dep =
    if dep.valid then some (required_plugin_failed_to_load dep.provider) else dep.validation_error

-- The assignments of this `visit`; `out` lists the keys of `rejects`.
unfoldable pub rejecting : Walk (Option ValidationError)
rejecting = record {
  why = dep_error;
  enter = λ error id s.
      let note = s.notes id in
      record s {
        notes =
            write id (record note { is_invalid = true; validation_error = error; visiting = true })
              s.notes;
      };
  leave = λ id s.
      let note = s.notes id in
      record s {
        notes = write id (record note { visiting = false; visited = true }) s.notes;
        out = if member id s.out then s.out else s.out ++ id ∷ [];
      };
}

abbrev pub start : State
start = record { notes = λ id. blank; time = 0; out = [] }

abbrev pub broken_targets : List DepLink → List (Option ValidationError × String)
broken_targets deps = map (λ d. (d.validation_error, d.importer)) deps

-- The loop behind the walk deletes `graph[reject.pluginId]` for each key `reject` of `rejects`. A key
-- is a string, which has no `pluginId`, so what it deletes is the key "undefined".
unfoldable pub delete_rejects : List String → Graph → Graph
unfolding without
delete_rejects [] graph = graph
delete_rejects (reject ∷ rejects) graph = delete_rejects rejects (without "undefined" graph)

unfoldable pub remove_broken_plugins : Graph → List DepLink → Outcome Fault (Graph × State)
unfolding rejecting follow visit delete_rejects
remove_broken_plugins graph broken_deps = do
  s ← follow (visit rejecting graph (suc (length graph))) (broken_targets broken_deps) start
  ok (delete_rejects s.out graph, s)
