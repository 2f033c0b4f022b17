-- ===== src/DepGraph/Toposort.antt =====
-- `_toposort` of lib/depgraph.js.
pub mod Order
use zlux_server_framework.Base.{suc, ◌+◌, String, true, false, List, [], ◌∷◌, map, length}
use zlux_server_framework.Base.Assoc.{keys}
use zlux_server_framework.Base.Outcome.{Outcome}
use zlux_server_framework.DepGraph.Plugin.{Graph, Fault}
use zlux_server_framework.DepGraph.Walk.Defs.{State, Walk, write, follow, visit}

-- The assignments of this `visit`; `out` is `pluginsSorted`, filled at its front.
unfoldable pub sorting : Walk (Unit {0})
sorting = record {
  why = λ dep. tt;
  enter = λ y id s.
      let note = s.notes id in
      record s {
        notes = write id (record note { discovery_time = s.time + 1; visiting = true }) s.notes;
        time = s.time + 1;
      };
  leave = λ id s.
      let note = s.notes id in
      record s {
        notes =
            write id (record note { visiting = false; visited = true; finishing_time = s.time + 1 })
              s.notes;
        time = s.time + 1;
        out = id ∷ s.out;
      };
}

abbrev pub all_targets : Graph → List (Unit {0} × String)
all_targets graph = map (λ id. (tt, id)) (keys graph)

-- The nodes are the ones that `_removeBrokenPlugins` has marked: the walk starts from its notes.
unfoldable pub toposort : Graph → State → Outcome Fault State
unfolding sorting follow visit keys
toposort graph s =
    follow (visit sorting graph (suc (length graph))) (all_targets graph)
      (record s { time = 0; out = [] })
