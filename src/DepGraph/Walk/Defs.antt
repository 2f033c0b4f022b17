-- ===== src/DepGraph/Walk/Defs.antt =====
-- The depth-first search that `_removeBrokenPlugins` and `_toposort` of lib/depgraph.js both make:
-- two functions `visit` of one shape, which differ in what they write when they enter and when they
-- leave a node. What they write on a node object is kept in a table beside the graph.
use zlux_server_framework.Base.{
  ℕ, zero, suc, String, Bool, false, Option, none, some, List, [], ◌∷◌, map, ◌==◌, if◌then◌else◌,
}
use zlux_server_framework.Base.Assoc.{lookup}
use zlux_server_framework.Base.Outcome.{Outcome, ok, raised, out_of_fuel, ◌>>=◌}
use zlux_server_framework.DepGraph.Plugin.{
  ValidationError, DepLink, Node, Graph, Fault, type_error, circular_dependency,
}

-- The fields that the walks add to a node.
pub record Note : Type 0 where
  pub visiting : Bool
  pub visited : Bool
  pub is_invalid : Bool
  pub validation_error : Option ValidationError
  pub discovery_time : ℕ
  pub finishing_time : ℕ

pub record State : Type 0 where
  pub notes : String → Note
  pub time : ℕ
  -- the keys of `rejects`, or `pluginsSorted`
  pub out : List String

abbrev pub blank : Note
blank = record {
  visiting = false;
  visited = false;
  is_invalid = false;
  validation_error = none;
  discovery_time = 0;
  finishing_time = 0;
}

abbrev pub write : String → Note → (String → Note) → String → Note
write id note notes j = if id == j then note else notes j

-- `Why` is the argument that a visit has beside the node.
pub record Walk (Why : Type 0) : Type 0 where
  pub why : DepLink → Why
  pub enter : Why → String → State → State
  pub leave : String → State → State

abbrev pub targets : {Why : Type 0} → Walk Why → List DepLink → List (Why × String)
targets w deps = map (λ d. (w.why d, d.importer)) deps

module _ {Why : Type 0} where
  -- `for (const dep of pluginNode.deps) visit(graph[dep.importer])`, and the loops that start a walk
  unfoldable pub follow :
      (Why → String → State → Outcome Fault State)
      → List (Why × String)
      → State
      → Outcome Fault State
  follow call [] s = ok s
  follow call ((y, id) ∷ rest) s = do s' ← call y id s; follow call rest s'

  unfoldable pub visit_node :
      Walk Why
      → (Why → String → State → Outcome Fault State)
      → Why
      → String
      → Node
      → State
      → Outcome Fault State
  visit_node w call y id node s =
      if (s.notes id).visited
      then ok s
      else if (s.notes id).visiting
      then raised (circular_dependency id)
      else do s' ← follow call (targets w node.deps) (w.enter y id s); ok (w.leave id s')

  unfoldable pub visit : Walk Why → Graph → ℕ → Why → String → State → Outcome Fault State
  unfolding visit_node follow lookup
  visit w graph zero y id s = out_of_fuel
  visit w graph (suc n) y id s = elim (lookup id graph) [
    | none ↦ raised type_error
    | some node ↦ visit_node w (visit w graph n) y id node s
  ]
