-- ===== src/DepGraph/Process/Run.antt =====
-- A call of `processImports` of lib/depgraph.js ends, and its steps if it returns.
use zlux_server_framework.Base.{
  String, List, [], ◌∷◌, ◌≡◌, ◌≢◌, refl, ap, ◌∙◌, arith, eq_iff, suc, length,
}
use zlux_server_framework.Base.Assoc.{lookup, without, lookup-without}
use zlux_server_framework.Base.Outcome.{ok, >>=-eq-ok, Ends, Ends-bind}
use zlux_server_framework.DepGraph.Plugin.{Versions, Semver, DepLink, Graph}
use zlux_server_framework.DepGraph.Build.{Plugins, Build, build_graph}
use zlux_server_framework.DepGraph.Build.Fuel.{build_graph-Ends}
use zlux_server_framework.DepGraph.Walk.Defs.{State, follow, visit}
use zlux_server_framework.DepGraph.Broken.{
  rejecting, start, broken_targets, delete_rejects, remove_broken_plugins,
}
use zlux_server_framework.DepGraph.Broken.Closure.{remove_broken_plugins-Ends}
use zlux_server_framework.DepGraph.Toposort.{toposort}
use zlux_server_framework.DepGraph.Toposort.Order.{toposort-Ends}
use zlux_server_framework.DepGraph.Process.{Result, finish, process_imports}

-- `processImports` returns or throws: it does not run on for ever, whatever the plugins, the package
-- semver and the versions are.
pub process_imports-Ends :
    (semver : Semver) (plugins : Plugins) (versions : Versions)
    → Ends (process_imports semver plugins versions)
unfolding process_imports
process_imports-Ends semver plugins versions =
    Ends-bind (build_graph semver plugins versions) _ (build_graph-Ends semver plugins versions)
      λ b e.
        Ends-bind (remove_broken_plugins b.graph b.broken_deps) _
          (remove_broken_plugins-Ends b.graph b.broken_deps)
          λ (g, s) e'. Ends-bind (toposort g s) _ (toposort-Ends g s) (λ t e''. tt)

-- The loop that should delete the rejected nodes deletes the key "undefined" only.
pub lookup-delete_rejects :
    (rejects : List String) (g : Graph) (id : String)
    → id ≢ "undefined"
    → lookup id (delete_rejects rejects g) ≡ lookup id g
unfolding delete_rejects
lookup-delete_rejects [] g id h = refl
lookup-delete_rejects (r ∷ rejects) g id h =
    lookup-delete_rejects rejects (without "undefined" g) id h
    ∙ ground (
      arith,
      lookup-without "undefined" id g,
      eq_iff "undefined" id,
      λ (p : id ≡ "undefined"). h p,
    )

pub removed_graph :
    (g g' : Graph) (broken_deps : List DepLink) (s : State)
    → remove_broken_plugins g broken_deps ≡ ok (g', s)
    → g' ≡ delete_rejects s.out g
unfolding remove_broken_plugins
removed_graph g g' broken_deps s e =
    let (t, walked, last) =
      >>=-eq-ok (follow (visit rejecting g (suc (length g))) (broken_targets broken_deps) start)
        (λ t. ok (delete_rejects t.out g, t)) {b = (g', s)} e in
    let same : t ≡ s = cc in cc (ap (λ (u : State). delete_rejects u.out g) same)

-- The steps of a call that returns.
pub record Run (semver : Semver) (plugins : Plugins) (versions : Versions) (r : Result)
    : Type 0 where
  pub b : Build
  pub graph : Graph
  pub marked : State
  pub sorted : State
  pub built : build_graph semver plugins versions ≡ ok b
  pub removed : remove_broken_plugins b.graph b.broken_deps ≡ ok (graph, marked)
  pub ordered : toposort graph marked ≡ ok sorted
  pub result : finish plugins b.versions marked sorted ≡ r

pub process_imports-Run :
    (semver : Semver) (plugins : Plugins) (versions : Versions) (r : Result)
    → process_imports semver plugins versions ≡ ok r
    → Run semver plugins versions r
unfolding process_imports
process_imports-Run semver plugins versions r e =
    let (b, built, e₁) = >>=-eq-ok (build_graph semver plugins versions) _ {b = r} e in
    let (gs, removed, e₂) = >>=-eq-ok (remove_broken_plugins b.graph b.broken_deps) _ {b = r} e₁ in
    let (t, ordered, last) = >>=-eq-ok (toposort gs.0 gs.1) _ {b = r} e₂ in
    record {
      b = b;
      graph = gs.0;
      marked = gs.1;
      sorted = t;
      built = built;
      removed = removed;
      ordered = ordered;
      result = cc;
    }
