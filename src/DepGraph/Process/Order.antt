-- ===== src/DepGraph/Process/Order.antt =====
-- What `processImports` of lib/depgraph.js returns: every plugin is either rejected or installed, once,
-- behind the plugins whose services it imports.
use mathlib.Core.List.{Memᴰ}
use mathlib.Core.Path.{subst}
use zlux_server_framework.Base.{
  String, true, false, not, none, some, List, [], ◌∷◌, ◌≡◌, ◌≢◌, sym, ap, ◌∙◌, arith, inl, inr,
  ◌==◌, ◌||◌, eq_iff, Bool-cases, member, Distinct, before, All_at_mem,
}
use zlux_server_framework.Base.Assoc.{lookup}
use zlux_server_framework.Base.Outcome.{ok}
use zlux_server_framework.DepGraph.Plugin.{
  Plugin, Versions, Semver, DepLink, Node, Graph, is_inherited,
}
use zlux_server_framework.DepGraph.Build.{Plugins, Build, add_plugins, build_graph}
use zlux_server_framework.DepGraph.Build.Grows.{HasNode}
use zlux_server_framework.DepGraph.Build.Links.{ImportsFrom, Account, settled, broken, waiting}
use zlux_server_framework.DepGraph.Build.Retried.{build_graph_lem}
use zlux_server_framework.DepGraph.Walk.Defs.{State}
use zlux_server_framework.DepGraph.Walk.Laws.{visited}
use zlux_server_framework.DepGraph.Walk.Fuel.{member-keys_of_lookup}
use zlux_server_framework.DepGraph.Broken.{delete_rejects}
use zlux_server_framework.DepGraph.Broken.Closure.{Removed, remove_broken_plugins-Removed}
use zlux_server_framework.DepGraph.Toposort.Order.{IsOrdered, Sorted, toposort-Sorted}
use zlux_server_framework.DepGraph.Process.{
  Result, non_rejected, take_sorted, process_imports, finish,
}
use zlux_server_framework.DepGraph.Process.Run.{
  Run, process_imports-Run, lookup-delete_rejects, removed_graph,
}
use zlux_server_framework.DepGraph.Process.Taken.{
  ids, WellKeyed, add_plugins-WellKeyed, Memᴰ_of_lookup, identifier_of_lookup, lookup-non_rejected,
  non_rejected-WellKeyed, member-take_sorted, Memᴰ-take_sorted, member_of_take_sorted,
  take_sorted-Distinct, before-take_sorted,
}

-- In an ordered list of ids, an importer that was not marked stands behind its provider.
before_of_IsOrdered :
    (graph : Graph) (marked : State) (l : List String) (d : DepLink) (node : Node)
    → IsOrdered graph marked l
    → member d.provider l ≡ true
    → lookup d.provider graph ≡ some node
    → Memᴰ d node.deps
    → visited marked d.importer ≡ false
    → before d.provider d.importer l ≡ true
before_of_IsOrdered graph marked [] d node o i e m new = cc
before_of_IsOrdered graph marked (x ∷ l) d node o i e m new = elim (Bool-cases (d.provider == x)) [
  | inl here ↦
      let same : d.provider ≡ x = (eq_iff d.provider x).0 here in
      let all = o.0 node (ap (λ k. lookup k graph) (sym same) ∙ e) in
      ground (
        arith,
        All_at_mem (λ c. (member c.importer l || visited marked c.importer) ≡ true) node.deps d all
            m,
      )
  | inr later ↦ ground (arith, before_of_IsOrdered graph marked l d node o.1 (ground arith) e m new)
]

module _ (semver : Semver) (plugins : Plugins) (versions : Versions) (b : Build)
    (marked sorted : State) (keyed : WellKeyed plugins)
    (no_undefined : lookup "undefined" plugins ≡ none)
    (built : build_graph semver plugins versions ≡ ok b)
    (removed : Removed b.graph b.broken_deps marked)
    (order : Sorted (delete_rejects marked.out b.graph) marked sorted.out) where
  abbrev kept : Plugins
  kept = non_rejected marked.out plugins

  not_undefined :
      (id : String) (plugin : Plugin) → lookup id plugins ≡ some plugin → id ≢ "undefined"
  not_undefined id plugin e same = cc (ap (λ k. lookup k plugins) same)

  has_node :
      (id : String) (plugin : Plugin)
      → is_inherited id ≡ false
      → lookup id plugins ≡ some plugin
      → HasNode b.graph id
  has_node id plugin own e =
      let (_, node) =
        build_graph_lem semver plugins versions b id plugin built
          (Memᴰ_of_lookup plugins id plugin e) in
      let same = identifier_of_lookup plugins id plugin keyed e in
      subst (HasNode b.graph) same (node (ap is_inherited same ∙ own))

  -- A plugin that is not rejected is sorted.
  sorted_of_kept :
      (id : String) (plugin : Plugin)
      → is_inherited id ≡ false
      → lookup id plugins ≡ some plugin
      → member id marked.out ≡ false
      → member id sorted.out ≡ true
  sorted_of_kept id plugin own e new =
      let (node, here) = has_node id plugin own e in
      order.complete id
        (member-keys_of_lookup id (delete_rejects marked.out b.graph) node
          (lookup-delete_rejects marked.out b.graph id (not_undefined id plugin e) ∙ here))
        (removed.agrees id ∙ new)

  member-ids :
      (id : String) (plugin : Plugin)
      → is_inherited id ≡ false
      → lookup id plugins ≡ some plugin
      → member id (ids (take_sorted sorted.out kept)) ≡ not (member id marked.out)
  member-ids id plugin own e =
      let w = non_rejected-WellKeyed marked.out plugins in
      elim (Bool-cases (member id marked.out)) [
        | inr new ↦
            member-take_sorted sorted.out kept id plugin w (sorted_of_kept id plugin own e new)
              (ground (arith, own, lookup-non_rejected marked.out plugins id keyed))
            ∙ ap not (sym new)
        | inl rejected ↦ elim (Bool-cases (member id (ids (take_sorted sorted.out kept)))) [
          | inr absent ↦ absent ∙ ap not (sym rejected)
          | inl taken ↦ absurd (
              let (_, (q, found)) = member_of_take_sorted sorted.out kept id w taken in
              ground (arith, lookup-non_rejected marked.out plugins id keyed))
        ]
      ]

  kept_plugin :
      (id : String) (plugin : Plugin)
      → lookup id kept ≡ some plugin
      → (lookup id plugins ≡ some plugin) × (member id marked.out ≡ false)
  kept_plugin id plugin e = (
    ground (arith, lookup-non_rejected marked.out plugins id keyed),
    ground (arith, lookup-non_rejected marked.out plugins id keyed),
  )

  -- The link of an import of a kept plugin puts the provider before it.
  Account-before :
      (m p : String) (plugin : Plugin)
      → lookup m kept ≡ some plugin
      → Account plugins b [] m p
      → is_inherited p ≡ false
      → before p m (ids (take_sorted sorted.out kept)) ≡ true
  Account-before m p plugin e (waiting d em ep i) own = elim i [ ]
  Account-before m p plugin e (broken d em ep i) own = absurd (
      ground
        (arith, removed.reached d i, (kept_plugin m plugin e).1, ap (λ k. member k marked.out) em))
  Account-before m p plugin e (settled d em ep (node, here, i) v q found) own =
      let own_d : is_inherited d.provider ≡ false = ap is_inherited ep ∙ own in
      let (_, kept_m) = kept_plugin m plugin e in
      let new_d : member d.importer marked.out ≡ false =
        ap (λ k. member k marked.out) em ∙ kept_m in
      elim (Bool-cases (member d.provider marked.out)) [
        | inl rejected ↦ absurd (
            ground (
              arith,
              new_d,
              All_at_mem (λ c. member c.importer marked.out ≡ true) node.deps d
                  (removed.closed d.provider node here rejected) i,
            ))
        | inr new ↦
            let found_d : lookup d.provider plugins ≡ some q =
              ap (λ k. lookup k plugins) ep ∙ found in
            let in_order =
              before_of_IsOrdered (delete_rejects marked.out b.graph) marked sorted.out d node
                order.ordered (sorted_of_kept d.provider q own_d found_d new)
                (lookup-delete_rejects marked.out b.graph d.provider
                    (not_undefined d.provider q found_d)
                  ∙ here)
                i (removed.agrees d.importer ∙ new_d) in
            let kept_q : lookup d.provider kept ≡ some q =
              ground (arith, own_d, lookup-non_rejected marked.out plugins d.provider keyed) in
            before-take_sorted sorted.out kept p m q plugin
              (non_rejected-WellKeyed marked.out plugins) order.distinct
              (ap (λ k. lookup k kept) (sym ep) ∙ kept_q) e (rw ep at (rw em at in_order))
      ]

  import_before :
      (plugin : Plugin) (p : String)
      → Memᴰ plugin (take_sorted sorted.out kept)
      → ImportsFrom plugin p
      → before p plugin.identifier (ids (take_sorted sorted.out kept)) ≡ true
  import_before plugin p taken imports =
      let e =
        Memᴰ-take_sorted sorted.out kept plugin (non_rejected-WellKeyed marked.out plugins) taken in
      let (accounted, _) =
        build_graph_lem semver plugins versions b plugin.identifier plugin built (
          Memᴰ_of_lookup plugins plugin.identifier plugin
            (kept_plugin plugin.identifier plugin e).0) in
      let (account, own) = accounted p imports in
      Account-before plugin.identifier p plugin e account own

module _ (semver : Semver) (initial : List Plugin) (versions : Versions) (r : Result)
    (returns : process_imports semver (add_plugins initial []) versions ≡ ok r) where
  abbrev plugins : Plugins
  plugins = add_plugins initial []

  keyed : WellKeyed plugins
  keyed = add_plugins-WellKeyed initial [] tt

  run : Run semver plugins versions r
  run = process_imports-Run semver plugins versions r returns

  removed : Removed run.b.graph run.b.broken_deps run.marked
  removed = remove_broken_plugins-Removed run.b.graph run.b.broken_deps run.removed

  order : Sorted (delete_rejects run.marked.out run.b.graph) run.marked run.sorted.out
  order =
      subst (λ g. Sorted g run.marked run.sorted.out)
        (removed_graph run.b.graph run.graph run.b.broken_deps run.marked run.removed)
        (toposort-Sorted run.graph run.marked run.sorted run.ordered)

  -- If no plugin has the identifier "undefined" and `processImports` returns, then every plugin from
  -- which an installed plugin imports a service is installed too, and stands before it.
  pub process_imports-before :
      (plugin : Plugin) (p : String)
      → lookup "undefined" (add_plugins initial []) ≡ none
      → Memᴰ plugin r.plugins
      → ImportsFrom plugin p
      → before p plugin.identifier (ids r.plugins) ≡ true
  unfolding finish
  process_imports-before plugin p no_undefined taken imports =
      let same : take_sorted run.sorted.out (non_rejected run.marked.out plugins) ≡ r.plugins =
        ap (λ (x : Result). x.plugins) run.result in
      subst (λ l. before p plugin.identifier (ids l) ≡ true) same
        (import_before semver plugins versions run.b run.marked run.sorted keyed no_undefined
          run.built removed order plugin p (subst (λ l. Memᴰ plugin l) (sym same) taken) imports)

  -- If no plugin has the identifier "undefined" and `processImports` returns, then a plugin whose
  -- identifier is not a key that `{}` inherits is installed exactly if it is not rejected.
  pub process_imports_partition :
      (id : String) (plugin : Plugin)
      → lookup "undefined" (add_plugins initial []) ≡ none
      → is_inherited id ≡ false
      → lookup id (add_plugins initial []) ≡ some plugin
      → member id (ids r.plugins) ≡ not (member id r.rejects)
  unfolding finish
  process_imports_partition id plugin no_undefined own e =
      subst (λ (x : Result). member id (ids x.plugins) ≡ not (member id x.rejects)) run.result
        (member-ids semver plugins versions run.b run.marked run.sorted keyed no_undefined run.built
          removed order id plugin own e)

  -- If `processImports` returns, no plugin is installed twice.
  pub process_imports-Distinct : Distinct (ids r.plugins)
  unfolding finish
  process_imports-Distinct =
      subst (λ (x : Result). Distinct (ids x.plugins)) run.result
        (take_sorted-Distinct run.sorted.out (non_rejected run.marked.out plugins)
          (non_rejected-WellKeyed run.marked.out plugins) order.distinct)
