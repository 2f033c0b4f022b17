-- ===== src/DepGraph/Build.antt =====
-- `addPlugin` and `_buildGraph` of lib/depgraph.js.
pub mod Grows
pub mod Fuel
pub mod Links
pub mod Accounts
pub mod Retried
use zlux_server_framework.Base.{
  ℕ, zero, suc, ◌+◌, String, false, Option, none, some, List, [], ◌∷◌, ◌++◌, ◌==◌, nat_eq, ◌&&◌,
  truthy, length, if◌then◌else◌,
}
use zlux_server_framework.Base.Assoc.{Assoc, lookup, assign}
use zlux_server_framework.Base.Outcome.{Outcome, ok, raised, out_of_fuel, ◌>>=◌}
use zlux_server_framework.DepGraph.Plugin.{
  Service, Plugin, Versions, Semver, DepLink, Graph, Fault, type_error, is_inherited,
}
use zlux_server_framework.DepGraph.Validate.{validate_dep}

-- `this.pluginsById`
abbrev pub Plugins : Type 0
Plugins = Assoc Plugin

unfoldable pub add_plugin : Plugin → Plugins → Plugins
unfolding assign
add_plugin plugin plugins = assign plugin.identifier plugin plugins

-- The constructor adds the plugins one after the other.
unfoldable pub add_plugins : List Plugin → Plugins → Plugins
unfolding add_plugin
add_plugins [] plugins = plugins
add_plugins (p ∷ ps) plugins = add_plugins ps (add_plugin p plugins)

-- The state of `_buildGraph`.
pub record Build : Type 0 where
  pub graph : Graph
  pub broken_deps : List DepLink
  pub versions : Versions

unfoldable pub ensure_own : String → Graph → Graph
unfolding lookup
ensure_own id g = elim (lookup id g) [
  | some node ↦ g
  | none ↦ g ++ (id, record { plugin_id = id; deps = [] }) ∷ []
]

-- `if (!g[id])`: nothing is made for a key that `g` inherits.
unfoldable pub ensure_node : String → Graph → Graph
unfolding ensure_own is_inherited
ensure_node id g = if is_inherited id then g else ensure_own id g

-- `g[id].deps.push(dep)`
unfoldable pub push_dep : String → DepLink → Graph → Graph
push_dep id dep [] = []
push_dep id dep ((j, node) ∷ g) =
    if j == id
    then (j, record node { deps = node.deps ++ dep ∷ [] }) ∷ g
    else (j, node) ∷ push_dep id dep g

unfoldable pub set_version : String → ℕ → Option String → Versions → Versions
set_version id i v versions j k = if id == j && nat_eq i k then v else versions j k

unfoldable pub make_link : String → ℕ → Service → DepLink
make_link importer_id i service = record {
  provider = service.source_plugin;
  service = service.source_name;
  importer = importer_id;
  alias = service.local_name;
  required_version_range = service.version_range;
  service_index = i;
  actual_version = none;
  valid = false;
  validation_error = none;
}

-- The branches on `depLink.valid` in the first pass. The version of the import is kept if it has one.
unfoldable pub file_link : Build → DepLink → Build
unfolding push_dep set_version
file_link b link =
    if link.valid
    then record b {
      graph = push_dep link.provider link b.graph;
      versions =
          if truthy (b.versions link.importer link.service_index)
          then b.versions
          else set_version link.importer link.service_index link.actual_version b.versions;
    }
    else record b { broken_deps = b.broken_deps ++ link ∷ [] }

-- The branches in the repeated passes, where the version is always written.
unfoldable pub refile_link : Build → DepLink → Build
unfolding push_dep set_version
refile_link b link =
    if link.valid
    then record b {
      graph = push_dep link.provider (record link { validation_error = none }) b.graph;
      versions = set_version link.importer link.service_index link.actual_version b.versions;
    }
    else record b { broken_deps = b.broken_deps ++ link ∷ [] }

-- The links that are still broken go into the graph too.
unfoldable pub push_broken : List DepLink → Graph → Graph
unfolding push_dep
push_broken [] g = g
push_broken (dep ∷ deps) g = push_broken deps (push_dep dep.provider dep g)

module _ (semver : Semver) (plugins : Plugins) where
  -- The import of a provider that `g` does not inherit.
  unfoldable pub add_link : String → ℕ → Service → Build → Outcome Fault Build
  unfolding ensure_node make_link validate_dep file_link lookup
  add_link importer_id i service b = do
    let b' = record b { graph = ensure_node service.source_plugin b.graph }
    link ←
        validate_dep semver b.versions (make_link importer_id i service)
          (lookup service.source_plugin plugins)
    ok (file_link b' link)

  -- A provider that `g` inherits is no node and has no `deps`: whether the link is valid, in this pass or
  -- in a later one, or is broken to the end, it is pushed there, so that a TypeError is thrown, if none
  -- has been before.
  unfoldable pub add_import : String → ℕ → Service → Build → Outcome Fault Build
  unfolding add_link is_inherited
  add_import importer_id i service b =
      if is_inherited service.source_plugin
      then raised type_error
      else add_link importer_id i service b

  unfoldable pub add_services : String → List Service → ℕ → Build → Outcome Fault Build
  unfolding add_import
  add_services importer_id [] i b = ok b
  add_services importer_id (service ∷ services) i b = do
    b' ← if service.type == "import" then add_import importer_id i service b else ok b
    add_services importer_id services (i + 1) b'

  -- One round of the loop over the plugins.
  unfoldable pub add_node : Plugin → Build → Outcome Fault Build
  unfolding ensure_node add_services
  add_node plugin b =
      let b' = record b { graph = ensure_node plugin.identifier b.graph } in
      elim plugin.data_services [
        | none ↦ ok b'
        | some services ↦ add_services plugin.identifier services 0 b'
      ]

  unfoldable pub add_nodes : Plugins → Build → Outcome Fault Build
  unfolding add_node
  add_nodes [] b = ok b
  add_nodes ((id, plugin) ∷ rest) b = do b' ← add_node plugin b; add_nodes rest b'

  -- One pass over the links that were broken before it.
  unfoldable pub retry_links : List DepLink → Build → Outcome Fault Build
  unfolding validate_dep refile_link lookup
  retry_links [] b = ok b
  retry_links (dep ∷ deps) b = do
    link ← validate_dep semver b.versions dep (lookup dep.provider plugins)
    retry_links deps (refile_link b link)

  -- `while (brokenDeps.length != brokenDepsBefore)`
  unfoldable pub retry : ℕ → ℕ → Build → Outcome Fault Build
  unfolding retry_links
  retry zero n b = out_of_fuel
  retry (suc fuel) n b = if nat_eq (length b.broken_deps) n then ok b else do
    b' ← retry_links b.broken_deps (record b { broken_deps = [] })
    retry fuel (length b.broken_deps) b'

  unfoldable pub repair : Build → Outcome Fault Build
  unfolding retry push_broken
  repair b = if nat_eq (length b.broken_deps) 0 then ok b else do
    b' ← retry (length b.broken_deps + 2) 0 b
    ok (record b' { graph = push_broken b'.broken_deps b'.graph })

  unfoldable pub build_graph : Versions → Outcome Fault Build
  unfolding add_nodes repair
  build_graph versions = do
    b ← add_nodes plugins (record { graph = []; broken_deps = []; versions = versions })
    repair b
