-- ===== src/DepGraph/Tests.antt =====
-- lib/depgraph.js on small inputs.
use mathlib.Core.List.{Memᴰ}
use zlux_server_framework.Base.{
  ◌++◌, String, true, not, none, some, List, [], ◌∷◌, ◌≡◌, refl, member, Distinct, before,
  if◌then◌else◌, opt_eq, ◌==◌, truthy, ◌↔◌,
}
use zlux_server_framework.Base.Assoc.{lookup}
use zlux_server_framework.Base.Outcome.{ok, raised, ok_or, Ends}
use zlux_server_framework.DepGraph.Plugin.{
  is_inherited, Service, Plugin, Versions, Semver, DepLink, Graph, circular_dependency, type_error,
}
use zlux_server_framework.DepGraph.Validate.{is_requested, fits, validate_dep}
use zlux_server_framework.DepGraph.Validate.Laws.{
  Offers, Accepted, validate_dep-Accepted, validate_dep_of_Offers,
}
use zlux_server_framework.DepGraph.Build.{Build, make_link, add_plugins, build_graph}
use zlux_server_framework.DepGraph.Build.Links.{ImportsFrom}
use zlux_server_framework.DepGraph.Build.Grows.{HasNode}
use zlux_server_framework.DepGraph.Build.Accounts.{Accounted}
use zlux_server_framework.DepGraph.Build.Retried.{build_graph-Accounted}
use zlux_server_framework.DepGraph.Walk.Defs.{State}
use zlux_server_framework.DepGraph.Broken.{start, remove_broken_plugins}
use zlux_server_framework.DepGraph.Broken.Closure.{Tainted, rejects-Tainted}
use zlux_server_framework.DepGraph.Toposort.{toposort}
use zlux_server_framework.DepGraph.Toposort.Order.{Sorted, toposort-Sorted}
use zlux_server_framework.DepGraph.Process.Run.{process_imports-Ends}
use zlux_server_framework.DepGraph.Process.{Result, process_imports}
use zlux_server_framework.DepGraph.Process.Order.{
  process_imports-before, process_imports_partition, process_imports-Distinct,
}
use zlux_server_framework.DepGraph.Process.Taken.{ids}

-- A semver whose versions and ranges are any texts, where "1" satisfies "1" and nothing else does.
abbrev semver : Semver
semver = record {
  valid_range = truthy;
  valid = truthy;
  satisfies = λ version range. opt_eq version range;
}

abbrev provided : String → Service
provided name = record {
  type = "router";
  name = some name;
  local_name = none;
  source_plugin = "";
  source_name = none;
  version_range = none;
}

abbrev imported : String → String → String → Service
imported plugin name range = record {
  type = "import";
  name = none;
  local_name = some name;
  source_plugin = plugin;
  source_name = some name;
  version_range = some range;
}

abbrev plugin : String → List Service → Plugin
plugin id services = record { identifier = id; data_services = some services }

abbrev versions : Versions
versions id i = if id == "base" then some "1" else none

-- An app on a library on a base, given in the wrong order, and a plugin whose import is not met.
abbrev app : Plugin
app = plugin "app" (imported "lib" "s" "1" ∷ [])

abbrev initial : List Plugin
initial =
    app
    ∷ plugin "lib" (imported "base" "s" "1" ∷ [])
    ∷ plugin "base" (provided "s" ∷ [])
    ∷ plugin "lost" (imported "base" "s" "2" ∷ [])
    ∷ []

abbrev empty : Result
empty = record { plugins = []; rejects = []; error = λ id. none; versions = versions }

abbrev result : Result
result = ok_or empty (process_imports semver (add_plugins initial []) versions)

result_ids : (ids result.plugins ≡ "base" ∷ "lib" ∷ "app" ∷ []) × (result.rejects ≡ "lost" ∷ [])
unfolding process_imports add_plugins
result_ids = (refl, refl)

-- Two plugins that import from each other.
abbrev cyclic : List Plugin
cyclic =
    plugin "a" (provided "s" ∷ imported "b" "s" "1" ∷ [])
    ∷ plugin "b" (provided "s" ∷ imported "a" "s" "1" ∷ [])
    ∷ []

process_cyclic :
    process_imports semver (add_plugins cyclic []) (λ id i. some "1")
    ≡ raised (circular_dependency "a")
unfolding process_imports add_plugins
process_cyclic = refl

-- A provider with no services is no list to loop over.
process_no_services :
    process_imports semver
      (add_plugins (app ∷ record { identifier = "lib"; data_services = none } ∷ []) [])
      versions
    ≡ raised type_error
unfolding process_imports add_plugins
process_no_services = refl

-- A plugin without services whose identifier is a key that every object inherits gets no node, and it
-- is neither installed nor rejected.
abbrev to_string : Plugin
to_string = record { identifier = "toString"; data_services = none }

abbrev nothing : Result
nothing = record { plugins = []; rejects = []; error = λ id. none; versions = versions }

process_inherited :
    ids (ok_or nothing (process_imports semver (add_plugins (to_string ∷ []) []) versions)).plugins
      ++ (ok_or nothing (process_imports semver (add_plugins (to_string ∷ []) []) versions)).rejects
    ≡ []
unfolding process_imports add_plugins
process_inherited = refl

process_inherited-Ends : Ends (process_imports semver (add_plugins (to_string ∷ []) []) versions)
unfolding process_imports add_plugins
process_inherited-Ends = tt

-- An import from such a plugin ends in a TypeError.
process_imported_inherited :
    process_imports semver
      (add_plugins (plugin "app" (imported "toString" "s" "1" ∷ []) ∷ to_string ∷ []) [])
      versions
    ≡ raised type_error
unfolding process_imports add_plugins
process_imported_inherited = refl

app-ImportsFrom : ImportsFrom app "lib"
app-ImportsFrom = record {
  services = imported "lib" "s" "1" ∷ [];
  has_services = refl;
  service = imported "lib" "s" "1";
  listed = Memᴰ.head refl;
  is_import = refl;
  from = refl;
}

process_imports-before_example : before "lib" "app" (ids result.plugins) ≡ true
unfolding process_imports add_plugins lookup
process_imports-before_example =
    process_imports-before semver initial versions result refl app "lib" refl
      (Memᴰ.tail (Memᴰ.tail (Memᴰ.head refl))) app-ImportsFrom

process_imports_partition_example :
    member "lost" (ids result.plugins) ≡ not (member "lost" result.rejects)
unfolding process_imports add_plugins lookup is_inherited
process_imports_partition_example =
    process_imports_partition semver initial versions result refl "lost"
      (plugin "lost" (imported "base" "s" "2" ∷ [])) refl refl refl

process_imports-Distinct_example : Distinct (ids result.plugins)
unfolding process_imports add_plugins
process_imports-Distinct_example = process_imports-Distinct semver initial versions result refl

process_imports-Ends_example : Ends (process_imports semver (add_plugins cyclic []) versions)
process_imports-Ends_example = process_imports-Ends semver (add_plugins cyclic []) versions

abbrev no_build : Build
no_build = record { graph = []; broken_deps = []; versions = versions }

abbrev built : Build
built = ok_or no_build (build_graph semver (add_plugins initial []) versions)

build_graph-Accounted_example :
    Accounted semver (add_plugins initial []) built app × HasNode built.graph "app"
unfolding build_graph add_plugins is_inherited
build_graph-Accounted_example =
    build_graph-Accounted semver (add_plugins initial []) versions built "app" app refl
      (Memᴰ.head refl) refl

abbrev removed : Graph × State
removed = ok_or (built.graph, start) (remove_broken_plugins built.graph built.broken_deps)

rejects-Tainted_example :
    (member "lost" removed.1.out ≡ true) ↔ Tainted built.graph built.broken_deps "lost"
unfolding remove_broken_plugins build_graph add_plugins
rejects-Tainted_example =
    rejects-Tainted built.graph built.broken_deps removed.0 removed.1 "lost" refl

abbrev sorted : State
sorted = ok_or start (toposort removed.0 removed.1)

toposort-Sorted_example : Sorted removed.0 removed.1 sorted.out
unfolding remove_broken_plugins build_graph add_plugins toposort
toposort-Sorted_example = toposort-Sorted removed.0 removed.1 sorted refl

abbrev link : DepLink
link = make_link "app" 0 (imported "base" "s" "1")

abbrev valid_link : DepLink
valid_link = record link { actual_version = some "1"; valid = true }

validate_dep-Accepted_example :
    Accepted semver versions link valid_link (some (plugin "base" (provided "s" ∷ [])))
unfolding validate_dep make_link
validate_dep-Accepted_example =
    validate_dep-Accepted semver versions link valid_link (some (plugin "base" (provided "s" ∷ [])))
      refl refl

validate_dep_of_Offers_example :
    (found : DepLink) × (validate_dep semver versions link
        (some (plugin "base" (provided "s" ∷ [])))
      ≡ ok found)
    × (found.valid ≡ true)
unfolding make_link is_requested fits
validate_dep_of_Offers_example =
    validate_dep_of_Offers semver versions link (plugin "base" (provided "s" ∷ []))
      (provided "s" ∷ []) (some "1") refl refl (Offers.here refl refl refl)
