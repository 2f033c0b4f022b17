-- ===== src/DepGraph/Plugin.antt =====
-- The data of lib/depgraph.js: plugins with their services, dependency links, nodes of the graph.
use zlux_server_framework.Base.{ℕ, String, Bool, Option, List, [], ◌∷◌, member}
use zlux_server_framework.Base.Assoc.{Assoc}

-- One entry of `plugin.dataServices`. Its `version` is the one field that `processImports` writes,
-- so it is kept in a table of its own, `Versions`.
pub record Service : Type 0 where
  pub type : String
  pub name : Option String
  pub local_name : Option String
  pub source_plugin : String
  pub source_name : Option String
  pub version_range : Option String

pub record Plugin : Type 0 where
  pub identifier : String
  pub data_services : Option (List Service)

-- The version of the service at an index of a plugin, as it stands now.
abbrev pub Versions : Type 0
Versions = String → ℕ → Option String

-- The functions of the package semver that the program calls.
pub record Semver : Type 0 where
  pub valid_range : Option String → Bool
  pub valid : Option String → Bool
  pub satisfies : Option String → Option String → Bool

-- `validationError`, one constructor for each status.
pub data ValidationError : Type 0 where
  required_plugin_failed_to_load : (plugin_id : String) → ValidationError
  required_plugin_not_found : (plugin_id : String) → ValidationError
  invalid_required_version_range :
      (plugin_id : String) (required_version : Option String) → ValidationError
  required_service_version_not_found :
      (plugin_id : String) (service required_version : Option String) → ValidationError
  required_service_not_found : (plugin_id : String) (service : Option String) → ValidationError

-- `depLink`. The reference to the importing service is the importer's id and the service's index.
pub record DepLink : Type 0 where
  pub provider : String
  pub service : Option String
  pub importer : String
  pub alias : Option String
  pub required_version_range : Option String
  pub service_index : ℕ
  pub actual_version : Option String
  pub valid : Bool
  pub validation_error : Option ValidationError

pub record Node : Type 0 where
  pub plugin_id : String
  pub deps : List DepLink

-- The keys that the object `{}` inherits, so that it seems to have them. A plugin `__proto__` would be
-- the prototype of `pluginsById`; what follows from that for other keys is not modelled.
abbrev inherited_keys : List String
inherited_keys =
    "constructor" ∷ "hasOwnProperty" ∷ "isPrototypeOf" ∷ "propertyIsEnumerable" ∷ "toLocaleString"
    ∷ "toString" ∷ "valueOf" ∷ "__defineGetter__" ∷ "__defineSetter__" ∷ "__lookupGetter__"
    ∷ "__lookupSetter__" ∷ "__proto__" ∷ []

unfoldable pub is_inherited : String → Bool
is_inherited key = member key inherited_keys

abbrev pub Graph : Type 0
Graph = Assoc Node

-- What the functions of the file throw: a TypeError of the language, or the circular dependency.
pub data Fault : Type 0 where
  type_error : Fault
  circular_dependency : (plugin_id : String) → Fault
