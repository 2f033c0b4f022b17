-- ===== src/AuthManager/Defs.antt =====
-- lib/auth-manager.js: the plugins that authenticate, by category, and the choice of the handler of a
-- service. The plugins' own modules are a parameter, and so are the configurations of the services.
use zlux_server_framework.Base.{
  ℕ, zero, suc, String, Bool, true, false, not, ◌&&◌, Option, none, some, List, [], ◌∷◌, ◌++◌, ◌==◌,
  map, member, truthy, if◌then◌else◌,
}
use zlux_server_framework.Base.Assoc.{Assoc, lookup, assign}

-- What a plugin's module gives: whether it has a function `authenticate`, what its capabilities say, and
-- the categories it tells of itself.
pub record Handler : Type 0 where
  pub plugin_id : String
  pub has_authenticate : Bool
  pub ha_compatible : Bool
  pub own_categories : Option (List String)

pub record Plugin : Type 0 where
  pub identifier : String
  pub authentication_categories : Option (List String)
  pub authentication_category : String

-- The section of the configuration. An entry of the defaults may lack its list of plugins.
pub record Config : Type 0 where
  pub default_authentication : String
  pub implementation_defaults : Option (Assoc (Option (List String)))
  pub rbac : Bool

pub record Manager : Type 0 where
  pub config : Config
  pub handlers : Assoc Handler
  pub auth_types : Assoc (List String)
  pub default_type : String
  pub pending_plugins : List Plugin
  pub rbac_enabled : Bool

-- `isConfigValid`, for a section that is there.
unfoldable pub is_config_valid : Config → Bool
is_config_valid config = truthy (some config.default_authentication)

-- The constructor; a configuration that is not valid ends the process.
unfoldable pub auth_manager : Config → Option Manager
unfolding is_config_valid
auth_manager config =
    if is_config_valid config
    then some (record {
      config = config;
      handlers = [];
      auth_types = [];
      default_type = config.default_authentication;
      pending_plugins = [];
      rbac_enabled = config.rbac;
    })
    else none

unfoldable pub register_authenticator : Manager → Plugin → Manager
register_authenticator m plugin = record m { pending_plugins = m.pending_plugins ++ plugin ∷ [] }

-- The categories of the services of a plugin: for each service, what its authentication.json says.
unfoldable pub requested_by : List (Option String) → List String → List String
requested_by [] requested = requested
requested_by (none ∷ services) requested = requested_by services requested
requested_by (some auth_type ∷ services) requested =
    requested_by services
      (if member auth_type requested then requested else requested ++ auth_type ∷ [])

unfoldable pub requested_by_plugins :
    List (Option (List (Option String))) → List String → List String
unfolding requested_by
requested_by_plugins [] requested = requested
requested_by_plugins (none ∷ plugins) requested = requested_by_plugins plugins requested
requested_by_plugins (some services ∷ plugins) requested =
    requested_by_plugins plugins (requested_by services requested)

unfoldable pub get_requested_auth_categories :
    String → List (Option (List (Option String))) → List String
unfolding requested_by_plugins
get_requested_auth_categories default_authentication plugins =
    requested_by_plugins plugins (default_authentication ∷ [])

-- `indexOf`
unfoldable pub preferred_index : String → List String → Option ℕ
preferred_index id [] = none
preferred_index id (name ∷ names) =
    let later = preferred_index id names in
    if id == name then some 0 else elim later [ none ↦ none | some n ↦ some (suc n) ]

-- `splice(n, 0, id)`
unfoldable pub insert_at : ℕ → String → List String → List String
insert_at zero id ids = id ∷ ids
insert_at (suc n) id [] = id ∷ []
insert_at (suc n) id (x ∷ ids) = x ∷ insert_at n id ids

-- The entry of the defaults for a category, if there is one.
unfoldable pub defaults_of : Config → String → Option (Option (List String))
unfolding lookup
defaults_of config category = elim config.implementation_defaults [
  | none ↦ none
  | some defaults ↦ lookup category defaults
]

unfoldable pub or_empty : Option (List String) → List String
or_empty none = []
or_empty (some ids) = ids

-- A plugin among those of a category, which may be new.
unfoldable pub placed : Option (List String) → String → List String → List String
unfolding preferred_index insert_at
placed none id ids = ids ++ id ∷ []
placed (some preferred) id ids = elim (preferred_index id preferred) [
  | none ↦ ids ++ id ∷ []
  | some n ↦ insert_at n id ids
]

-- The loop over a plugin's categories, with whether it has gone to its end: defaults without a list of
-- plugins throw, when the category has its list.
unfoldable pub add_categories :
    Config → String → List String → Assoc (List String) → Assoc (List String) × Bool
unfolding defaults_of or_empty placed lookup assign
add_categories config id [] types = (types, true)
add_categories config id (category ∷ categories) types =
    let ids = or_empty (lookup category types) in
    elim (defaults_of config category) [
      | none ↦ add_categories config id categories (assign category (placed none id ids) types)
      | some none ↦ (assign category ids types, false)
      | some (some preferred) ↦
          add_categories config id categories
            (assign category (placed (some preferred) id ids) types)
    ]

unfoldable pub categories_of : Plugin → Handler → List String
categories_of plugin handler = elim handler.own_categories [
  | some own ↦ own
  | none ↦ elim plugin.authentication_categories [
    | some categories ↦ categories
    | none ↦ plugin.authentication_category ∷ []
  ]
]

unfoldable pub any_requested : List String → List String → Bool
any_requested requested [] = false
any_requested requested (category ∷ categories) =
    let later = any_requested requested categories in
    if member category requested then true else later

module _ (module_of : Plugin → Option Handler) (ha_mode : Bool) (requested : List String) where
  -- One round of the loop of `loadAuthenticators`. What is thrown is logged, and the loop goes on.
  unfoldable pub load_plugin : Manager → Plugin → Manager
  unfolding categories_of any_requested add_categories assign
  load_plugin m plugin = elim (module_of plugin) [
    | none ↦ m
    | some handler ↦
        if handler.has_authenticate
          && (not (ha_mode && not handler.ha_compatible)
              && any_requested requested (categories_of plugin handler))
        then (let added =
              add_categories m.config plugin.identifier (categories_of plugin handler)
                m.auth_types in
            if added.1
            then record m {
              auth_types = added.0;
              handlers =
                  assign plugin.identifier (record handler { plugin_id = plugin.identifier })
                    m.handlers;
            }
            else record m { auth_types = added.0 })
        else m
  ]

  -- The plugins are popped: the last one is loaded first.
  unfoldable pub load_plugins : Manager → List Plugin → Manager
  unfolding load_plugin
  load_plugins m [] = m
  load_plugins m (plugin ∷ plugins) = load_plugin (load_plugins m plugins) plugin

  unfoldable pub load_authenticators : Manager → Manager
  unfolding load_plugins
  load_authenticators m = load_plugins (record m { pending_plugins = [] }) m.pending_plugins

-- The handler of the first plugin of a list.
unfoldable pub first_handler : Manager → List String → Option Handler
unfolding lookup
first_handler m [] = none
first_handler m (id ∷ ids) = lookup id m.handlers

-- Whether the server may go on; otherwise the process ends.
unfoldable pub validate_auth_plugin_list : Manager → Bool
unfolding lookup first_handler
validate_auth_plugin_list m = elim (lookup m.config.default_authentication m.auth_types) [
  | none ↦ false
  | some ids ↦ elim (first_handler m ids) [ none ↦ false | some handler ↦ true ]
]

unfoldable pub type_or_default : Manager → Option String → String
type_or_default m none = m.default_type
type_or_default m (some auth_type) = if auth_type == "" then m.default_type else auth_type

-- No handler is null or undefined.
unfoldable pub get_best_authentication_handler : Manager → Option String → Option Handler
unfolding lookup first_handler type_or_default
get_best_authentication_handler m auth_type =
    elim (lookup (type_or_default m auth_type) m.auth_types) [
      | none ↦ none
      | some ids ↦ first_handler m ids
    ]

-- `Object.values(this.handlers)`
unfoldable pub get_all_handlers : Manager → List Handler
get_all_handlers m = map (λ entry. entry.1) m.handlers

-- What authentication.json says of a service.
pub record AuthenticationData : Type 0 where
  pub enabled : Option Bool
  pub auth_type : Option String

-- The handler of a service: none, the one that accepts all, or a plugin's.
pub data Chosen : Type 0 where
  no_handler accept_all : Chosen
  handler_of : Option Handler → Chosen

unfoldable pub get_auth_handler_for_service : Manager → Option AuthenticationData → Chosen
unfolding get_best_authentication_handler
get_auth_handler_for_service m none = no_handler
get_auth_handler_for_service m (some data_of) = elim data_of.enabled [
  | some false ↦ accept_all
  | _ ↦ handler_of (get_best_authentication_handler m data_of.auth_type)
]
