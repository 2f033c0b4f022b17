-- ===== src/AuthManager/Tests.antt =====
-- Tests and examples for lib/auth-manager.js.
use zlux_server_framework.Base.{String, true, false, Option, none, some, List, [], ◌∷◌, ◌≡◌, refl}
use zlux_server_framework.Base.Assoc.{lookup}
use zlux_server_framework.AuthManager.Defs.{
  Handler, Plugin, Config, Manager, defaults_of, load_authenticators, validate_auth_plugin_list,
  get_best_authentication_handler,
}
use zlux_server_framework.AuthManager.Preferred.{
  load_authenticators-get_best_authentication_handler,
}

abbrev saf_plugin : Plugin
saf_plugin = record {
  identifier = "saf";
  authentication_categories = none;
  authentication_category = "zss";
}

abbrev sso_plugin : Plugin
sso_plugin = record {
  identifier = "sso";
  authentication_categories = some ("apiml" ∷ "zss" ∷ []);
  authentication_category = "";
}

abbrev other_plugin : Plugin
other_plugin = record {
  identifier = "other";
  authentication_categories = none;
  authentication_category = "other";
}

abbrev handler_with : String → Handler
handler_with id = record {
  plugin_id = id;
  has_authenticate = true;
  ha_compatible = true;
  own_categories = none;
}

-- Each plugin's module gives a handler.
abbrev good_module : Plugin → Option Handler
good_module plugin = some (handler_with "")

abbrev config_for : List String → Config
config_for preferred = record {
  default_authentication = "zss";
  implementation_defaults = some (("zss", some preferred) ∷ []);
  rbac = false;
}

abbrev manager_with : List String → List Plugin → Manager
manager_with preferred plugins = record {
  config = config_for preferred;
  handlers = [];
  auth_types = [];
  default_type = "zss";
  pending_plugins = plugins;
  rbac_enabled = false;
}

abbrev sso_first : Manager
sso_first = manager_with ("sso" ∷ "saf" ∷ []) (sso_plugin ∷ other_plugin ∷ saf_plugin ∷ [])

abbrev sso_loaded : Manager
sso_loaded = record sso_first {
  pending_plugins = [];
  handlers = ("saf", handler_with "saf") ∷ ("sso", handler_with "sso") ∷ [];
  auth_types = ("zss", "sso" ∷ "saf" ∷ []) ∷ ("apiml", "sso" ∷ []) ∷ [];
}

-- The plugin whose category is not asked for is left out.
load_authenticators-sso_first :
    load_authenticators good_module false ("zss" ∷ []) sso_first ≡ sso_loaded
unfolding load_authenticators
load_authenticators-sso_first = refl

-- Where the first plugin of the defaults is not there, the plugins do not stand in the order of the defaults.
load_authenticators_order :
    lookup "zss"
      (load_authenticators good_module false
        ("zss" ∷ [])
        (manager_with ("absent" ∷ "sso" ∷ "saf" ∷ []) (sso_plugin ∷ saf_plugin ∷ []))).auth_types
    ≡ some ("saf" ∷ "sso" ∷ [])
unfolding load_authenticators lookup
load_authenticators_order = refl

load_authenticators-get_best_authentication_handler_example :
    get_best_authentication_handler
      (load_authenticators good_module false ("zss" ∷ []) sso_first)
      (some "zss")
    ≡ lookup "sso" (load_authenticators good_module false ("zss" ∷ []) sso_first).handlers
unfolding load_authenticators lookup defaults_of
load_authenticators-get_best_authentication_handler_example =
    load_authenticators-get_best_authentication_handler "zss" "sso" ("saf" ∷ []) good_module false
      ("zss" ∷ []) sso_first refl refl refl ("sso" ∷ "saf" ∷ []) refl refl

-- A server whose default has a handler may start.
validate_auth_plugin_list_loaded : validate_auth_plugin_list sso_loaded ≡ true
unfolding validate_auth_plugin_list
validate_auth_plugin_list_loaded = refl

-- Defaults without a list of plugins leave an id without a handler, and the category without a plugin.
abbrev without_list : Manager
without_list = record (manager_with [] (sso_plugin ∷ [])) {
  config = record (config_for []) { implementation_defaults = some (("zss", none) ∷ []) };
}

load_authenticators-without_list :
    load_authenticators good_module false ("zss" ∷ []) without_list ≡ record without_list {
      pending_plugins = [];
      auth_types = ("apiml", "sso" ∷ []) ∷ ("zss", []) ∷ [];
    }
unfolding load_authenticators
load_authenticators-without_list = refl
