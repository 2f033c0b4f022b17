-- ===== src/AuthManager/Loading.antt =====
-- What the loading of plugins leaves in the authentication manager of lib/auth-manager.js.
use zlux_server_framework.Base.{
  String, Bool, true, false, Option, some, List, [], ◌∷◌, ◌==◌, ◌≡◌, ap, ◌∙◌, inl, inr,
  Option-cases, Bool-cases, if_ind, eq_refl, if◌then◌else◌,
}
use zlux_server_framework.Base.Assoc.{Assoc, lookup, assign, lookup-assign}
use zlux_server_framework.AuthManager.Defs.{
  Handler, Plugin, Manager, add_categories, categories_of, load_plugin, load_plugins,
  load_authenticators,
}
use zlux_server_framework.AuthManager.Filled.{WellFormed, Filled, Filled-map, add_categories-Filled}

abbrev pub Known : Assoc Handler → String → Type 0
Known handlers id = (handler : Handler) × (lookup id handlers ≡ some handler)

Known-assign_self :
    (id : String) (handler : Handler) (handlers : Assoc Handler)
    → Known (assign id handler handlers) id
Known-assign_self id handler handlers = (
  handler,
  lookup-assign id id handler handlers
      ∙ ap (λ b. if b then some handler else lookup id handlers) (eq_refl id),
)

Known-assign :
    (id : String) (handler : Handler) (handlers : Assoc Handler) (other : String)
    → Known handlers other
    → Known (assign id handler handlers) other
Known-assign id handler handlers other (was, found) = elim (Bool-cases (id == other)) [
  | inl same ↦ (
    handler,
    lookup-assign id other handler handlers
        ∙ ap (λ b. if b then some handler else lookup other handlers) same,
  )
  | inr apart ↦ (
    was,
    lookup-assign id other handler handlers
        ∙ (ap (λ b. if b then some handler else lookup other handlers) apart ∙ found),
  )
]

-- Each plugin of each category has its handler, and no category is without a plugin.
unfoldable pub Sound : Manager → Type 0
unfolding Filled
Sound m = Filled (Known m.handlers) m.auth_types

module _ (module_of : Plugin → Option Handler) (ha_mode : Bool) (requested : List String) where
  -- A proof rule for the loading of a plugin: what holds before it holds after it if it holds after the
  -- plugin's categories have been added, with its handler or, where that has thrown, without it.
  pub load_plugin_keeps :
      (Q : Manager → Type 0) (m : Manager) (plugin : Plugin)
      → Q m
      → ((categories : List String) (handler : Handler)
          → (add_categories m.config plugin.identifier categories m.auth_types).1 ≡ true
          → Q (record m {
            auth_types = (add_categories m.config plugin.identifier categories m.auth_types).0;
            handlers = assign plugin.identifier handler m.handlers;
          }))
      → ((categories : List String)
          → (add_categories m.config plugin.identifier categories m.auth_types).1 ≡ false
          → Q (record m {
            auth_types = (add_categories m.config plugin.identifier categories m.auth_types).0;
          }))
      → Q (load_plugin module_of ha_mode requested m plugin)
  unfolding load_plugin
  load_plugin_keeps Q m plugin q whole cut = elim (Option-cases (module_of plugin)) [
    | inl fails ↦ rw (fails, load_plugin) q
    | inr (handler, loaded) ↦
        rw (loaded, load_plugin)
          (if_ind Q _
            (λ _.
              if_ind Q
                (add_categories m.config plugin.identifier (categories_of plugin handler)
                  m.auth_types).1
                (λ done.
                  whole (categories_of plugin handler)
                    (record handler { plugin_id = plugin.identifier }) done)
                (λ threw. cut (categories_of plugin handler) threw))
            (λ _. q))
  ]

  pub load_plugins_keep :
      (Q : Manager → Type 0) (m : Manager) (plugins : List Plugin)
      → Q m
      → ((m : Manager) (plugin : Plugin)
          → Q m
          → Q (load_plugin module_of ha_mode requested m plugin))
      → Q (load_plugins module_of ha_mode requested m plugins)
  unfolding load_plugins
  load_plugins_keep Q m [] q one = q
  load_plugins_keep Q m (plugin ∷ plugins) q one =
      one (load_plugins module_of ha_mode requested m plugins) plugin
        (load_plugins_keep Q m plugins q one)

  load_plugin-Sound :
      (m : Manager) (plugin : Plugin)
      → WellFormed m.config × Sound m
      → WellFormed (load_plugin module_of ha_mode requested m plugin).config
        × Sound (load_plugin module_of ha_mode requested m plugin)
  unfolding Sound
  load_plugin-Sound m plugin (formed, sound) =
      load_plugin_keeps (λ n. WellFormed n.config × Sound n) m plugin (formed, sound)
        (λ categories handler done. (
          formed,
          (add_categories-Filled (Known (assign plugin.identifier handler m.handlers)) m.config
              plugin.identifier categories m.auth_types formed
              (Known-assign_self plugin.identifier handler m.handlers)
              (Filled-map _ _ m.auth_types (Known-assign plugin.identifier handler m.handlers)
                sound)).0,
        ))
        (λ categories threw. absurd (
          never
            (add_categories-Filled (λ _. Unit) m.config plugin.identifier categories m.auth_types
              formed tt (Filled-map _ _ m.auth_types (λ _ _. tt) sound)).1
            threw))
    where
      never : {b : Bool} → b ≡ true → b ≡ false → ⊥
      never h h' = cc

  -- Once the plugins have been loaded, each plugin of each category has its handler, and no category is
  -- without a plugin, if this held before and each list of defaults has its plugins.
  pub load_authenticators-Sound :
      (m : Manager)
      → WellFormed m.config
      → Sound m
      → Sound (load_authenticators module_of ha_mode requested m)
  unfolding load_authenticators Sound
  load_authenticators-Sound m formed sound =
      (load_plugins_keep (λ n. WellFormed n.config × Sound n) (record m { pending_plugins = [] })
        m.pending_plugins (formed, sound) load_plugin-Sound).1
