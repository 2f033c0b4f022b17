-- ===== src/AuthManager/Choice.antt =====
-- Which handler the authentication manager of lib/auth-manager.js chooses.
use zlux_server_framework.Base.{
  String, true, false, Option, none, some, List, [], ◌∷◌, ◌≡◌, ◌↔◌, refl, ap, ◌∙◌, inl, inr, All,
  Option-cases,
}
use zlux_server_framework.Base.Assoc.{lookup}
use zlux_server_framework.AuthManager.Defs.{
  Handler, Manager, first_handler, validate_auth_plugin_list, type_or_default,
  get_best_authentication_handler,
}
use zlux_server_framework.AuthManager.Loading.{Known, Sound}

-- Where each plugin of a category has its handler and no category is without a plugin, there is no handler
-- for a type exactly if the type, or the default in its place, is not a category.
pub get_best_authentication_handler-none :
    (m : Manager) (auth_type : Option String)
    → Sound m
    → get_best_authentication_handler m auth_type ≡ none
      ↔ lookup (type_or_default m auth_type) m.auth_types ≡ none
unfolding get_best_authentication_handler Sound
get_best_authentication_handler-none m auth_type sound = (
  λ e. elim (Option-cases (lookup (type_or_default m auth_type) m.auth_types)) [
    | inl missing ↦ missing
    | inr (ids, found) ↦ absurd (
        has_handler ids (sound (type_or_default m auth_type) ids found)
          (rw (found, get_best_authentication_handler) at e))
  ],
  λ missing. rw (missing, get_best_authentication_handler) refl,
)
  where
    has_handler :
        (ids : List String)
        → All (Known m.handlers) ids × ((x : String) × ((rest : List String) × (ids ≡ x ∷ rest)))
        → first_handler m ids ≡ none
        → ⊥
    has_handler [] (all, (x, (rest, is))) e = cc
    has_handler (id ∷ ids) (((handler, known), all), one) e = missing_known known e
      where
        missing_known :
            {handler : Handler}
            → lookup id m.handlers ≡ some handler
            → first_handler m (id ∷ ids) ≡ none
            → ⊥
        missing_known known e = cc

-- The server may go on exactly if a service without a type has a handler.
pub validate_auth_plugin_list-get_best_authentication_handler :
    (m : Manager)
    → m.default_type ≡ m.config.default_authentication
    → validate_auth_plugin_list m ≡ true
      ↔ ((handler : Handler) × (get_best_authentication_handler m none ≡ some handler))
unfolding validate_auth_plugin_list get_best_authentication_handler type_or_default
validate_auth_plugin_list-get_best_authentication_handler m same =
    elim (Option-cases (lookup m.config.default_authentication m.auth_types)) [
      | inl missing ↦
          let missing' : lookup m.default_type m.auth_types ≡ none =
            ap (λ d. lookup d m.auth_types) same ∙ missing in
          rw (validate_auth_plugin_list, missing, get_best_authentication_handler, missing')
            (λ e. absurd (differ e), λ (h, e). absurd (nothing e))
      | inr (ids, found) ↦
          let found' : lookup m.default_type m.auth_types ≡ some ids =
            ap (λ d. lookup d m.auth_types) same ∙ found in
          elim (Option-cases (first_handler m ids)) [
            | inl none_there ↦
                rw
                  (
                    validate_auth_plugin_list, found, get_best_authentication_handler, found',
                    none_there,
                  )
                  (λ e. absurd (differ e), λ (h, e). absurd (nothing e))
            | inr (handler, there) ↦
                rw
                  (validate_auth_plugin_list, found, get_best_authentication_handler, found', there)
                  (λ e. (handler, refl), λ (h, e). refl)
          ]
    ]
  where
    differ : false ≡ true → ⊥
    differ e = cc

    nothing : {h : Handler} → none ≡ some h → ⊥
    nothing e = cc
