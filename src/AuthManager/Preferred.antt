-- ===== src/AuthManager/Preferred.antt =====
-- The order of the plugins of a category in lib/auth-manager.js, and the preferred one.
use mathlib.Core.Path.{subst}
use zlux_server_framework.Base.{
  ℕ, zero, suc, String, Bool, true, false, ◌||◌, Option, none, some, List, [], ◌∷◌, ◌++◌, ◌==◌, ◌≡◌,
  refl, sym, ap, ◌∙◌, inl, inr, arith, member, member-append, Option-cases, Bool-cases, eq_iff,
  eq_refl, if◌then◌else◌,
}
use zlux_server_framework.Base.Assoc.{Assoc, lookup, assign, lookup-assign}
use zlux_server_framework.AuthManager.Defs.{
  Handler, Plugin, Config, Manager, preferred_index, insert_at, defaults_of, or_empty, placed,
  add_categories, load_plugin, load_authenticators, first_handler, type_or_default,
  get_best_authentication_handler,
}
use zlux_server_framework.AuthManager.Loading.{load_plugin_keeps, load_plugins_keep}

-- If an id is in a list, it is its head.
abbrev Heads : String → List String → Type 0
Heads p ids = member p ids ≡ true → (rest : List String) × (ids ≡ p ∷ rest)

member-insert_at :
    (p : String) (n : ℕ) (id : String) (ids : List String)
    → member p (insert_at n id ids) ≡ (p == id || member p ids)
unfolding insert_at
member-insert_at p zero id ids = refl
member-insert_at p (suc n) id [] = refl
member-insert_at p (suc n) id (x ∷ ids) = ground (arith, member-insert_at p n id ids)

same_head :
    (x p : String) (ids more : List String)
    → ((rest : List String) × (x ∷ ids ≡ p ∷ rest))
    → (rest : List String) × (x ∷ more ≡ p ∷ rest)
same_head x p ids more (rest, is) = (more, ap (λ y. y ∷ more) (ap (head_or x) is))
  where
    head_or : String → List String → String
    head_or d [] = d
    head_or d (y ∷ l) = y

apart_append :
    (p id : String) (ids : List String) → p == id ≡ false → Heads p ids → Heads p (ids ++ id ∷ [])
apart_append p id [] apart heads h = absurd (ground (arith, apart, h))
apart_append p id (x ∷ ids) apart heads h =
    let before : member p (x ∷ ids) ≡ true =
      ground (arith, member-append p (x ∷ ids) (id ∷ []), apart, h) in
    same_head x p ids (ids ++ id ∷ []) (heads before)

apart_insert :
    (p : String) (n : ℕ) (id : String) (ids : List String)
    → p == id ≡ false
    → Heads p ids
    → Heads p (insert_at (suc n) id ids)
unfolding insert_at
apart_insert p n id [] apart heads h = absurd (ground (arith, apart, h))
apart_insert p n id (x ∷ ids) apart heads h =
    let before : member p (x ∷ ids) ≡ true =
      ground (arith, member-insert_at p n id ids, apart, h) in
    same_head x p ids (insert_at n id ids) (heads before)

placed-Heads :
    (p : String) (rest : List String) (id : String) (ids : List String)
    → Heads p ids
    → Heads p (placed (some (p ∷ rest)) id ids)
unfolding placed preferred_index
placed-Heads p rest id ids heads = elim (Bool-cases (id == p)) [
  | inl same ↦
      let first : preferred_index id (p ∷ rest) ≡ some 0 = rw same refl in
      rw (placed, first, insert_at)
        (λ h. (ids, ap (λ y. y ∷ ids) (ground (arith, eq_iff id p, same))))
  | inr apart ↦
      let apart' : p == id ≡ false = ground (arith, eq_iff id p, eq_iff p id, apart) in
      elim (Option-cases (preferred_index id rest)) [
        | inl missing ↦
            let no_place : preferred_index id (p ∷ rest) ≡ none = rw (apart, missing) refl in
            rw (placed, no_place) (apart_append p id ids apart' heads)
        | inr (n, found) ↦
            let place : preferred_index id (p ∷ rest) ≡ some (suc n) = rw (apart, found) refl in
            rw (placed, place) (apart_insert p n id ids apart' heads)
      ]
]

module _ (category p : String) (rest : List String) where
  -- If the preferred plugin is among those of the category, it is the first.
  Preferred : Assoc (List String) → Type 0
  Preferred types = Heads p (or_empty (lookup category types))

  assign-apart :
      (other : String) (ids : List String) (types : Assoc (List String))
      → other == category ≡ false
      → Preferred types
      → Preferred (assign other ids types)
  unfolding Preferred
  assign-apart other ids types apart h =
      let same : lookup category (assign other ids types) ≡ lookup category types =
        lookup-assign other category ids types
        ∙ ap (λ b. if b then some ids else lookup category types) apart in
      subst (λ o. Heads p (or_empty o)) (sym same) h

  assign-here :
      (ids : List String) (types : Assoc (List String))
      → Heads p ids
      → Preferred (assign category ids types)
  unfolding Preferred or_empty
  assign-here ids types h =
      let same : lookup category (assign category ids types) ≡ some ids =
        lookup-assign category category ids types
        ∙ ap (λ b. if b then some ids else lookup category types) (eq_refl category) in
      subst (λ o. Heads p (or_empty o)) (sym same) h

  add_categories-Preferred :
      (config : Config) (id : String) (categories : List String) (types : Assoc (List String))
      → defaults_of config category ≡ some (some (p ∷ rest))
      → Preferred types
      → Preferred (add_categories config id categories types).0
  unfolding add_categories Preferred
  add_categories-Preferred config id [] types listed h = h
  add_categories-Preferred config id (c ∷ categories) types listed h =
      elim (Bool-cases (c == category)) [
        | inl same ↦
            let same' : category ≡ c = ground (arith, eq_iff c category, same) in
            let placing =
              add_categories-Preferred config id categories
                (assign category (placed (some (p ∷ rest)) id (or_empty (lookup category types)))
                  types)
                listed
                (assign-here _ types
                  (placed-Heads p rest id (or_empty (lookup category types)) h)) in
            subst (λ d. Preferred (add_categories config id (d ∷ categories) types).0) same'
              (rw (listed, add_categories) placing)
        | inr apart ↦
            let ids = or_empty (lookup c types) in
            let others = λ (preferred : Option (List String)).
              add_categories-Preferred config id categories
                (assign c (placed preferred id ids) types) listed
                (assign-apart c (placed preferred id ids) types apart h) in
            elim (Option-cases (defaults_of config c)) [
              | inl missing ↦ rw (add_categories, missing) (others none)
              | inr (list, found) ↦ elim (Option-cases list) [
                | inl no_list ↦
                    let threw : defaults_of config c ≡ some none = found ∙ ap some no_list in
                    rw (add_categories, threw) (assign-apart c ids types apart h)
                | inr (preferred, is) ↦
                    let with_list : defaults_of config c ≡ some (some preferred) =
                      found ∙ ap some is in
                    rw (add_categories, with_list) (others (some preferred))
              ]
            ]
      ]

  IsPreferring : Manager → Type 0
  IsPreferring m = (defaults_of m.config category ≡ some (some (p ∷ rest))) × Preferred m.auth_types

  load_plugin-IsPreferring :
      (module_of : Plugin → Option Handler) (ha_mode : Bool) (requested : List String) (m : Manager)
      (plugin : Plugin)
      → IsPreferring m
      → IsPreferring (load_plugin module_of ha_mode requested m plugin)
  unfolding IsPreferring
  load_plugin-IsPreferring module_of ha_mode requested m plugin (listed, h) =
      load_plugin_keeps module_of ha_mode requested IsPreferring m plugin (listed, h)
        (λ categories handler done. (
          listed,
          add_categories-Preferred m.config plugin.identifier categories m.auth_types listed h,
        ))
        (λ categories threw. (
          listed,
          add_categories-Preferred m.config plugin.identifier categories m.auth_types listed h,
        ))

  named_type : (m : Manager) → category == "" ≡ false → type_or_default m (some category) ≡ category
  unfolding type_or_default
  named_type m named = rw named refl

  chosen_first :
      (m : Manager) (ids : List String)
      → category == "" ≡ false
      → lookup category m.auth_types ≡ some ids
      → ((others : List String) × (ids ≡ p ∷ others))
      → get_best_authentication_handler m (some category) ≡ lookup p m.handlers
  unfolding get_best_authentication_handler first_handler
  chosen_first m ids named found (others, is) =
      let first : lookup category m.auth_types ≡ some (p ∷ others) = found ∙ ap some is in
      let chosen : lookup (type_or_default m (some category)) m.auth_types ≡ some (p ∷ others) =
        ap (λ d. lookup d m.auth_types) (named_type m named) ∙ first in
      rw (get_best_authentication_handler, chosen) refl

  -- The handler that is chosen for a category is that of the first plugin in its list of defaults, if that
  -- plugin is among those of the category once the plugins have been loaded, whatever the order in
  -- which they are loaded.
  pub load_authenticators-get_best_authentication_handler :
      (module_of : Plugin → Option Handler) (ha_mode : Bool) (requested : List String) (m : Manager)
      → m.auth_types ≡ []
      → defaults_of m.config category ≡ some (some (p ∷ rest))
      → category == "" ≡ false
      → (ids : List String)
      → lookup category (load_authenticators module_of ha_mode requested m).auth_types ≡ some ids
      → member p ids ≡ true
      → get_best_authentication_handler
          (load_authenticators module_of ha_mode requested m)
          (some category)
        ≡ lookup p (load_authenticators module_of ha_mode requested m).handlers
  unfolding load_authenticators get_best_authentication_handler IsPreferring Preferred or_empty
  load_authenticators-get_best_authentication_handler module_of ha_mode requested m fresh listed
        named ids found there =
      let kept =
        load_plugins_keep module_of ha_mode requested IsPreferring
          (record m { pending_plugins = [] }) m.pending_plugins (listed, none_yet)
          (load_plugin-IsPreferring module_of ha_mode requested) in
      chosen_first (load_authenticators module_of ha_mode requested m) ids named found
        (subst (λ o. Heads p (or_empty o)) found kept.1 there)
    where
      none_yet : Preferred m.auth_types
      none_yet = subst Preferred (sym fresh) (λ h. cc)
