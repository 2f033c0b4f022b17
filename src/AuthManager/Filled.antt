-- ===== src/AuthManager/Filled.antt =====
-- The lists of plugins of the categories in lib/auth-manager.js.
use zlux_server_framework.Base.{
  ℕ, zero, suc, String, true, Option, none, some, List, [], ◌∷◌, ◌++◌, ◌==◌, ◌≡◌, ◌≢◌, refl, sym,
  ap, ◌∙◌, inl, inr, All, All-append, All-map, Option-cases, Bool-cases,
}
use zlux_server_framework.Base.Assoc.{Assoc, lookup, assign, lookup-assign}
use zlux_server_framework.AuthManager.Defs.{
  Config, preferred_index, insert_at, defaults_of, or_empty, placed, add_categories,
}

-- Each list of defaults has its plugins.
pub record WellFormed (config : Config) : Type 0 where
  pub has_plugins : (category : String) → defaults_of config category ≢ some none

-- Each category has a plugin, and each of its plugins satisfies the predicate.
unfoldable pub Filled : (String → Type 0) → Assoc (List String) → Type 0
Filled P types =
    (category : String) (ids : List String)
    → lookup category types ≡ some ids
    → All P ids × ((x : String) × ((rest : List String) × (ids ≡ x ∷ rest)))

module _ (P : String → Type 0) where
  All-insert_at :
      (n : ℕ) (id : String) (ids : List String) → P id → All P ids → All P (insert_at n id ids)
  unfolding insert_at
  All-insert_at zero id ids h hs = (h, hs)
  All-insert_at (suc n) id [] h hs = (h, tt)
  All-insert_at (suc n) id (x ∷ ids) h hs = (hs.0, All-insert_at n id ids h hs.1)

  All-placed :
      (preferred : Option (List String)) (id : String) (ids : List String)
      → P id
      → All P ids
      → All P (placed preferred id ids)
  unfolding placed
  All-placed none id ids h hs = All-append P ids (id ∷ []) hs (h, tt)
  All-placed (some preferred) id ids h hs = elim (Option-cases (preferred_index id preferred)) [
    | inl missing ↦ rw (missing, placed) (All-append P ids (id ∷ []) hs (h, tt))
    | inr (n, found) ↦ rw (found, placed) (All-insert_at n id ids h hs)
  ]

append_one :
    (id : String) (ids : List String)
    → (x : String) × ((rest : List String) × (ids ++ id ∷ [] ≡ x ∷ rest))
append_one id [] = (id, ([], refl))
append_one id (x ∷ ids) = (x, (ids ++ id ∷ [], refl))

insert_one :
    (n : ℕ) (id : String) (ids : List String)
    → (x : String) × ((rest : List String) × (insert_at n id ids ≡ x ∷ rest))
unfolding insert_at
insert_one zero id ids = (id, (ids, refl))
insert_one (suc n) id [] = (id, ([], refl))
insert_one (suc n) id (x ∷ ids) = (x, (insert_at n id ids, refl))

placed_one :
    (preferred : Option (List String)) (id : String) (ids : List String)
    → (x : String) × ((rest : List String) × (placed preferred id ids ≡ x ∷ rest))
unfolding placed
placed_one none id ids = append_one id ids
placed_one (some preferred) id ids = elim (Option-cases (preferred_index id preferred)) [
  | inl missing ↦ rw (missing, placed) (append_one id ids)
  | inr (n, found) ↦ rw (found, placed) (insert_one n id ids)
]

module _ (P : String → Type 0) where
  assign-Filled :
      (category : String) (ids : List String) (types : Assoc (List String))
      → Filled P types
      → All P ids
      → ((x : String) × ((rest : List String) × (ids ≡ x ∷ rest)))
      → Filled P (assign category ids types)
  unfolding Filled
  assign-Filled category ids types filled h one other ids' e =
      let e' = sym (lookup-assign category other ids types) ∙ e in
      elim (Bool-cases (category == other)) [
        | inl same ↦ let now : ids ≡ ids' = ap (or_ids ids) (rw same at e') in rw (← now) (h, one)
        | inr apart ↦ filled other ids' (rw apart at e')
      ]
    where
      or_ids : List String → Option (List String) → List String
      or_ids l none = l
      or_ids l (some l') = l'

  or_empty-Filled :
      (category : String) (types : Assoc (List String))
      → Filled P types
      → All P (or_empty (lookup category types))
  unfolding or_empty Filled
  or_empty-Filled category types filled = elim (Option-cases (lookup category types)) [
    | inl missing ↦ rw (missing, or_empty) tt
    | inr (ids, found) ↦ rw (found, or_empty) (filled category ids found).0
  ]

  pub add_categories-Filled :
      (config : Config) (id : String) (categories : List String) (types : Assoc (List String))
      → WellFormed config
      → P id
      → Filled P types
      → Filled P (add_categories config id categories types).0
        × ((add_categories config id categories types).1 ≡ true)
  unfolding add_categories
  add_categories-Filled config id [] types formed h filled = (filled, refl)
  add_categories-Filled config id (category ∷ categories) types formed h filled =
      let ids = or_empty (lookup category types) in
      let added = λ (preferred : Option (List String)).
        add_categories-Filled config id categories (assign category (placed preferred id ids) types)
          formed h
          (assign-Filled category (placed preferred id ids) types filled
            (All-placed P preferred id ids h (or_empty-Filled category types filled))
            (placed_one preferred id ids)) in
      elim (Option-cases (defaults_of config category)) [
        | inl missing ↦ rw (missing, add_categories) (added none)
        | inr (list, found) ↦ elim (Option-cases list) [
          | inl no_list ↦ absurd (formed.has_plugins category (found ∙ ap some no_list))
          | inr (preferred, is) ↦
              let listed : defaults_of config category ≡ some (some preferred) =
                found ∙ ap some is in
              rw (listed, add_categories) (added (some preferred))
        ]
      ]

pub Filled-map :
    (P Q : String → Type 0) (types : Assoc (List String))
    → ((id : String) → P id → Q id)
    → Filled P types
    → Filled Q types
unfolding Filled
Filled-map P Q types f filled category ids e =
    let (all, one) = filled category ids e in (All-map P Q ids f all, one)
