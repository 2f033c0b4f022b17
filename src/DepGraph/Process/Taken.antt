-- ===== src/DepGraph/Process/Taken.antt =====
-- The two filters at the end of `processImports` of lib/depgraph.js.
use mathlib.Core.List.{Memᴰ}
use zlux_server_framework.Base.{
  Bool, String, true, none, some, List, [], ◌∷◌, ◌≡◌, refl, ap, ◌∙◌, map, arith, inl, inr, ◌==◌,
  eq_iff, Bool-cases, Option-cases, if◌then◌else◌, member, Distinct, before, Memᴰ-cons_ind,
  member_of_before, ◌||◌,
}
use zlux_server_framework.Base.Assoc.{lookup, without, lookup-without}
use zlux_server_framework.DepGraph.Plugin.{is_inherited, Plugin}
use zlux_server_framework.DepGraph.Build.{Plugins, add_plugin, add_plugins}
use zlux_server_framework.DepGraph.Process.{plugins_but, non_rejected, take_sorted}

abbrev pub ids : List Plugin → List String
ids plugins = map (λ p. p.identifier) plugins

-- Each plugin stands under its own identifier.
abbrev pub WellKeyed : Plugins → Type 0
WellKeyed [] = Unit
WellKeyed ((id, plugin) ∷ rest) = (plugin.identifier ≡ id) × WellKeyed rest

add_plugin-WellKeyed : (p : Plugin) (m : Plugins) → WellKeyed m → WellKeyed (add_plugin p m)
unfolding add_plugin
add_plugin-WellKeyed p [] h = (refl, tt)
add_plugin-WellKeyed p ((j, q) ∷ m) h =
    ground (arith, add_plugin-WellKeyed p m h.1, eq_iff j p.identifier)

pub add_plugins-WellKeyed :
    (l : List Plugin) (m : Plugins) → WellKeyed m → WellKeyed (add_plugins l m)
unfolding add_plugins
add_plugins-WellKeyed [] m h = h
add_plugins-WellKeyed (p ∷ l) m h =
    add_plugins-WellKeyed l (add_plugin p m) (add_plugin-WellKeyed p m h)

pub identifier_of_lookup :
    (m : Plugins) (id : String) (plugin : Plugin)
    → WellKeyed m
    → lookup id m ≡ some plugin
    → plugin.identifier ≡ id
unfolding lookup
identifier_of_lookup [] id plugin h e = absurd (ground arith)
identifier_of_lookup ((j, q) ∷ m) id plugin h e =
    ground (arith, identifier_of_lookup m id plugin h.1, eq_iff j id)

pub Memᴰ_of_lookup :
    (m : Plugins) (id : String) (plugin : Plugin) → lookup id m ≡ some plugin → Memᴰ (id, plugin) m
unfolding lookup
Memᴰ_of_lookup [] id plugin e = absurd (ground arith)
Memᴰ_of_lookup ((j, q) ∷ m) id plugin e = elim (Bool-cases (j == id)) [
  | inl here ↦
      let a : id ≡ j = ground (arith, eq_iff j id) in
      let b : plugin ≡ q = ground arith in Memᴰ.head (λ i. (a i, b i))
  | inr there ↦ Memᴰ.tail (Memᴰ_of_lookup m id plugin (ground arith))
]

without-WellKeyed : (id : String) (m : Plugins) → WellKeyed m → WellKeyed (without id m)
unfolding without
without-WellKeyed id [] h = tt
without-WellKeyed id ((j, q) ∷ m) h = ground (arith, without-WellKeyed id m h.1)

lookup-plugins_but :
    (refuses : String → Bool) (m : Plugins) (id : String)
    → WellKeyed m
    → lookup id (plugins_but refuses m) ≡ (if refuses id then none else lookup id m)
unfolding lookup plugins_but
lookup-plugins_but refuses [] id h = ground arith
lookup-plugins_but refuses ((j, q) ∷ m) id h = ground (
  arith,
  lookup-plugins_but refuses m id h.1,
  eq_iff j id,
  eq_iff q.identifier id,
  eq_iff j q.identifier,
  ap refuses {x = q.identifier} {y = id},
)

plugins_but-WellKeyed : (refuses : String → Bool) (m : Plugins) → WellKeyed (plugins_but refuses m)
unfolding plugins_but
plugins_but-WellKeyed refuses [] = tt
plugins_but-WellKeyed refuses ((j, q) ∷ m) = ground (arith, plugins_but-WellKeyed refuses m)

pub lookup-non_rejected :
    (rejects : List String) (m : Plugins) (id : String)
    → WellKeyed m
    → lookup id (non_rejected rejects m)
      ≡ (if is_inherited id || member id rejects then none else lookup id m)
unfolding non_rejected
lookup-non_rejected rejects m id h =
    lookup-plugins_but (λ x. is_inherited x || member x rejects) m id h

pub non_rejected-WellKeyed :
    (rejects : List String) (m : Plugins) → WellKeyed (non_rejected rejects m)
unfolding non_rejected
non_rejected-WellKeyed rejects m = plugins_but-WellKeyed (λ x. is_inherited x || member x rejects) m

-- A listed id that has its plugin is taken.
pub member-take_sorted :
    (l : List String) (m : Plugins) (x : String) (plugin : Plugin)
    → WellKeyed m
    → member x l ≡ true
    → lookup x m ≡ some plugin
    → member x (ids (take_sorted l m)) ≡ true
unfolding take_sorted
member-take_sorted [] m x plugin h i e = cc
member-take_sorted (id ∷ l) m x plugin h i e = elim (Option-cases (lookup id m)) [
  | inl missing ↦ ground (
    arith,
    eq_iff x id,
    lookup-without id x m,
    eq_iff id x,
    member-take_sorted l (without id m) x plugin (without-WellKeyed id m h),
  )
  | inr (q, here) ↦ ground (
    arith,
    eq_iff x id,
    lookup-without id x m,
    eq_iff id x,
    eq_iff x q.identifier,
    identifier_of_lookup m id q h here,
    member-take_sorted l (without id m) x plugin (without-WellKeyed id m h),
  )
]

take_sorted-none :
    (id : String) (l : List String) (m : Plugins)
    → lookup id m ≡ none
    → take_sorted (id ∷ l) m ≡ take_sorted l (without id m)
unfolding take_sorted
take_sorted-none id l m e = ground arith

take_sorted-some :
    (id : String) (l : List String) (m : Plugins) (q : Plugin)
    → lookup id m ≡ some q
    → take_sorted (id ∷ l) m ≡ q ∷ take_sorted l (without id m)
unfolding take_sorted
take_sorted-some id l m q e = ground arith

lookup_of_without :
    (id j : String) (m : Plugins) (q : Plugin)
    → lookup j (without id m) ≡ some q
    → lookup j m ≡ some q
lookup_of_without id j m q e = ground (arith, lookup-without id j m)

take_sorted-nil : (m : Plugins) (p : Plugin) → ¬ (Memᴰ p (take_sorted [] m))
unfolding take_sorted
take_sorted-nil m p i = elim i [ ]

-- What is taken stands in the map.
pub Memᴰ-take_sorted :
    (l : List String) (m : Plugins) (plugin : Plugin)
    → WellKeyed m
    → Memᴰ plugin (take_sorted l m)
    → lookup plugin.identifier m ≡ some plugin
Memᴰ-take_sorted [] m plugin h i = absurd (take_sorted-nil m plugin i)
Memᴰ-take_sorted (id ∷ l) m plugin h i =
    let m' = without id m in
    let rest : (p : Plugin) → Memᴰ p (take_sorted l m') → lookup p.identifier m ≡ some p = λ p j.
      lookup_of_without id p.identifier m p
        (Memᴰ-take_sorted l m' p (without-WellKeyed id m h) j) in
    elim (Option-cases (lookup id m)) [
      | inl missing ↦ rest plugin (rw (take_sorted-none id l m missing) at i)
      | inr (q, here) ↦
          Memᴰ-cons_ind (λ p. lookup p.identifier m ≡ some p) q (take_sorted l m')
            (ap (λ k. lookup k m) (identifier_of_lookup m id q h here) ∙ here) rest plugin
            (rw (take_sorted-some id l m q here) at i)
    ]

-- What is taken is listed.
pub member_of_take_sorted :
    (l : List String) (m : Plugins) (x : String)
    → WellKeyed m
    → member x (ids (take_sorted l m)) ≡ true
    → (member x l ≡ true) × ((q : Plugin) × (lookup x m ≡ some q))
unfolding take_sorted
member_of_take_sorted [] m x h i = absurd (ground arith)
member_of_take_sorted (id ∷ l) m x h i =
    let m' = without id m in
    let rest : member x (ids (take_sorted l m')) ≡ true
        → (member x (id ∷ l) ≡ true) × ((q : Plugin) × (lookup x m ≡ some q)) =
      λ j.
        let (listed, (q, e)) = member_of_take_sorted l m' x (without-WellKeyed id m h) j in
        (ground arith, (q, lookup_of_without id x m q e)) in
    elim (Option-cases (lookup id m)) [
      | inl missing ↦ rest (rw (take_sorted-none id l m missing) at i)
      | inr (q, here) ↦
          let i' : (x == q.identifier || member x (ids (take_sorted l m'))) ≡ true =
            rw (take_sorted-some id l m q here) at i in
          elim (Bool-cases (x == id)) [
            | inl same ↦ (ground arith, (q, ground (arith, eq_iff x id)))
            | inr other ↦ rest (
                ground
                  (arith, eq_iff x id, eq_iff x q.identifier, identifier_of_lookup m id q h here))
          ]
    ]

pub take_sorted-Distinct :
    (l : List String) (m : Plugins) → WellKeyed m → Distinct l → Distinct (ids (take_sorted l m))
unfolding take_sorted
take_sorted-Distinct [] m h d = tt
take_sorted-Distinct (id ∷ l) m h d =
    let m' = without id m in
    let rest = take_sorted-Distinct l m' (without-WellKeyed id m h) d.1 in
    elim (Option-cases (lookup id m)) [
      | inl missing ↦ rw (take_sorted-none id l m missing) rest
      | inr (q, here) ↦
          let same = identifier_of_lookup m id q h here in
          rw (take_sorted-some id l m q here) (
            elim (Bool-cases (member q.identifier (ids (take_sorted l m')))) [
              | inr absent ↦ absent
              | inl twice ↦ absurd (
                  let (listed, _) =
                    member_of_take_sorted l m' q.identifier (without-WellKeyed id m h) twice in
                  ground (arith, d.0, ap (λ s. member s l) same))
            ],
            rest,
          )
    ]

-- The order of the list is the order of what is taken.
pub before-take_sorted :
    (l : List String) (m : Plugins) (x y : String) (q r : Plugin)
    → WellKeyed m
    → Distinct l
    → lookup x m ≡ some q
    → lookup y m ≡ some r
    → before x y l ≡ true
    → before x y (ids (take_sorted l m)) ≡ true
unfolding take_sorted
before-take_sorted [] m x y q r h d ex ey b = cc
before-take_sorted (id ∷ l) m x y q r h d ex ey b =
    let m' = without id m in
    let h' = without-WellKeyed id m h in
    elim (Bool-cases (x == id)) [
      | inl first ↦
          let same : x ≡ id = (eq_iff x id).0 first in
          let listed : member y l ≡ true = ground arith in
          let here : lookup id m ≡ some q = rw same at ex in
          let key = identifier_of_lookup m id q h here in
          let ey' : lookup y m' ≡ some r =
            ground (arith, lookup-without id y m, eq_iff id y, d.0, ap (λ s. member s l) same) in
          rw (take_sorted-some id l m q here)
            (ground (arith, eq_iff x q.identifier, member-take_sorted l m' y r h' listed ey'))
      | inr later ↦
          let b' : before x y l ≡ true = ground arith in
          let listed = member_of_before x y l b' in
          let ex' : lookup x m' ≡ some q =
            ground (arith, lookup-without id x m, eq_iff id x, eq_iff x id) in
          let ey' : lookup y m' ≡ some r =
            ground (arith, lookup-without id y m, eq_iff id y, d.0) in
          let rest = before-take_sorted l m' x y q r h' d.1 ex' ey' b' in
          elim (Option-cases (lookup id m)) [
            | inl missing ↦ rw (take_sorted-none id l m missing) rest
            | inr (p, here) ↦ rw (take_sorted-some id l m p here) (
                ground
                  (arith, eq_iff x p.identifier, eq_iff x id, identifier_of_lookup m id p h here))
          ]
    ]
