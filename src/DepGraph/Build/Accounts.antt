-- ===== src/DepGraph/Build/Accounts.antt =====
-- The loops of `_buildGraph` of lib/depgraph.js: when it returns, each import has its link.
use mathlib.Core.List.{Memᴰ}
use zlux_server_framework.Base.{
  ℕ, ◌+◌, String, true, false, List, [], ◌∷◌, ◌≡◌, arith, inl, inr, Bool-cases, if_ind,
  Option-cases, if◌then◌else◌, ◌==◌, Memᴰ-cons_ind,
}
use zlux_server_framework.Base.Assoc.{lookup}
use zlux_server_framework.Base.Outcome.{Outcome, ok, raised, >>=-eq-ok}
use zlux_server_framework.DepGraph.Plugin.{
  Service, Plugin, Semver, DepLink, Fault, type_error, is_inherited,
}
use zlux_server_framework.DepGraph.Validate.{validate_dep}
use zlux_server_framework.DepGraph.Build.{
  Plugins, Build, make_link, ensure_node, file_link, add_import, add_link, add_services, add_node,
  add_nodes,
}
use zlux_server_framework.DepGraph.Build.Grows.{
  HasNode, Grows-refl, HasNode-Grows, ensure_node-Grows, ensure_node-HasNode,
}
use zlux_server_framework.DepGraph.Build.Links.{
  ImportsFrom, Account, Extends, Extends-trans, Account-Extends, Ready, Ready-Grows,
  file_link-Extends, file_link-Ready, same_provider, file_link-Account,
}

Extends-refl : (b : Build) → Extends b b
Extends-refl b = record { grows = Grows-refl b.graph; more = λ d m. m }

ensure-Extends : (id : String) (b : Build) → Extends b (record b { graph = ensure_node id b.graph })
ensure-Extends id b = record { grows = ensure_node-Grows id b.graph; more = λ d m. m }

-- A step of the first pass: nothing is lost, and each broken link has the node of its provider.
pub record Step (b b' : Build) : Type 0 where
  pub extends : Extends b b'
  pub ready : Ready b'.graph b'.broken_deps

Step-trans : {a b c : Build} → Step a b → Step b c → Step a c
Step-trans x y = record { extends = Extends-trans x.extends y.extends; ready = y.ready }

module _ (semver : Semver) (plugins : Plugins) where
  add_link_lem :
      (id : String) (i : ℕ) (service : Service) (b b' : Build)
      → Ready b.graph b.broken_deps
      → is_inherited service.source_plugin ≡ false
      → add_link semver plugins id i service b ≡ ok b'
      → Step b b' × Account plugins b' [] id service.source_plugin
  unfolding add_link make_link
  add_link_lem id i service b b' r own e =
      let b₁ : Build = record b { graph = ensure_node service.source_plugin b.graph } in
      let dep : DepLink = make_link id i service in
      let (link, valid, last) =
        >>=-eq-ok (validate_dep semver b.versions dep (lookup service.source_plugin plugins))
          (λ link. ok (file_link b₁ link)) e in
      let same : file_link b₁ link ≡ b' = cc in
      let h : HasNode b₁.graph link.provider =
        rw (same_provider semver plugins b.versions dep link valid)
          (ensure_node-HasNode service.source_plugin b.graph own) in
      rw (← same) (
        record {
          extends =
              Extends-trans (ensure-Extends service.source_plugin b) (file_link-Extends b₁ link);
          ready =
              file_link-Ready b₁ link h
                (Ready-Grows b.broken_deps (ensure_node-Grows service.source_plugin b.graph) r);
        },
        file_link-Account semver plugins b.versions dep link valid b₁ h,
      )

  add_import_of_own :
      (id : String) (i : ℕ) (service : Service) (b b' : Build)
      → add_import semver plugins id i service b ≡ ok b'
      → (is_inherited service.source_plugin ≡ false)
        × (add_link semver plugins id i service b ≡ ok b')
  unfolding add_import
  add_import_of_own id i service b b' =
      if_ind
        (λ o.
          o ≡ ok b'
          → (is_inherited service.source_plugin ≡ false)
            × (add_link semver plugins id i service b ≡ ok b'))
        (is_inherited service.source_plugin) (λ inherited e. absurd (never e)) (λ own e. (own, e))
    where
      never : {c : Build} → ◌≡◌ {A = Outcome Fault Build} (raised type_error) (ok c) → ⊥
      never h = cc

  add_import_lem :
      (id : String) (i : ℕ) (service : Service) (b b' : Build)
      → Ready b.graph b.broken_deps
      → add_import semver plugins id i service b ≡ ok b'
      → Step b b'
        × (Account plugins b' [] id service.source_plugin
            × (is_inherited service.source_plugin ≡ false))
  add_import_lem id i service b b' r e =
      let (own, done) = add_import_of_own id i service b b' e in
      let (step, account) = add_link_lem id i service b b' r own done in (step, (account, own))

  add_services_lem :
      (id : String) (services : List Service) (i : ℕ) (b b' : Build)
      → Ready b.graph b.broken_deps
      → add_services semver plugins id services i b ≡ ok b'
      → Step b b'
        × ((service : Service)
            → Memᴰ service services
            → (service.type == "import") ≡ true
            → Account plugins b' [] id service.source_plugin
              × (is_inherited service.source_plugin ≡ false))
  unfolding add_services
  add_services_lem id [] i b b' r e =
      let same : b ≡ b' = cc in
      rw (← same) (record { extends = Extends-refl b; ready = r }, λ service m imp. elim m [ ])
  add_services_lem id (service ∷ services) i b b' r e =
      let (c, first, others) =
        >>=-eq-ok
          (if service.type == "import" then add_import semver plugins id i service b else ok b)
          (add_services semver plugins id services (i + 1)) e in
      elim (Bool-cases (service.type == "import")) [
        | inl imp ↦
            let (step, account) = add_import_lem id i service b c r (ground arith) in
            let (steps, rest) = add_services_lem id services (i + 1) c b' step.ready others in
            (
              Step-trans step steps,
              Memᴰ-cons_ind
                  (λ s.
                    (s.type == "import") ≡ true
                    → Account plugins b' [] id s.source_plugin
                      × (is_inherited s.source_plugin ≡ false))
                  service services
                  (λ yes_import. (Account-Extends steps.extends account.0, account.1)) rest,
            )
        | inr other ↦
            let same : b ≡ c = ground arith in
            let (steps, rest) = add_services_lem id services (i + 1) c b' (rw same at r) others in
            (
              rw same steps,
              Memᴰ-cons_ind
                  (λ s.
                    (s.type == "import") ≡ true
                    → Account plugins b' [] id s.source_plugin
                      × (is_inherited s.source_plugin ≡ false))
                  service services (λ yes_import. absurd (ground arith)) rest,
            )
      ]

  -- Each import of the plugin has its link, and its provider is no inherited key.
  abbrev pub Accounted : Build → Plugin → Type 0
  Accounted b plugin =
      (p : String)
      → ImportsFrom plugin p
      → Account plugins b [] plugin.identifier p × (is_inherited p ≡ false)

  -- The plugin has its node, unless `g` inherits its identifier.
  abbrev pub OwnNode : Build → Plugin → Type 0
  OwnNode b plugin = is_inherited plugin.identifier ≡ false → HasNode b.graph plugin.identifier

  add_node_lem :
      (plugin : Plugin) (b b' : Build)
      → Ready b.graph b.broken_deps
      → add_node semver plugins plugin b ≡ ok b'
      → Step b b' × Accounted b' plugin × OwnNode b' plugin
  unfolding add_node
  add_node_lem plugin b b' r e =
      let id = plugin.identifier in
      let b₁ : Build = record b { graph = ensure_node id b.graph } in
      let r₁ : Ready b₁.graph b₁.broken_deps =
        Ready-Grows b.broken_deps (ensure_node-Grows id b.graph) r in
      elim (Option-cases plugin.data_services) [
        | inl missing ↦
            let same : b₁ ≡ b' = ground arith in
            rw (← same) (
              record { extends = ensure-Extends id b; ready = r₁ },
              λ p imports. absurd (ground (arith, imports.has_services)),
              λ own. ensure_node-HasNode id b.graph own,
            )
        | inr (services, has) ↦
            let (step, all) = add_services_lem id services 0 b₁ b' r₁ (ground arith) in
            (
              Step-trans (record { extends = ensure-Extends id b; ready = r₁ }) step,
              λ p imports.
                  let same : imports.services ≡ services = ground (arith, imports.has_services) in
                  rw (← imports.from)
                    (all imports.service (rw same at imports.listed) imports.is_import),
              λ own. HasNode-Grows id step.extends.grows (ensure_node-HasNode id b.graph own),
            )
      ]

  Accounted-Extends :
      {b b' : Build} (plugin : Plugin) → Extends b b' → Accounted b plugin → Accounted b' plugin
  Accounted-Extends plugin x h p imports =
      let (account, own) = h p imports in (Account-Extends x account, own)

  pub add_nodes_lem :
      (rest : Plugins) (b b' : Build)
      → Ready b.graph b.broken_deps
      → add_nodes semver plugins rest b ≡ ok b'
      → Step b b'
        × ((entry : String × Plugin) → Memᴰ entry rest → Accounted b' entry.1 × OwnNode b' entry.1)
  unfolding add_nodes
  add_nodes_lem [] b b' r e =
      let same : b ≡ b' = cc in
      rw (← same) (record { extends = Extends-refl b; ready = r }, λ entry m. elim m [ ])
  add_nodes_lem ((id, plugin) ∷ rest) b b' r e =
      let (c, first, others) =
        >>=-eq-ok (add_node semver plugins plugin b) (add_nodes semver plugins rest) e in
      let (step, accounted, node) = add_node_lem plugin b c r first in
      let (steps, all) = add_nodes_lem rest c b' step.ready others in
      (
        Step-trans step steps,
        Memᴰ-cons_ind (λ entry. Accounted b' entry.1 × OwnNode b' entry.1) (id, plugin) rest
            (
              Accounted-Extends plugin steps.extends accounted,
              λ own. HasNode-Grows plugin.identifier steps.extends.grows (node own),
            )
            all,
      )
