-- ===== src/DepGraph/Build/Fuel.antt =====
-- `_buildGraph` of lib/depgraph.js ends: its loop over the broken links makes at most one pass for
-- each of them, and one more.
use zlux_server_framework.Base.{
  ℕ, zero, suc, ◌+◌, ◌≤◌, String, Option, none, some, List, [], ◌∷◌, ◌≡◌, ◌⊎◌, arith, inl, inr,
  Bool-cases, Option-cases, if◌then◌else◌, length, length-append, nat_eq, ◌==◌,
}
use zlux_server_framework.Base.Assoc.{lookup}
use zlux_server_framework.Base.Outcome.{ok, >>=-eq-ok, Ends, Ends-bind, Ends-if}
use zlux_server_framework.DepGraph.Plugin.{is_inherited, Service, Plugin, Versions, Semver, DepLink}
use zlux_server_framework.DepGraph.Validate.{validate_dep}
use zlux_server_framework.DepGraph.Build.{
  Plugins, Build, make_link, ensure_node, file_link, refile_link, add_import, add_services,
  add_node, add_nodes, retry_links, retry, repair, build_graph, push_broken,
}

module _ (semver : Semver) (plugins : Plugins) where
  validate_dep-Ends :
      (versions : Versions) (dep : DepLink) (provider : Option Plugin)
      → Ends (validate_dep semver versions dep provider)
  unfolding validate_dep
  validate_dep-Ends versions dep none = tt
  validate_dep-Ends versions dep (some plugin) =
      elim (Bool-cases (semver.valid_range dep.required_version_range)) [
        | inr bad ↦ rw (bad, Ends) tt
        | inl good ↦ elim (Option-cases plugin.data_services) [
          | inl missing ↦ rw (good, missing, Ends) tt
          | inr (services, has) ↦ rw (good, has, Ends) tt
        ]
      ]

  add_import-Ends :
      (id : String) (i : ℕ) (service : Service) (b : Build)
      → Ends (add_import semver plugins id i service b)
  unfolding add_import
  add_import-Ends id i service b = Ends-if (is_inherited service.source_plugin) _ _ tt (
      Ends-bind
        (validate_dep semver b.versions (make_link id i service)
          (lookup service.source_plugin plugins))
        (λ link.
          ok (file_link (record b { graph = ensure_node service.source_plugin b.graph }) link))
        (validate_dep-Ends b.versions (make_link id i service)
          (lookup service.source_plugin plugins))
        (λ link e. tt))

  add_services-Ends :
      (id : String) (services : List Service) (i : ℕ) (b : Build)
      → Ends (add_services semver plugins id services i b)
  unfolding add_services
  add_services-Ends id [] i b = tt
  add_services-Ends id (service ∷ services) i b =
      Ends-bind
        (if service.type == "import" then add_import semver plugins id i service b else ok b)
        (add_services semver plugins id services (i + 1))
        (Ends-if (service.type == "import") _ _ (add_import-Ends id i service b) tt)
        (λ b' e. add_services-Ends id services (i + 1) b')

  add_node-Ends : (plugin : Plugin) (b : Build) → Ends (add_node semver plugins plugin b)
  unfolding add_node
  add_node-Ends plugin b = elim (Option-cases plugin.data_services) [
    | inl missing ↦ rw (missing, Ends) tt
    | inr (services, has) ↦
        rw (has, Ends)
          (add_services-Ends plugin.identifier services 0
            (record b { graph = ensure_node plugin.identifier b.graph }))
  ]

  add_nodes-Ends : (rest : Plugins) (b : Build) → Ends (add_nodes semver plugins rest b)
  unfolding add_nodes
  add_nodes-Ends [] b = tt
  add_nodes-Ends ((id, plugin) ∷ rest) b =
      Ends-bind (add_node semver plugins plugin b) (add_nodes semver plugins rest)
        (add_node-Ends plugin b) (λ b' e. add_nodes-Ends rest b')

  length-refile_link :
      (b : Build) (link : DepLink)
      → length (refile_link b link).broken_deps ≤ length b.broken_deps + 1
  unfolding refile_link
  length-refile_link b link = ground (arith, length-append b.broken_deps (link ∷ []))

  retry_links-Ends : (deps : List DepLink) (b : Build) → Ends (retry_links semver plugins deps b)
  unfolding retry_links
  retry_links-Ends [] b = tt
  retry_links-Ends (dep ∷ deps) b =
      Ends-bind (validate_dep semver b.versions dep (lookup dep.provider plugins))
        (λ link. retry_links semver plugins deps (refile_link b link))
        (validate_dep-Ends b.versions dep (lookup dep.provider plugins))
        (λ link e. retry_links-Ends deps (refile_link b link))

  length-retry_links :
      (deps : List DepLink) (b b' : Build)
      → retry_links semver plugins deps b ≡ ok b'
      → length b'.broken_deps ≤ length b.broken_deps + length deps
  unfolding retry_links
  length-retry_links [] b b' e = ground arith
  length-retry_links (dep ∷ deps) b b' e =
      let (link, _, rest) =
        >>=-eq-ok (validate_dep semver b.versions dep (lookup dep.provider plugins))
          (λ link. retry_links semver plugins deps (refile_link b link)) e in
      omega (arith, length-retry_links deps (refile_link b link) b' rest, length-refile_link b link)

  -- The fuel that a call of the loop needs.
  retry-Ends :
      (fuel n : ℕ) (b : Build)
      → (length b.broken_deps + 2 ≤ fuel) ⊎ ((length b.broken_deps ≡ n) × (1 ≤ fuel))
      → Ends (retry semver plugins fuel n b)
  unfolding retry
  retry-Ends zero n b h = ground arith
  retry-Ends (suc fuel) n b h = elim (Bool-cases (nat_eq (length b.broken_deps) n)) [
    | inl done ↦ rw (done, Ends) tt
    | inr more ↦
        rw (more, Ends)
          (let b₀ : Build = record b { broken_deps = [] } in
            Ends-bind (retry_links semver plugins b.broken_deps b₀)
              (retry semver plugins fuel (length b.broken_deps)) (retry_links-Ends b.broken_deps b₀)
              (λ b' e.
                retry-Ends fuel (length b.broken_deps) b'
                  (ground (arith, length-retry_links b.broken_deps b₀ b' e))))
  ]

  repair-Ends : (b : Build) → Ends (repair semver plugins b)
  unfolding repair
  repair-Ends b = Ends-if (nat_eq (length b.broken_deps) 0) _ _ tt (
      Ends-bind (retry semver plugins (length b.broken_deps + 2) 0 b)
        (λ b'. ok (record b' { graph = push_broken b'.broken_deps b'.graph }))
        (retry-Ends (length b.broken_deps + 2) 0 b (inl (omega arith))) (λ b' e. tt))

  -- `_buildGraph` returns or throws, whatever the plugins.
  pub build_graph-Ends : (versions : Versions) → Ends (build_graph semver plugins versions)
  unfolding build_graph
  build_graph-Ends versions =
      let b₀ : Build = record { graph = []; broken_deps = []; versions = versions } in
      Ends-bind (add_nodes semver plugins plugins b₀) (repair semver plugins)
        (add_nodes-Ends plugins b₀) (λ b e. repair-Ends b)
