-- ===== src/DepGraph/Validate/Laws.antt =====
-- What a link that `validateDep` of lib/depgraph.js accepts satisfies.
use zlux_server_framework.Base.{
  ℕ, ◌+◌, String, Bool, true, false, ◌&&◌, ◌||◌, Option, none, some, List, [], ◌∷◌, ◌≡◌, ◌⊎◌, refl,
  ap, arith, inl, inr, Option-cases, Bool-cases,
}
use zlux_server_framework.Base.Outcome.{ok}
use zlux_server_framework.DepGraph.Plugin.{Service, Plugin, Versions, Semver, DepLink}
use zlux_server_framework.DepGraph.Validate.{
  Search, found, found_at_different_version, absent, is_requested, fits, search_services, conclude,
  validate_dep,
}

-- The list, whose first service has index `i`, holds a service that the link asks for, at a version
-- that fits.
pub data Offers (semver : Semver) (versions : Versions) (dep : DepLink) (version : Option String)
    : ℕ → List Service → Type 0 where
  here :
      {i : ℕ} {service : Service} {services : List Service}
      → is_requested dep service ≡ true
      → version ≡ versions dep.provider i
      → fits semver dep version ≡ true
      → Offers semver versions dep version i (service ∷ services)
  later :
      {i : ℕ} {service : Service} {services : List Service}
      → Offers semver versions dep version (i + 1) services
      → Offers semver versions dep version i (service ∷ services)

module _ (semver : Semver) (versions : Versions) where
  search_services-Offers :
      (dep : DepLink) (services : List Service) (i : ℕ) (seen : Bool) (version : Option String)
      → search_services semver versions dep services i seen ≡ found version
      → Offers semver versions dep version i services
  unfolding search_services
  search_services-Offers dep [] i seen version e = absurd (ground arith)
  search_services-Offers dep (service ∷ services) i seen version e =
      elim (Bool-cases (is_requested dep service && fits semver dep (versions dep.provider i))) [
        | inl good ↦
            let same : version ≡ versions dep.provider i = ground arith in
            here (ground arith) same (rw same (ground arith))
        | inr bad ↦ later (
            search_services-Offers dep services (i + 1) (seen || is_requested dep service) version
              (ground arith))
      ]

  -- A link that is valid behind `validateDep`: its provider is there and has services, its range is one,
  -- and one of the services is asked for and has the version that the link got.
  pub record Accepted (dep link : DepLink) (provider : Option Plugin) : Type 0 where
    pub plugin : Plugin
    pub services : List Service
    pub is_there : provider ≡ some plugin
    pub has_services : plugin.data_services ≡ some services
    pub valid_range : semver.valid_range dep.required_version_range ≡ true
    pub offered : Offers semver versions dep link.actual_version 0 services

  -- What `validateDep` never changes of a link.
  pub record SameRequest (dep link : DepLink) : Type 0 where
    pub provider : link.provider ≡ dep.provider
    pub service : link.service ≡ dep.service
    pub importer : link.importer ≡ dep.importer
    pub range : link.required_version_range ≡ dep.required_version_range
    pub index : link.service_index ≡ dep.service_index

  pub validate_dep-SameRequest :
      (dep link : DepLink) (provider : Option Plugin)
      → validate_dep semver versions dep provider ≡ ok link
      → SameRequest dep link
  unfolding validate_dep
  validate_dep-SameRequest dep link none e = ground arith
  validate_dep-SameRequest dep link (some plugin) e = ground arith

  Search-cases :
      (r : Search)
      → ((version : Option String) × (r ≡ found version))
        ⊎ ((dep : DepLink) → (conclude dep r).valid ≡ false)
  unfolding conclude
  Search-cases (found version) = inl (version, refl)
  Search-cases found_at_different_version = inr (λ dep. refl)
  Search-cases absent = inr (λ dep. refl)

  -- If `validateDep` makes a link valid, the provider is there, the required range is a range, and the
  -- provider offers a service that the link asks for at the version that the link got, which
  -- satisfies the range.
  pub validate_dep-Accepted :
      (dep link : DepLink) (provider : Option Plugin)
      → validate_dep semver versions dep provider ≡ ok link
      → link.valid ≡ true
      → Accepted dep link provider
  unfolding validate_dep
  validate_dep-Accepted dep link none e v = absurd (ground arith)
  validate_dep-Accepted dep link (some plugin) e v =
      elim (Bool-cases (semver.valid_range dep.required_version_range)) [
        | inr bad ↦ absurd (ground arith)
        | inl good ↦ elim (Option-cases plugin.data_services) [
          | inl missing ↦ absurd (ground arith)
          | inr (services, has) ↦
              let r = search_services semver versions dep services 0 false in
              let e' : conclude dep r ≡ link = ground arith in
              elim (Search-cases r) [
                | inr fails ↦ absurd (ground (arith, fails dep))
                | inl (version, hit) ↦
                    let same : link.actual_version ≡ version = ground arith in
                    record {
                      plugin = plugin;
                      services = services;
                      is_there = refl;
                      has_services = has;
                      valid_range = good;
                      offered = rw same (search_services-Offers dep services 0 false version hit);
                    }
              ]
        ]
      ]

  Offers-found :
      (dep : DepLink) (i : ℕ) (services : List Service) (seen : Bool) (version : Option String)
      → Offers semver versions dep version i services
      → (hit : Option String) × (search_services semver versions dep services i seen ≡ found hit)
  unfolding search_services
  Offers-found dep i [] seen version o = elim o [ ]
  Offers-found dep i (service ∷ services) seen version (here asked same good) =
      (versions dep.provider i, ground (arith, ap (λ v. fits semver dep v) same))
  Offers-found dep i (service ∷ services) seen version (later o) =
      let (hit, e) =
        Offers-found dep (i + 1) services (seen || is_requested dep service) version o in
      elim (Bool-cases (is_requested dep service && fits semver dep (versions dep.provider i))) [
        | inl good ↦ (versions dep.provider i, ground arith)
        | inr bad ↦ (hit, ground arith)
      ]

  -- The other way round: where the provider is there, the range is one, and a service that the link
  -- asks for stands at a version that satisfies the range, `validateDep` makes the link valid.
  pub validate_dep_of_Offers :
      (dep : DepLink) (plugin : Plugin) (services : List Service) (version : Option String)
      → plugin.data_services ≡ some services
      → semver.valid_range dep.required_version_range ≡ true
      → Offers semver versions dep version 0 services
      → (link : DepLink) × (validate_dep semver versions dep (some plugin) ≡ ok link)
        × (link.valid ≡ true)
  unfolding validate_dep
  validate_dep_of_Offers dep plugin services version has good o =
      let (hit, e) = Offers-found dep 0 services false version o in
      (
        conclude dep (search_services semver versions dep services 0 false),
        ground arith,
        ground arith,
      )
