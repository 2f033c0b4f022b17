-- ===== src/DepGraph/Build/Links.antt =====
-- No import is lost by `_buildGraph` of lib/depgraph.js: each has its link, in the graph if it is valid
-- and else among the broken ones.
use mathlib.Core.List.{Memᴰ}
use zlux_server_framework.Base.{
  String, true, none, some, List, [], ◌∷◌, ◌≡◌, if_ind, All, All-map, All-append, ◌==◌,
}
use zlux_server_framework.Base.Assoc.{lookup}
use zlux_server_framework.Base.Outcome.{ok}
use zlux_server_framework.DepGraph.Plugin.{Service, Plugin, Versions, Semver, DepLink, Graph}
use zlux_server_framework.DepGraph.Validate.{validate_dep}
use zlux_server_framework.DepGraph.Validate.Laws.{validate_dep-SameRequest, validate_dep-Accepted}
use zlux_server_framework.DepGraph.Build.{Plugins, Build, file_link, refile_link}
use zlux_server_framework.DepGraph.Build.Grows.{
  HasNode, InGraph, Grows, Grows-refl, Grows-trans, HasNode-Grows, InGraph-Grows, push_dep-Grows,
  push_dep-InGraph, Memᴰ-append_left, Memᴰ-snoc,
}

-- The plugin has an import from the plugin `p`.
pub record ImportsFrom (plugin : Plugin) (p : String) : Type 0 where
  pub services : List Service
  pub has_services : plugin.data_services ≡ some services
  pub service : Service
  pub listed : Memᴰ service services
  pub is_import : (service.type == "import") ≡ true
  pub from : service.source_plugin ≡ p

-- Where the link of an import of `m` from `p` is.
pub data Account (plugins : Plugins) (b : Build) (pending : List DepLink) (m p : String)
    : Type 0 where
  settled :
      (d : DepLink)
      → d.importer ≡ m
      → d.provider ≡ p
      → InGraph b.graph d
      → d.valid ≡ true
      → (plugin : Plugin) → lookup p plugins ≡ some plugin
      → Account plugins b pending m p
  broken :
      (d : DepLink)
      → d.importer ≡ m
      → d.provider ≡ p
      → Memᴰ d b.broken_deps
      → Account plugins b pending m p
  waiting :
      (d : DepLink)
      → d.importer ≡ m
      → d.provider ≡ p
      → Memᴰ d pending
      → Account plugins b pending m p

pub record Extends (b b' : Build) : Type 0 where
  pub grows : Grows b.graph b'.graph
  pub more : (d : DepLink) → Memᴰ d b.broken_deps → Memᴰ d b'.broken_deps

pub Extends-trans : {a b c : Build} → Extends a b → Extends b c → Extends a c
Extends-trans x y = record {
  grows = Grows-trans x.grows y.grows;
  more = λ d m. y.more d (x.more d m);
}

module _ {plugins : Plugins} where
  pub Account-Extends :
      {b b' : Build} {pending : List DepLink} {m p : String}
      → Extends b b'
      → Account plugins b pending m p
      → Account plugins b' pending m p
  Account-Extends x (settled d em ep i v plugin e) =
      settled d em ep (InGraph-Grows d x.grows i) v plugin e
  Account-Extends x (broken d em ep m) = broken d em ep (x.more d m)
  Account-Extends x (waiting d em ep m) = waiting d em ep m

abbrev pub Ready : Graph → List DepLink → Type 0
Ready g l = All (λ d. HasNode g d.provider) l

pub Ready-Grows : {g g' : Graph} (l : List DepLink) → Grows g g' → Ready g l → Ready g' l
Ready-Grows l grows h = All-map _ _ l (λ d n. HasNode-Grows d.provider grows n) h

pub file_link-Extends : (b : Build) (link : DepLink) → Extends b (file_link b link)
unfolding file_link
file_link-Extends b link =
    if_ind (Extends b) link.valid
      (λ good. record { grows = push_dep-Grows link.provider link b.graph; more = λ d m. m })
      (λ bad. record {
        grows = Grows-refl b.graph;
        more = λ d m. Memᴰ-append_left d b.broken_deps (link ∷ []) m;
      })

pub refile_link-Extends : (b : Build) (link : DepLink) → Extends b (refile_link b link)
unfolding refile_link
refile_link-Extends b link =
    if_ind (Extends b) link.valid
      (λ good. record {
        grows = push_dep-Grows link.provider (record link { validation_error = none }) b.graph;
        more = λ d m. m;
      })
      (λ bad. record {
        grows = Grows-refl b.graph;
        more = λ d m. Memᴰ-append_left d b.broken_deps (link ∷ []) m;
      })

pub file_link-Ready :
    (b : Build) (link : DepLink)
    → HasNode b.graph link.provider
    → Ready b.graph b.broken_deps
    → Ready (file_link b link).graph (file_link b link).broken_deps
unfolding file_link
file_link-Ready b link h r =
    if_ind (λ (c : Build). Ready c.graph c.broken_deps) link.valid
      (λ good. Ready-Grows b.broken_deps (push_dep-Grows link.provider link b.graph) r)
      (λ bad. All-append _ b.broken_deps (link ∷ []) r (h, tt))

pub refile_link-Ready :
    (b : Build) (link : DepLink)
    → HasNode b.graph link.provider
    → Ready b.graph b.broken_deps
    → Ready (refile_link b link).graph (refile_link b link).broken_deps
unfolding refile_link
refile_link-Ready b link h r =
    let link' : DepLink = record link { validation_error = none } in
    if_ind (λ (c : Build). Ready c.graph c.broken_deps) link.valid
      (λ good. Ready-Grows b.broken_deps (push_dep-Grows link.provider link' b.graph) r)
      (λ bad. All-append _ b.broken_deps (link ∷ []) r (h, tt))

module _ (semver : Semver) (plugins : Plugins) (versions : Versions) (dep link : DepLink)
    (validated : validate_dep semver versions dep (lookup dep.provider plugins) ≡ ok link) where
  -- A link that was valid has its plugin.
  valid-plugin : link.valid ≡ true → (plugin : Plugin) × (lookup dep.provider plugins ≡ some plugin)
  valid-plugin good =
      let a =
        validate_dep-Accepted semver versions dep link (lookup dep.provider plugins) validated
          good in
      (a.plugin, a.is_there)

  pub same_importer : link.importer ≡ dep.importer
  same_importer =
      (validate_dep-SameRequest semver versions dep link (lookup dep.provider plugins)
        validated).importer

  pub same_provider : link.provider ≡ dep.provider
  same_provider =
      (validate_dep-SameRequest semver versions dep link (lookup dep.provider plugins)
        validated).provider

  pub file_link-Account :
      (b : Build)
      → HasNode b.graph link.provider
      → Account plugins (file_link b link) [] dep.importer dep.provider
  unfolding file_link
  file_link-Account b h =
      if_ind (λ c. Account plugins c [] dep.importer dep.provider) link.valid
        (λ good.
          let (plugin, e) = valid-plugin good in
          settled link same_importer same_provider (push_dep-InGraph link b.graph h) good plugin e)
        (λ bad. broken link same_importer same_provider (Memᴰ-snoc link b.broken_deps))

  pub refile_link-Account :
      (b : Build) (pending : List DepLink)
      → HasNode b.graph link.provider
      → Account plugins (refile_link b link) pending dep.importer dep.provider
  unfolding refile_link
  refile_link-Account b pending h =
      let link' : DepLink = record link { validation_error = none } in
      if_ind (λ c. Account plugins c pending dep.importer dep.provider) link.valid
        (λ good.
          let (plugin, e) = valid-plugin good in
          settled link' same_importer same_provider (push_dep-InGraph link' b.graph h) good plugin
            e)
        (λ bad. broken link same_importer same_provider (Memᴰ-snoc link b.broken_deps))
