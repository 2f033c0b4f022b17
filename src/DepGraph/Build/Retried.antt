-- ===== src/DepGraph/Build/Retried.antt =====
-- The repeated passes of `_buildGraph` of lib/depgraph.js over the broken links, and the whole function.
use mathlib.Core.List.{Memᴰ}
use zlux_server_framework.Base.{
  false, ℕ, zero, suc, ◌+◌, String, List, [], ◌∷◌, ◌≡◌, arith, inl, inr, Bool-cases, length, nat_eq,
}
use zlux_server_framework.Base.Assoc.{lookup}
use zlux_server_framework.Base.Outcome.{ok, >>=-eq-ok}
use zlux_server_framework.DepGraph.Plugin.{is_inherited, Plugin, Versions, Semver, DepLink}
use zlux_server_framework.DepGraph.Validate.{validate_dep}
use zlux_server_framework.DepGraph.Build.{
  Plugins, Build, refile_link, add_nodes, retry_links, retry, repair, build_graph, push_broken,
}
use zlux_server_framework.DepGraph.Build.Grows.{
  HasNode, Grows, Grows-refl, Grows-trans, HasNode-Grows, push_broken-Grows,
}
use zlux_server_framework.DepGraph.Build.Links.{
  Account, settled, broken, waiting, Account-Extends, Ready, Ready-Grows, refile_link-Extends,
  refile_link-Ready, same_provider, refile_link-Account,
}
use zlux_server_framework.DepGraph.Build.Accounts.{Accounted, OwnNode, add_nodes_lem}

-- From `b`, with links still to try, to `b'`: the links of all imports are still somewhere.
record Keeps (plugins : Plugins) (b : Build) (pending : List DepLink) (b' : Build) : Type 0 where
  grows : Grows b.graph b'.graph
  ready : Ready b'.graph b'.broken_deps
  account : (m p : String) → Account plugins b pending m p → Account plugins b' [] m p

module _ (semver : Semver) (plugins : Plugins) where
  refile_step :
      (dep link : DepLink) (deps : List DepLink) (b : Build) (m p : String)
      → HasNode b.graph dep.provider
      → validate_dep semver b.versions dep (lookup dep.provider plugins) ≡ ok link
      → Account plugins b (dep ∷ deps) m p
      → Account plugins (refile_link b link) deps m p
  refile_step dep link deps b m p h valid (settled d em ep i v plugin e) =
      Account-Extends (refile_link-Extends b link) (settled d em ep i v plugin e)
  refile_step dep link deps b m p h valid (broken d em ep i) =
      Account-Extends (refile_link-Extends b link) (broken d em ep i)
  refile_step dep link deps b m p h valid (waiting d em ep (Memᴰ.tail i)) = waiting d em ep i
  refile_step dep link deps b m p h valid (waiting d em ep (Memᴰ.head same)) =
      let em' : dep.importer ≡ m = rw same at em in
      let ep' : dep.provider ≡ p = rw same at ep in
      rw (← em', ← ep')
        (refile_link-Account semver plugins b.versions dep link valid b deps
          (rw (same_provider semver plugins b.versions dep link valid) h))

  retry_links-Keeps :
      (deps : List DepLink) (b b' : Build)
      → Ready b.graph b.broken_deps
      → Ready b.graph deps
      → retry_links semver plugins deps b ≡ ok b'
      → Keeps plugins b deps b'
  unfolding retry_links
  retry_links-Keeps [] b b' r rd e =
      let same : b ≡ b' = cc in
      rw (← same) (record { grows = Grows-refl b.graph; ready = r; account = λ m p a. a })
  retry_links-Keeps (dep ∷ deps) b b' r rd e =
      let (link, valid, rest) =
        >>=-eq-ok (validate_dep semver b.versions dep (lookup dep.provider plugins))
          (λ link. retry_links semver plugins deps (refile_link b link)) e in
      let h : HasNode b.graph link.provider =
        rw (same_provider semver plugins b.versions dep link valid) rd.0 in
      let x = refile_link-Extends b link in
      let k =
        retry_links-Keeps deps (refile_link b link) b' (refile_link-Ready b link h r)
          (Ready-Grows deps x.grows rd.1) rest in
      record {
        grows = Grows-trans x.grows k.grows;
        ready = k.ready;
        account = λ m p a. k.account m p (refile_step dep link deps b m p rd.0 valid a);
      }

  -- Emptying `brokenDeps` before a pass moves the broken links to the waiting ones.
  start_pass :
      (b : Build) (m p : String)
      → Account plugins b [] m p
      → Account plugins (record b { broken_deps = [] }) b.broken_deps m p
  start_pass b m p (settled d em ep i v plugin e) = settled d em ep i v plugin e
  start_pass b m p (broken d em ep i) = waiting d em ep i
  start_pass b m p (waiting d em ep i) = elim i [ ]

  retry-Keeps :
      (fuel n : ℕ) (b b' : Build)
      → Ready b.graph b.broken_deps
      → retry semver plugins fuel n b ≡ ok b'
      → Keeps plugins b [] b'
  unfolding retry
  retry-Keeps zero n b b' r e = absurd (ground arith)
  retry-Keeps (suc fuel) n b b' r e = elim (Bool-cases (nat_eq (length b.broken_deps) n)) [
    | inl done ↦
        let same : b ≡ b' = ground arith in
        rw (← same) (record { grows = Grows-refl b.graph; ready = r; account = λ m p a. a })
    | inr more ↦
        let b₀ : Build = record b { broken_deps = [] } in
        let (c, first, others) =
          >>=-eq-ok (retry_links semver plugins b.broken_deps b₀)
            (retry semver plugins fuel (length b.broken_deps)) (ground arith) in
        let k = retry_links-Keeps b.broken_deps b₀ c tt r first in
        let k' = retry-Keeps fuel (length b.broken_deps) c b' k.ready others in
        record {
          grows = Grows-trans k.grows k'.grows;
          ready = k'.ready;
          account = λ m p a. k'.account m p (k.account m p (start_pass b m p a));
        }
  ]

  push_broken-Account :
      (b : Build) (m p : String)
      → Account plugins b [] m p
      → Account plugins (record b { graph = push_broken b.broken_deps b.graph }) [] m p
  push_broken-Account b m p a =
      Account-Extends (record { grows = push_broken-Grows b.broken_deps b.graph; more = λ d i. i })
        a

  repair-Keeps :
      (b b' : Build)
      → Ready b.graph b.broken_deps
      → repair semver plugins b ≡ ok b'
      → Grows b.graph b'.graph
        × ((m p : String) → Account plugins b [] m p → Account plugins b' [] m p)
  unfolding repair
  repair-Keeps b b' r e = elim (Bool-cases (nat_eq (length b.broken_deps) 0)) [
    | inl done ↦ let same : b ≡ b' = ground arith in rw (← same) (Grows-refl b.graph, λ m p a. a)
    | inr more ↦
        let (c, first, last) =
          >>=-eq-ok (retry semver plugins (length b.broken_deps + 2) 0 b)
            (λ c. ok (record c { graph = push_broken c.broken_deps c.graph })) {b = b'}
            (ground arith) in
        let k = retry-Keeps (length b.broken_deps + 2) 0 b c r first in
        let same : record c { graph = push_broken c.broken_deps c.graph } ≡ b' = cc in
        rw (← same) (
          Grows-trans k.grows (push_broken-Grows c.broken_deps c.graph),
          λ m p a. push_broken-Account c m p (k.account m p a),
        )
  ]

  -- The nodes and links of the graph when `_buildGraph` returns.
  pub build_graph_lem :
      (versions : Versions) (b : Build) (id : String) (plugin : Plugin)
      → build_graph semver plugins versions ≡ ok b
      → Memᴰ (id, plugin) plugins
      → Accounted semver plugins b plugin × OwnNode semver plugins b plugin
  unfolding build_graph
  build_graph_lem versions b id plugin e m =
      let b₀ : Build = record { graph = []; broken_deps = []; versions = versions } in
      let (c, first, last) =
        >>=-eq-ok (add_nodes semver plugins plugins b₀) (repair semver plugins) e in
      let (step, all) = add_nodes_lem semver plugins plugins b₀ c tt first in
      let (grows, keep) = repair-Keeps c b step.ready last in
      let (accounted, node) = all (id, plugin) m in
      (
        λ p imports.
            let (account, own) = accounted p imports in (keep plugin.identifier p account, own),
        λ own. HasNode-Grows plugin.identifier grows (node own),
      )

  -- When `_buildGraph` returns, each plugin whose identifier is not a key that `{}` inherits has its
  -- node, and each of its imports has a provider that is no such key either, and a link with its importer
  -- and provider: a valid one in the list of its provider's node, where the provider is a plugin, or a
  -- broken one in `brokenDeps`.
  pub build_graph-Accounted :
      (versions : Versions) (b : Build) (id : String) (plugin : Plugin)
      → build_graph semver plugins versions ≡ ok b
      → Memᴰ (id, plugin) plugins
      → is_inherited plugin.identifier ≡ false
      → Accounted semver plugins b plugin × HasNode b.graph plugin.identifier
  build_graph-Accounted versions b id plugin e m own =
      let (accounted, node) = build_graph_lem versions b id plugin e m in (accounted, node own)
