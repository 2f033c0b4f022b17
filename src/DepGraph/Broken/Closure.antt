-- ===== src/DepGraph/Broken/Closure.antt =====
-- Which plugins `_removeBrokenPlugins` of lib/depgraph.js rejects: exactly those that a broken
-- dependency reaches.
use mathlib.Core.List.{Memᴰ}
use zlux_server_framework.Base.{
  suc, String, true, false, ◌||◌, some, List, [], ◌∷◌, ◌≡◌, ◌↔◌, refl, sym, ◌∙◌, ap, ◌==◌, arith,
  eq_iff, All, All-map, All-of_mem, All_at_mem, length, member, member-append, Bool-cases, inl, inr,
}
use zlux_server_framework.Base.Assoc.{lookup}
use zlux_server_framework.Base.Outcome.{ok, >>=-eq-ok, Ends, Ends-bind}
use zlux_server_framework.DepGraph.Plugin.{DepLink, Node, Graph}
use zlux_server_framework.DepGraph.Walk.Defs.{State, follow, visit}
use zlux_server_framework.DepGraph.Walk.Laws.{
  visited, visiting, IsWalk, AllVisited, AllTargets, Rule, walk_inv, follow-visit,
}
use zlux_server_framework.DepGraph.Walk.Fuel.{walk-Ends}
use zlux_server_framework.DepGraph.Broken.{
  rejecting, start, broken_targets, delete_rejects, remove_broken_plugins,
}

pub rejecting-IsWalk : IsWalk rejecting
unfolding rejecting
rejecting-IsWalk = record {
  visited-enter = λ y id s j. ground (arith, eq_iff id j);
  visiting-enter = λ y id s j. ground arith;
  visited-leave = λ id s j. ground arith;
  visiting-leave = λ id s j. ground arith;
}

pub remove_broken_plugins-Ends :
    (graph : Graph) (broken_deps : List DepLink) → Ends (remove_broken_plugins graph broken_deps)
unfolding remove_broken_plugins
remove_broken_plugins-Ends graph broken_deps =
    Ends-bind
      (follow (visit rejecting graph (suc (length graph))) (broken_targets broken_deps) start)
      (λ s. ok (delete_rejects s.out graph, s))
      (walk-Ends rejecting-IsWalk graph (broken_targets broken_deps) start) (λ s e. tt)

-- The ids that a broken dependency reaches: its importer, and the importers behind such an id.
pub data Tainted (graph : Graph) (broken_deps : List DepLink) : String → Type 0 where
  origin :
      (d : DepLink) {id : String}
      → Memᴰ d broken_deps
      → id ≡ d.importer
      → Tainted graph broken_deps id
  behind :
      {id : String} (node : Node) (d : DepLink) {j : String}
      → Tainted graph broken_deps id
      → lookup id graph ≡ some node
      → Memᴰ d node.deps
      → j ≡ d.importer
      → Tainted graph broken_deps j

module _ (graph : Graph) (broken_deps : List DepLink) where
  record Inv (s : State) : Type 0 where
    agrees : (j : String) → visited s j ≡ member j s.out
    sound : (j : String) → member j s.out ≡ true → Tainted graph broken_deps j
    closed :
        (j : String) (node : Node)
        → lookup j graph ≡ some node
        → visited s j ≡ true
        → All (λ d. visited s d.importer ≡ true) node.deps

  -- The id of the node that is left is the one new key of `rejects`.
  member-leave :
      (id : String) (s : State) (j : String)
      → member j (rejecting.leave id s).out ≡ (member j s.out || j == id)
  unfolding rejecting
  member-leave id s j = elim (Bool-cases (member id s.out)) [
    | inl old ↦ rw old (ground (arith, eq_iff j id))
    | inr new ↦ rw (new, member-append j s.out (id ∷ [])) (ground arith)
  ]

  visited-leave_of :
      (id : String) (s : State) (d : DepLink)
      → visited s d.importer ≡ true
      → visited (rejecting.leave id s) d.importer ≡ true
  visited-leave_of id s d h = ground (arith, rejecting-IsWalk.visited-leave id s d.importer)

  leave-Inv :
      (id : String) (node : Node) (s : State)
      → lookup id graph ≡ some node
      → Tainted graph broken_deps id
      → visited s id ≡ false
      → All (λ d. visited s d.importer ≡ true) node.deps
      → Inv s
      → Inv (rejecting.leave id s)
  leave-Inv id node s here t new all p = record {
    agrees = λ j. ground (
      arith,
      rejecting-IsWalk.visited-leave id s j,
      p.agrees j,
      member-leave id s j,
      eq_iff id j,
      eq_iff j id,
    );
    sound = λ j m. elim (Bool-cases (member j s.out)) [
      | inl old ↦ p.sound j old
      | inr fresh ↦
          let same : j ≡ id = ground (arith, member-leave id s j, eq_iff j id) in rw same t
    ];
    closed = λ j node' here' marked. elim (Bool-cases (visited s j)) [
      | inl old ↦ All-map _ _ node'.deps (visited-leave_of id s) (p.closed j node' here' old)
      | inr fresh ↦
          let same : id ≡ j = ground (arith, rejecting-IsWalk.visited-leave id s j, eq_iff id j) in
          let node_same : node' ≡ node = ground (arith, ap (λ k. lookup k graph) same) in
          rw node_same (All-map _ _ node.deps (visited-leave_of id s) all)
    ];
  }

  removal_rule : Rule rejecting graph (Tainted graph broken_deps) Inv
  removal_rule = record {
    edge = λ id node here t. All-of_mem node.deps (λ d m. behind node d t here m refl);
    enter = λ y id s p. record {
      agrees = λ j. rejecting-IsWalk.visited-enter y id s j ∙ unfold rejecting in p.agrees j;
      sound = unfold rejecting in p.sound;
      closed = λ j node here marked.
          All-map _ _ node.deps (λ d h. rejecting-IsWalk.visited-enter y id s d.importer ∙ h)
            (p.closed j node here (sym (rejecting-IsWalk.visited-enter y id s j) ∙ marked));
    };
    leave = leave-Inv;
  }

  start-Inv : Inv start
  start-Inv = record { agrees = λ j. refl; sound = λ j m. cc; closed = λ j node here marked. cc }

  AllTargets-broken :
      (deps : List DepLink)
      → ((d : DepLink) → Memᴰ d deps → Memᴰ d broken_deps)
      → AllTargets (Tainted graph broken_deps) (broken_targets deps)
  AllTargets-broken [] h = tt
  AllTargets-broken (d ∷ deps) h =
      (origin d (h d (Memᴰ.head refl)) refl, AllTargets-broken deps (λ e m. h e (Memᴰ.tail m)))

  visited_of_mem :
      (s : State) (deps : List DepLink) (d : DepLink)
      → AllVisited s (broken_targets deps)
      → Memᴰ d deps
      → visited s d.importer ≡ true
  visited_of_mem s [] d h m = elim m [ ]
  visited_of_mem s (e ∷ deps) d h (Memᴰ.head same) = rw same h.0
  visited_of_mem s (e ∷ deps) d h (Memᴰ.tail m) = visited_of_mem s deps d h.1 m

  -- What holds of the marks and of `rejects` behind the walk.
  pub record Removed (s : State) : Type 0 where
    pub agrees : (j : String) → visited s j ≡ member j s.out
    pub idle : (j : String) → visiting s j ≡ false
    pub sound : (j : String) → member j s.out ≡ true → Tainted graph broken_deps j
    pub reached : (d : DepLink) → Memᴰ d broken_deps → member d.importer s.out ≡ true
    pub closed :
        (j : String) (node : Node)
        → lookup j graph ≡ some node
        → member j s.out ≡ true
        → All (λ d. member d.importer s.out ≡ true) node.deps

  walk-Removed :
      (s : State)
      → follow (visit rejecting graph (suc (length graph))) (broken_targets broken_deps) start
        ≡ ok s
      → Removed s
  walk-Removed s e =
      let n = suc (length graph) in
      let p =
        walk_inv rejecting-IsWalk graph (Tainted graph broken_deps) Inv removal_rule n
          (broken_targets broken_deps) start s (AllTargets-broken broken_deps (λ d m. m)) start-Inv
          e in
      let (f, all) = follow-visit rejecting-IsWalk graph n (broken_targets broken_deps) start s e in
      record {
        agrees = p.agrees;
        idle = f.same_visiting;
        sound = p.sound;
        reached = λ d m. sym (p.agrees d.importer) ∙ visited_of_mem s broken_deps d all m;
        closed = λ j node here marked.
            All-map _ _ node.deps (λ d h. sym (p.agrees d.importer) ∙ h)
              (p.closed j node here (p.agrees j ∙ marked));
      }

  pub remove_broken_plugins-Removed :
      {g : Graph} {s : State} → remove_broken_plugins graph broken_deps ≡ ok (g, s) → Removed s
  unfolding remove_broken_plugins
  remove_broken_plugins-Removed {g} {s} e =
      let (t, walked, last) =
        >>=-eq-ok
          (follow (visit rejecting graph (suc (length graph))) (broken_targets broken_deps) start)
          (λ t. ok (delete_rejects t.out graph, t)) e in
      let same : t ≡ s = cc in rw same at (walk-Removed t walked)

  Tainted-rejected :
      {s : State}
      → Removed s
      → {id : String} → Tainted graph broken_deps id
      → member id s.out ≡ true
  Tainted-rejected r (origin d m same) = rw same (r.reached d m)
  Tainted-rejected r (behind {id} node d t here m same) =
      rw same (All_at_mem _ node.deps d (r.closed id node here (Tainted-rejected r t)) m)

-- When `_removeBrokenPlugins` returns, a plugin id is a key of `rejects` exactly when a broken
-- dependency reaches it: it is the importer of a broken link, or an importer of such an id.
pub rejects-Tainted :
    (graph : Graph) (broken_deps : List DepLink) (g : Graph) (s : State) (id : String)
    → remove_broken_plugins graph broken_deps ≡ ok (g, s)
    → (member id s.out ≡ true) ↔ Tainted graph broken_deps id
rejects-Tainted graph broken_deps g s id e =
    let r = remove_broken_plugins-Removed graph broken_deps e in
    (r.sound id, λ t. Tainted-rejected graph broken_deps r t)
