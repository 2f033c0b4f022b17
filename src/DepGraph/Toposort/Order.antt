-- ===== src/DepGraph/Toposort/Order.antt =====
-- The order that `_toposort` of lib/depgraph.js returns.
use zlux_server_framework.Base.{
  suc, String, true, false, ◌||◌, some, List, [], ◌∷◌, ◌≡◌, refl, sym, ◌∙◌, arith, map, eq_iff, All,
  All-map, All-of_mem, length, member, Distinct, Bool-cases, inl, inr,
}
use zlux_server_framework.Base.Assoc.{lookup, keys}
use zlux_server_framework.Base.Outcome.{ok, Ends}
use zlux_server_framework.DepGraph.Plugin.{Node, Graph}
use zlux_server_framework.DepGraph.Walk.Defs.{State}
use zlux_server_framework.DepGraph.Walk.Laws.{
  visited, IsWalk, AllVisited, AllTargets, Rule, walk_inv, follow-visit,
}
use zlux_server_framework.DepGraph.Walk.Fuel.{walk-Ends}
use zlux_server_framework.DepGraph.Toposort.{sorting, all_targets, toposort}

pub sorting-IsWalk : IsWalk sorting
unfolding sorting
sorting-IsWalk = record {
  visited-enter = λ y id s j. ground (arith, eq_iff id j);
  visiting-enter = λ y id s j. ground arith;
  visited-leave = λ id s j. ground arith;
  visiting-leave = λ id s j. ground arith;
}

-- `_toposort` returns or throws: its search does not run on for ever.
pub toposort-Ends : (graph : Graph) (s : State) → Ends (toposort graph s)
unfolding toposort
toposort-Ends graph s =
    walk-Ends sorting-IsWalk graph (all_targets graph) (record s { time = 0; out = [] })

-- Behind each id of the list stand the importers of its dependency links, but for those that the
-- walk of `_removeBrokenPlugins` has marked in `marked`.
abbrev pub IsOrdered : Graph → State → List String → Type 0
IsOrdered graph marked [] = Unit
IsOrdered graph marked (x ∷ xs) =
    ((node : Node)
      → lookup x graph ≡ some node
      → All (λ d. (member d.importer xs || visited marked d.importer) ≡ true) node.deps)
    × IsOrdered graph marked xs

module _ (graph : Graph) (marked : State) where
  record Inv (s : State) : Type 0 where
    agrees : (j : String) → visited s j ≡ (member j s.out || visited marked j)
    ordered : IsOrdered graph marked s.out
    distinct : Distinct s.out
    fresh : (j : String) → member j s.out ≡ true → visited marked j ≡ false

  leave-Inv :
      (id : String) (node : Node) (s : State)
      → lookup id graph ≡ some node
      → visited s id ≡ false
      → All (λ d. visited s d.importer ≡ true) node.deps
      → Inv s
      → Inv (sorting.leave id s)
  unfolding sorting
  leave-Inv id node s here new all p = record {
    agrees = λ j. ground (arith, p.agrees j, p.agrees id, eq_iff id j, eq_iff j id);
    ordered = (
      λ node' here'.
          let same : node' ≡ node = ground arith in
          rw same (All-map _ _ node.deps (λ d h. sym (p.agrees d.importer) ∙ h) all),
      p.ordered,
    );
    distinct = (ground (arith, p.agrees id), p.distinct);
    fresh = λ j m. elim (Bool-cases (member j s.out)) [
      | inl old ↦ p.fresh j old
      | inr other ↦
          let same : j ≡ id = ground (arith, eq_iff j id) in rw same (ground (arith, p.agrees id))
    ];
  }

  sorted_rule : Rule sorting graph (λ id. Unit {0}) Inv
  unfolding sorting
  sorted_rule = record {
    edge = λ id node here t. All-of_mem node.deps (λ d m. tt);
    enter = λ y id s p. record {
      agrees = λ j. sorting-IsWalk.visited-enter y id s j ∙ p.agrees j;
      ordered = p.ordered;
      distinct = p.distinct;
      fresh = p.fresh;
    };
    leave = λ id node s here t new all p. leave-Inv id node s here new all p;
  }

  AllTargets-keys : (ids : List String) → AllTargets (λ id. Unit {0}) (map (λ id. (tt, id)) ids)
  AllTargets-keys [] = tt
  AllTargets-keys (id ∷ ids) = (tt, AllTargets-keys ids)

  visited_of_key :
      (s : State) (ids : List String) (j : String)
      → AllVisited s (map (λ id. (tt, id)) ids)
      → member j ids ≡ true
      → visited s j ≡ true
  visited_of_key s [] j h m = cc
  visited_of_key s (id ∷ ids) j h m = ground (arith, eq_iff j id, visited_of_key s ids j h.1)

  -- What `_toposort` returns, for a graph whose nodes `marked` has marked before.
  pub record Sorted (out : List String) : Type 0 where
    pub ordered : IsOrdered graph marked out
    pub distinct : Distinct out
    pub fresh : (j : String) → member j out ≡ true → visited marked j ≡ false
    pub complete :
        (j : String) → member j (keys graph) ≡ true → visited marked j ≡ false → member j out ≡ true

-- When `_toposort` returns, no id stands twice in its list; behind each id stand the importers of its
-- dependency links that were not marked as visited before; and the list holds each id of the graph
-- that was not marked before, and no marked one.
pub toposort-Sorted :
    (graph : Graph) (marked s : State) → toposort graph marked ≡ ok s → Sorted graph marked s.out
unfolding toposort
toposort-Sorted graph marked s e =
    let n = suc (length graph) in
    let begin : State = record marked { time = 0; out = [] } in
    let p =
      walk_inv sorting-IsWalk graph (λ id. Unit {0}) (Inv graph marked) (sorted_rule graph marked) n
        (all_targets graph) begin s (AllTargets-keys graph marked (keys graph))
        (record { agrees = λ j. refl; ordered = tt; distinct = tt; fresh = λ j m. cc }) e in
    let (f, all) = follow-visit sorting-IsWalk graph n (all_targets graph) begin s e in
    record {
      ordered = p.ordered;
      distinct = p.distinct;
      fresh = p.fresh;
      complete =
          λ j m new. ground (arith, p.agrees j, visited_of_key graph marked s (keys graph) j all m);
    }
