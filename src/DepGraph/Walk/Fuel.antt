-- ===== src/DepGraph/Walk/Fuel.antt =====
-- The fuel of a walk: one unit for each node that is not marked yet, and one more, is enough.
use zlux_server_framework.Base.{
  ℕ, zero, suc, ◌+◌, ◌≤◌, ◌<◌, String, Bool, true, false, some, List, [], ◌∷◌, ◌≡◌, sym, ◌==◌, ◌||◌,
  arith, eq_iff, inl, inr, Bool-cases, Option-cases, if◌then◌else◌, member, length,
}
use mathlib.Core.Path.{subst}
use zlux_server_framework.Base.Assoc.{lookup, keys}
use zlux_server_framework.Base.Outcome.{ok, raised, ◌>>=◌, Ends, Ends-bind}
use zlux_server_framework.DepGraph.Plugin.{Node, Graph, circular_dependency}
use zlux_server_framework.DepGraph.Walk.Defs.{State, Walk, targets, follow, visit_node, visit}
use zlux_server_framework.DepGraph.Walk.Laws.{
  visiting, visited, IsWalk, Frame, Call, IsCall, visit-IsCall,
}

-- How many of the keys have no mark.
open_count : State → List String → ℕ
open_count s [] = 0
open_count s (k ∷ ks) = (if visiting s k || visited s k then 0 else 1) + open_count s ks

open_count-Frame :
    (s s' : State) (ks : List String) → Frame s s' → open_count s' ks ≤ open_count s ks
unfolding open_count
open_count-Frame s s' [] f = omega arith
open_count-Frame s s' (k ∷ ks) f =
    ground (arith, open_count-Frame s s' ks f, f.same_visiting k, f.keeps k)

module _ {Why : Type 0} {w : Walk Why} (laws : IsWalk w) where
  open_count-enter_le :
      (y : Why) (id : String) (s : State) (ks : List String)
      → open_count (w.enter y id s) ks ≤ open_count s ks
  unfolding open_count
  open_count-enter_le y id s [] = omega arith
  open_count-enter_le y id s (k ∷ ks) = ground (
    arith,
    open_count-enter_le y id s ks,
    laws.visiting-enter y id s k,
    laws.visited-enter y id s k,
  )

  open_count-enter :
      (y : Why) (id : String) (s : State) (ks : List String)
      → member id ks ≡ true
      → visited s id ≡ false
      → visiting s id ≡ false
      → open_count (w.enter y id s) ks < open_count s ks
  unfolding open_count
  open_count-enter y id s [] m new idle = cc
  open_count-enter y id s (k ∷ ks) m new idle = elim (Bool-cases (id == k)) [
    | inl here ↦
        ground
          (arith, open_count-enter_le y id s ks, laws.visiting-enter y id s k, (eq_iff id k).0 here)
    | inr there ↦ ground (
      arith,
      open_count-enter y id s ks,
      laws.visiting-enter y id s k,
      laws.visited-enter y id s k,
      there,
    )
  ]

pub member-keys_of_lookup :
    {V : Type 0} (id : String) (g : List (String × V)) (v : V)
    → lookup id g ≡ some v
    → member id (keys g) ≡ true
unfolding lookup keys
member-keys_of_lookup id [] v e = cc
member-keys_of_lookup id ((j, w) ∷ g) v e =
    ground (arith, member-keys_of_lookup id g v, eq_iff j id, eq_iff id j)

module _ {Why : Type 0} {w : Walk Why} (laws : IsWalk w) (graph : Graph) where
  follow-Ends :
      (n : ℕ) (call : Call Why)
      → IsCall call
      → ((y : Why) (id : String) (s : State) → open_count s (keys graph) < n → Ends (call y id s))
      → (ts : List (Why × String)) (s : State) → open_count s (keys graph) < n
      → Ends (follow call ts s)
  unfolding follow
  follow-Ends n call c step [] s h = tt
  follow-Ends n call c step ((y, id) ∷ rest) s h =
      Ends-bind (call y id s) (follow call rest) (step y id s h) λ t e.
        follow-Ends n call c step rest t
          (omega (arith, open_count-Frame s t (keys graph) (c.frame y id s t e)))

  visit_node-Ends :
      (n : ℕ) (call : Call Why)
      → IsCall call
      → ((y : Why) (id : String) (s : State) → open_count s (keys graph) < n → Ends (call y id s))
      → (y : Why) (id : String) (node : Node) (s : State) → lookup id graph ≡ some node
      → open_count s (keys graph) ≤ n
      → Ends (visit_node w call y id node s)
  unfolding visit_node
  visit_node-Ends n call c step y id node s here h = elim (Bool-cases (visited s id)) [
    | inl old ↦ rw (old, visit_node, Ends) tt
    | inr new ↦ elim (Bool-cases (visiting s id)) [
      | inl busy ↦ rw (new, busy, visit_node, Ends) tt
      | inr idle ↦
          subst
            (λ (b : Bool × Bool). Ends (
              if b.0
              then ok s
              else if b.1
              then raised (circular_dependency id)
              else (follow call (targets w node.deps) (w.enter y id s) >>= λ t. ok (w.leave id t))))
            (λ i. (sym new i, sym idle i))
            (Ends-bind (follow call (targets w node.deps) (w.enter y id s)) (λ t. ok (w.leave id t))
              (follow-Ends n call c step (targets w node.deps) (w.enter y id s) (
                omega (
                  arith,
                  open_count-enter laws y id s (keys graph)
                      (member-keys_of_lookup id graph node here) new idle,
                )))
              (λ t e. tt))
    ]
  ]

  visit-Ends :
      (n : ℕ) (y : Why) (id : String) (s : State)
      → open_count s (keys graph) < n
      → Ends (visit w graph n y id s)
  unfolding visit
  visit-Ends zero y id s h = elim h [ ]
  visit-Ends (suc n) y id s h = elim (Option-cases (lookup id graph)) [
    | inl missing ↦ rw (missing, visit, Ends) tt
    | inr (node, here) ↦
        rw (here, visit, Ends)
          (visit_node-Ends n (visit w graph n) (visit-IsCall laws graph n) (visit-Ends n) y id node
            s here (omega arith))
  ]

  open_count-le : (s : State) (g : Graph) → open_count s (keys g) ≤ length g
  unfolding open_count keys
  open_count-le s [] = omega arith
  open_count-le s ((j, v) ∷ g) = ground (arith, open_count-le s g)

  -- A walk with one unit of fuel more than the graph has nodes never runs out of it.
  pub walk-Ends :
      (ts : List (Why × String)) (s : State)
      → Ends (follow (visit w graph (suc (length graph))) ts s)
  walk-Ends ts s =
      follow-Ends (suc (length graph)) (visit w graph (suc (length graph)))
        (visit-IsCall laws graph (suc (length graph))) (visit-Ends (suc (length graph))) ts s
        (omega (arith, open_count-le s graph))
