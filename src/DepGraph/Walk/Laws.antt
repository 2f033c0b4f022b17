-- ===== src/DepGraph/Walk/Laws.antt =====
-- What a walk of lib/depgraph.js changes, and a rule for invariants of what it writes.
use zlux_server_framework.Base.{
  ℕ, zero, suc, String, Bool, true, false, some, List, [], ◌∷◌, ◌≡◌, refl, ◌∙◌, inl, inr, ◌==◌,
  arith, eq_iff, eq_refl, All, Bool-cases, Option-cases, if◌then◌else◌,
}
use zlux_server_framework.Base.Assoc.{lookup}
use zlux_server_framework.Base.Outcome.{Outcome, ok, ◌>>=◌, >>=-eq-ok}
use zlux_server_framework.DepGraph.Plugin.{DepLink, Node, Graph, Fault}
use zlux_server_framework.DepGraph.Walk.Defs.{State, Walk, targets, follow, visit_node, visit}

abbrev pub visiting : State → String → Bool
visiting s j = (s.notes j).visiting

abbrev pub visited : State → String → Bool
visited s j = (s.notes j).visited

-- What the search needs of the assignments to a node.
pub record IsWalk {Why : Type 0} (w : Walk Why) : Type 0 where
  pub visited-enter :
      (y : Why) (id : String) (s : State) (j : String) → visited (w.enter y id s) j ≡ visited s j
  pub visiting-enter :
      (y : Why) (id : String) (s : State) (j : String)
      → visiting (w.enter y id s) j ≡ (if id == j then true else visiting s j)
  pub visited-leave :
      (id : String) (s : State) (j : String)
      → visited (w.leave id s) j ≡ (if id == j then true else visited s j)
  pub visiting-leave :
      (id : String) (s : State) (j : String)
      → visiting (w.leave id s) j ≡ (if id == j then false else visiting s j)

-- What a walk leaves alone, from `s` to `s'`.
pub record Frame (s s' : State) : Type 0 where
  pub same_visiting : (j : String) → visiting s' j ≡ visiting s j
  pub keeps : (j : String) → visited s j ≡ true → visited s' j ≡ true
  pub waits : (j : String) → visiting s j ≡ true → visited s' j ≡ visited s j

pub Frame-refl : (s : State) → Frame s s
Frame-refl s = record { same_visiting = λ j. refl; keeps = λ j h. h; waits = λ j h. refl }

pub Frame-trans : {s t u : State} → Frame s t → Frame t u → Frame s u
Frame-trans a b = record {
  same_visiting = λ j. b.same_visiting j ∙ a.same_visiting j;
  keeps = λ j h. b.keeps j (a.keeps j h);
  waits = λ j h. b.waits j (a.same_visiting j ∙ h) ∙ a.waits j h;
}

abbrev pub Call : Type 0 → Type 0
Call Why = Why → String → State → Outcome Fault State

abbrev pub AllVisited : {Why : Type 0} → State → List (Why × String) → Type 0
AllVisited s [] = Unit
AllVisited s ((y, id) ∷ rest) = (visited s id ≡ true) × AllVisited s rest

-- Each successful call leaves its node visited, and changes no mark that it should not.
pub record IsCall {Why : Type 0} (call : Call Why) : Type 0 where
  pub frame : (y : Why) (id : String) (s s' : State) → call y id s ≡ ok s' → Frame s s'
  pub marks : (y : Why) (id : String) (s s' : State) → call y id s ≡ ok s' → visited s' id ≡ true

module _ {Why : Type 0} (call : Call Why) (c : IsCall call) where
  pub follow_lem :
      (ts : List (Why × String)) (s s' : State)
      → follow call ts s ≡ ok s'
      → Frame s s' × AllVisited s' ts
  unfolding follow
  follow_lem [] s s' e = let e' : s ≡ s' = cc in rw e' (Frame-refl s', tt)
  follow_lem ((y, id) ∷ rest) s s' e =
      let (t, first, others) = >>=-eq-ok (call y id s) (follow call rest) e in
      let (f, all) = follow_lem rest t s' others in
      (Frame-trans (c.frame y id s t first) f, (f.keeps id (c.marks y id s t first), all))

-- The two ways in which a visit of a node succeeds.
pub data Visited {Why : Type 0} (w : Walk Why) (call : Call Why) (y : Why) (id : String)
    (node : Node) (s s' : State) : Type 0 where
  already : visited s id ≡ true → s' ≡ s → Visited w call y id node s s'
  entered :
      (t : State)
      → visited s id ≡ false
      → visiting s id ≡ false
      → follow call (targets w node.deps) (w.enter y id s) ≡ ok t
      → s' ≡ w.leave id t
      → Visited w call y id node s s'

module _ {Why : Type 0} {w : Walk Why} (laws : IsWalk w) (call : Call Why) (c : IsCall call) where
  pub visit_node-Visited :
      (y : Why) (id : String) (node : Node) (s s' : State)
      → visit_node w call y id node s ≡ ok s'
      → Visited w call y id node s s'
  unfolding visit_node
  visit_node-Visited y id node s s' e = elim (Bool-cases (visited s id)) [
    | inl old ↦ already old (ground arith)
    | inr new ↦ elim (Bool-cases (visiting s id)) [
      | inl busy ↦ absurd (ground arith)
      | inr idle ↦
          let e' : (follow call (targets w node.deps) (w.enter y id s) >>= λ t. ok (w.leave id t))
              ≡ ok s' =
            ground arith in
          let (t, inner, last) =
            >>=-eq-ok (follow call (targets w node.deps) (w.enter y id s)) (λ t. ok (w.leave id t))
              e' in
          entered t new idle inner (cc)
    ]
  ]

  -- A visit that enters its node changes the mark of that node only, and of those behind it.
  enter-Frame :
      (y : Why) (id : String) (s t : State)
      → visited s id ≡ false
      → visiting s id ≡ false
      → Frame (w.enter y id s) t
      → Frame s (w.leave id t)
  enter-Frame y id s t new idle f = record {
    same_visiting = λ j. ground (
      arith,
      laws.visiting-leave id t j,
      f.same_visiting j,
      laws.visiting-enter y id s j,
      eq_iff id j,
    );
    keeps =
        λ j h. ground (arith, laws.visited-leave id t j, f.keeps j, laws.visited-enter y id s j);
    waits = λ j h. ground (
      arith,
      laws.visited-leave id t j,
      f.waits j,
      laws.visiting-enter y id s j,
      laws.visited-enter y id s j,
      eq_iff id j,
    );
  }

  visit_node-Frame :
      (y : Why) (id : String) (node : Node) (s s' : State)
      → visit_node w call y id node s ≡ ok s'
      → Frame s s' × (visited s' id ≡ true)
  visit_node-Frame y id node s s' e = elim (visit_node-Visited y id node s s' e) [
    | already old same ↦ rw same (Frame-refl s, old)
    | entered t new idle inner last ↦ rw last (
      enter-Frame y id s t new idle (follow_lem call c (targets w node.deps) _ t inner).0,
      ground (arith, laws.visited-leave id t id, eq_refl id),
    )
  ]

module _ {Why : Type 0} {w : Walk Why} (laws : IsWalk w) (graph : Graph) where
  pub visit-suc :
      (n : ℕ) (y : Why) (id : String) (s s' : State)
      → visit w graph (suc n) y id s ≡ ok s'
      → (node : Node) × (lookup id graph ≡ some node)
        × (visit_node w (visit w graph n) y id node s ≡ ok s')
  unfolding visit
  visit-suc n y id s s' e = elim (Option-cases (lookup id graph)) [
    | inl missing ↦ absurd (ground arith)
    | inr (node, here) ↦ (node, here, ground arith)
  ]

  pub visit-IsCall : (n : ℕ) → IsCall (visit w graph n)
  visit-IsCall zero = record {
    frame = λ y id s s' e. absurd (unfold visit in cc);
    marks = λ y id s s' e. absurd (unfold visit in cc);
  }
  visit-IsCall (suc n) = record {
    frame = λ y id s s' e.
        let (node, _, e') = visit-suc n y id s s' e in
        (visit_node-Frame laws (visit w graph n) (visit-IsCall n) y id node s s' e').0;
    marks = λ y id s s' e.
        let (node, _, e') = visit-suc n y id s s' e in
        (visit_node-Frame laws (visit w graph n) (visit-IsCall n) y id node s s' e').1;
  }

  pub follow-visit :
      (n : ℕ) (ts : List (Why × String)) (s s' : State)
      → follow (visit w graph n) ts s ≡ ok s'
      → Frame s s' × AllVisited s' ts
  follow-visit n = follow_lem (visit w graph n) (visit-IsCall n)

abbrev pub AllTargets : {Why : Type 0} → (String → Type 0) → List (Why × String) → Type 0
AllTargets T [] = Unit
AllTargets T ((y, id) ∷ rest) = T id × AllTargets T rest

AllTargets-targets :
    {Why : Type 0} (w : Walk Why) (T : String → Type 0) (deps : List DepLink)
    → All (λ d. T d.importer) deps
    → AllTargets T (targets w deps)
AllTargets-targets w T [] h = tt
AllTargets-targets w T (d ∷ deps) h = (h.0, AllTargets-targets w T deps h.1)

AllVisited-targets :
    {Why : Type 0} (w : Walk Why) (s : State) (deps : List DepLink)
    → AllVisited s (targets w deps)
    → All (λ d. visited s d.importer ≡ true) deps
AllVisited-targets w s [] h = tt
AllVisited-targets w s (d ∷ deps) h = (h.0, AllVisited-targets w s deps h.1)

-- What to show of an invariant `P` of the state, where the walk meets only ids with `T`.
pub record Rule {Why : Type 0} (w : Walk Why) (graph : Graph) (T : String → Type 0)
    (P : State → Type 0) : Type 0 where
  pub edge :
      (id : String) (node : Node)
      → lookup id graph ≡ some node
      → T id
      → All (λ d. T d.importer) node.deps
  pub enter : (y : Why) (id : String) (s : State) → P s → P (w.enter y id s)
  pub leave :
      (id : String) (node : Node) (s : State)
      → lookup id graph ≡ some node
      → T id
      → visited s id ≡ false
      → All (λ d. visited s d.importer ≡ true) node.deps
      → P s
      → P (w.leave id s)

module _ {Why : Type 0} (call : Call Why) (T : String → Type 0) (P : State → Type 0)
    (step : (y : Why) (id : String) (s s' : State) → T id → P s → call y id s ≡ ok s' → P s') where
  follow_inv :
      (ts : List (Why × String)) (s s' : State)
      → AllTargets T ts
      → P s
      → follow call ts s ≡ ok s'
      → P s'
  unfolding follow
  follow_inv [] s s' h p e = let e' : s ≡ s' = cc in rw e' at p
  follow_inv ((y, id) ∷ rest) s s' h p e =
      let (t, first, others) = >>=-eq-ok (call y id s) (follow call rest) e in
      follow_inv rest t s' h.1 (step y id s t h.0 p first) others

module _ {Why : Type 0} {w : Walk Why} (laws : IsWalk w) (graph : Graph) (T : String → Type 0)
    (P : State → Type 0) (rule : Rule w graph T P) where
  visit_inv :
      (n : ℕ) (y : Why) (id : String) (s s' : State)
      → T id
      → P s
      → visit w graph n y id s ≡ ok s'
      → P s'
  visit_inv zero y id s s' h p e = absurd (unfold visit in cc)
  visit_inv (suc n) y id s s' h p e =
      let (node, here, e') = visit-suc laws graph n y id s s' e in
      let call : Call Why = visit w graph n in
      let c = visit-IsCall laws graph n in
      elim (visit_node-Visited laws call c y id node s s' e') [
        | already old same ↦ rw same p
        | entered t new idle inner last ↦
            let (f, all) = follow_lem call c (targets w node.deps) _ t inner in
            let p' =
              follow_inv call T P (visit_inv n) (targets w node.deps) _ t
                (AllTargets-targets w T node.deps (rule.edge id node here h)) (rule.enter y id s p)
                inner in
            rw last (
              rule.leave id node t here h
                (ground (
                  arith,
                  f.waits id,
                  laws.visiting-enter y id s id,
                  laws.visited-enter y id s id,
                  eq_refl id,
                ))
                (AllVisited-targets w t node.deps all) p')
      ]

  -- The rule for a whole walk.
  pub walk_inv :
      (n : ℕ) (ts : List (Why × String)) (s s' : State)
      → AllTargets T ts
      → P s
      → follow (visit w graph n) ts s ≡ ok s'
      → P s'
  walk_inv n = follow_inv (visit w graph n) T P (visit_inv n)
