-- ===== src/DepGraph/Build/Grows.antt =====
-- The graph of lib/depgraph.js only grows while it is built.
use mathlib.Core.List.{Memᴰ}
use zlux_server_framework.Base.{
  if_ind, false, String, some, List, [], ◌∷◌, ◌++◌, ◌≡◌, refl, ◌==◌, arith, eq_iff, eq_refl, inl,
  inr, Bool-cases, Option-cases, if◌then◌else◌,
}
use zlux_server_framework.Base.Assoc.{lookup, lookup-append}
use zlux_server_framework.DepGraph.Plugin.{is_inherited, DepLink, Node, Graph}
use zlux_server_framework.DepGraph.Build.{ensure_own, ensure_node, push_dep, push_broken}

-- The node of `p` stands in the graph.
abbrev pub HasNode : Graph → String → Type 0
HasNode g p = (node : Node) × (lookup p g ≡ some node)

-- The link stands in the list of its provider's node.
abbrev pub InGraph : Graph → DepLink → Type 0
InGraph g d = (node : Node) × (lookup d.provider g ≡ some node) × Memᴰ d node.deps

pub record Grows (g g' : Graph) : Type 0 where
  pub node :
      (p : String) (n : Node)
      → lookup p g ≡ some n
      → (n' : Node) × (lookup p g' ≡ some n') × ((d : DepLink) → Memᴰ d n.deps → Memᴰ d n'.deps)

pub Grows-refl : (g : Graph) → Grows g g
Grows-refl g = record { node = λ p n e. (n, e, λ d m. m) }

pub Grows-trans : {f g h : Graph} → Grows f g → Grows g h → Grows f h
Grows-trans a b = record {
  node = λ p n e.
      let (n', e', k) = a.node p n e in
      let (n'', e'', k') = b.node p n' e' in (n'', e'', λ d m. k' d (k d m));
}

pub HasNode-Grows : {g g' : Graph} (p : String) → Grows g g' → HasNode g p → HasNode g' p
HasNode-Grows p grows (n, e) = let (n', e', k) = grows.node p n e in (n', e')

pub InGraph-Grows : {g g' : Graph} (d : DepLink) → Grows g g' → InGraph g d → InGraph g' d
InGraph-Grows d grows (n, e, m) = let (n', e', k) = grows.node d.provider n e in (n', e', k d m)

ensure_own-Grows : (id : String) (g : Graph) → Grows g (ensure_own id g)
unfolding ensure_own
ensure_own-Grows id g = record {
  node = λ p n e. (
    n,
    elim (Option-cases (lookup id g)) [
      | inl missing ↦
          rw (missing, ensure_own)
            (ground (arith, lookup-append id p (record { plugin_id = id; deps = [] }) g))
      | inr (old, here) ↦ rw (here, ensure_own) e
    ],
    λ d m. m,
  );
}

ensure_own-HasNode : (id : String) (g : Graph) → HasNode (ensure_own id g) id
unfolding ensure_own
ensure_own-HasNode id g = elim (Option-cases (lookup id g)) [
  | inl missing ↦ (
    record { plugin_id = id; deps = [] },
    rw (missing, ensure_own)
        (ground (arith, eq_refl id, lookup-append id id (record { plugin_id = id; deps = [] }) g)),
  )
  | inr (old, here) ↦ (old, rw (here, ensure_own) here)
]

pub ensure_node-Grows : (id : String) (g : Graph) → Grows g (ensure_node id g)
unfolding ensure_node
ensure_node-Grows id g =
    if_ind (λ g'. Grows g g') (is_inherited id) (λ there. Grows-refl g)
      (λ own. ensure_own-Grows id g)

pub ensure_node-HasNode :
    (id : String) (g : Graph) → is_inherited id ≡ false → HasNode (ensure_node id g) id
unfolding ensure_node
ensure_node-HasNode id g own = rw own (ensure_own-HasNode id g)

pub Memᴰ-append_left : (d : DepLink) (xs ys : List DepLink) → Memᴰ d xs → Memᴰ d (xs ++ ys)
Memᴰ-append_left d [] ys m = elim m [ ]
Memᴰ-append_left d (x ∷ xs) ys (Memᴰ.head e) = Memᴰ.head e
Memᴰ-append_left d (x ∷ xs) ys (Memᴰ.tail m) = Memᴰ.tail (Memᴰ-append_left d xs ys m)

pub Memᴰ-snoc : (d : DepLink) (xs : List DepLink) → Memᴰ d (xs ++ d ∷ [])
Memᴰ-snoc d [] = Memᴰ.head refl
Memᴰ-snoc d (x ∷ xs) = Memᴰ.tail (Memᴰ-snoc d xs)

-- What `lookup` finds behind `push_dep`.
pub lookup-push_dep :
    (id p : String) (dep : DepLink) (g : Graph) (n : Node)
    → lookup p g ≡ some n
    → lookup p (push_dep id dep g)
      ≡ (if id == p then some (record n { deps = n.deps ++ dep ∷ [] }) else some n)
unfolding lookup push_dep
lookup-push_dep id p dep [] n e = absurd (ground arith)
lookup-push_dep id p dep ((j, w) ∷ g) n e =
    ground (arith, eq_iff j p, eq_iff j id, eq_iff id p, lookup-push_dep id p dep g n)

pub push_dep-Grows : (id : String) (dep : DepLink) (g : Graph) → Grows g (push_dep id dep g)
push_dep-Grows id dep g = record {
  node = λ p n e. elim (Bool-cases (id == p)) [
    | inl here ↦ (
      record n { deps = n.deps ++ dep ∷ [] },
      ground (arith, lookup-push_dep id p dep g n),
      λ d m. Memᴰ-append_left d n.deps (dep ∷ []) m,
    )
    | inr there ↦ (n, ground (arith, lookup-push_dep id p dep g n), λ d m. m)
  ];
}

pub push_dep-InGraph :
    (dep : DepLink) (g : Graph) → HasNode g dep.provider → InGraph (push_dep dep.provider dep g) dep
push_dep-InGraph dep g (n, e) = (
  record n { deps = n.deps ++ dep ∷ [] },
  ground (arith, lookup-push_dep dep.provider dep.provider dep g n, eq_refl dep.provider),
  Memᴰ-snoc dep n.deps,
)

pub push_broken-Grows : (deps : List DepLink) (g : Graph) → Grows g (push_broken deps g)
unfolding push_broken
push_broken-Grows [] g = Grows-refl g
push_broken-Grows (dep ∷ deps) g =
    Grows-trans (push_dep-Grows dep.provider dep g)
      (push_broken-Grows deps (push_dep dep.provider dep g))
