-- ===== src/Cluster/Restore.antt =====
-- How lib/clusterManager.js Tells later workers of plugins that were added before.
use mathlib.Core.Path.{subst}
use mathlib.Core.List.{Memᴰ}
use zlux_server_framework.Base.{
  ℕ, String, true, ◌==◌, Option, none, some, List, [], ◌∷◌, ◌++◌, ◌≡◌, sym, ap, ◌∙◌, arith, inl,
  inr, nat_eq, Bool-cases, Option-cases, if_ind, if◌then◌else◌,
}
use zlux_server_framework.Base.Assoc.{Assoc, lookup, lookup-assign}
use zlux_server_framework.Base.Outcome.{Outcome, ok}
use zlux_server_framework.Cluster.Pool.{
  Sender, master, worker, notified, NodeState, plugin_defs, nothing, Master, Fault, worker_at,
  set_worker,
}
use zlux_server_framework.Cluster.Messages.{
  add_dynamic_plugin, create_node_state_for, put_def, remember, or_else, restore, restore_all,
  states_of, remember_node_state, restore_node_state, report_initialized, notify_workers,
  notify_workers_for_adding_plugin, init_once,
}

Memᴰ_in_front : {A : Type 0} (a : A) (front back : List A) → Memᴰ a front → Memᴰ a (front ++ back)
Memᴰ_in_front a [] back h = elim h [ ]
Memᴰ_in_front a (x ∷ front) back (Memᴰ.head e) = Memᴰ.head e
Memᴰ_in_front a (x ∷ front) back (Memᴰ.tail h) = Memᴰ.tail (Memᴰ_in_front a front back h)

Memᴰ_behind : {A : Type 0} (a : A) (front back : List A) → Memᴰ a back → Memᴰ a (front ++ back)
Memᴰ_behind a [] back h = h
Memᴰ_behind a (x ∷ front) back h = Memᴰ.tail (Memᴰ_behind a front back h)

module _ {Definition : Type 0} where
  -- A state that is kept for added plugins is a map of them.
  abbrev pub MapsPlugins : Option (NodeState Definition) → Type 0
  MapsPlugins none = Unit
  MapsPlugins (some (plugin_defs defs)) = Unit
  MapsPlugins (some nothing) = ⊥

  abbrev pub defs_of : Option (NodeState Definition) → Assoc Definition
  defs_of (some (plugin_defs defs)) = defs
  defs_of _ = []

  -- The definitions that the master will tell a worker of, by identifier.
  unfoldable pub known_defs : Master Definition → Assoc Definition
  unfolding states_of lookup
  known_defs m = defs_of (lookup add_dynamic_plugin (states_of m))

  restored-mem :
      (wi : ℕ) (id : String) (def : Definition) (defs : Assoc Definition)
      → lookup id defs ≡ some def
      → Memᴰ (notified wi add_dynamic_plugin (some def) master) (restore wi (plugin_defs defs))
  unfolding lookup restore
  restored-mem wi id def [] e = cc
  restored-mem wi id def ((name, value) ∷ defs) e = elim (Bool-cases (name == id)) [
    | inl here ↦
        let same : some value ≡ some def = ground (arith, here, e) in
        Memᴰ.head (ap (λ o. notified wi add_dynamic_plugin o master) (sym same))
    | inr there ↦ Memᴰ.tail (restored-mem wi id def defs (ground (arith, there, e)))
  ]

  remember-lookup :
      (identifier : Definition → Option String) (id other : String) (def : Definition)
      (o : Option (NodeState Definition))
      → identifier def ≡ some id
      → MapsPlugins o
      → lookup other (
          defs_of
            (some (remember identifier def (or_else (create_node_state_for add_dynamic_plugin) o))))
        ≡ (if id == other then some def else lookup other (defs_of o))
  unfolding remember put_def create_node_state_for
  remember-lookup identifier id other def none e maps = rw e (lookup-assign id other def [])
  remember-lookup identifier id other def (some (plugin_defs defs)) e maps =
      rw e (lookup-assign id other def defs)
  remember-lookup identifier id other def (some nothing) e maps = absurd maps

  remembered_defs :
      (identifier : Definition → Option String) (def : Definition) (m : Master Definition)
      → known_defs (remember_node_state identifier add_dynamic_plugin def m)
        ≡ defs_of (
            some (
              remember identifier def (
                or_else
                  (create_node_state_for add_dynamic_plugin)
                  (lookup add_dynamic_plugin (states_of m)))))
  unfolding known_defs remember_node_state states_of
  remembered_defs identifier def m =
      ap defs_of (lookup-assign add_dynamic_plugin add_dynamic_plugin _ (states_of m))

  -- A plugin that is added becomes the one that is known by its identifier, and the others stay known
  -- as they were.
  pub notify_workers_for_adding_plugin-known_defs :
      (identifier : Definition → Option String) (id other : String) (def : Definition)
      (sender : Sender) (m : Master Definition)
      → identifier def ≡ some id
      → MapsPlugins (lookup add_dynamic_plugin (states_of m))
      → lookup other (known_defs (notify_workers_for_adding_plugin identifier def sender m))
        ≡ (if id == other then some def else lookup other (known_defs m))
  unfolding notify_workers_for_adding_plugin notify_workers known_defs states_of
  notify_workers_for_adding_plugin-known_defs identifier id other def sender m e maps =
      ap (lookup other) (remembered_defs identifier def m)
      ∙ remember-lookup identifier id other def (lookup add_dynamic_plugin (states_of m)) e maps

  restore_all-mem :
      (wi : ℕ) (id : String) (def : Definition) (states : Assoc (NodeState Definition))
      → lookup id (defs_of (lookup add_dynamic_plugin states)) ≡ some def
      → Memᴰ (notified wi add_dynamic_plugin (some def) master) (restore_all wi states)
  unfolding restore_all lookup
  restore_all-mem wi id def [] e = cc
  restore_all-mem wi id def ((type, state) ∷ states) e =
      elim (Bool-cases (type == add_dynamic_plugin)) [
        | inl here ↦
            Memᴰ_in_front _ (restore wi state) (restore_all wi states)
              (first state (rw (here, lookup) at e))
        | inr there ↦
            Memᴰ_behind _ (restore wi state) (restore_all wi states)
              (restore_all-mem wi id def states (rw (there, lookup) at e))
      ]
    where
      first :
          (s : NodeState Definition)
          → lookup id (defs_of (some s)) ≡ some def
          → Memᴰ (notified wi add_dynamic_plugin (some def) master) (restore wi s)
      first (plugin_defs defs) found = restored-mem wi id def defs found
      first nothing found = cc

  abbrev Tells : ℕ → Definition → Outcome Fault (Master Definition) → Type 0
  Tells wi def (ok m) = Memᴰ (notified wi add_dynamic_plugin (some def) master) m.log
  Tells wi def _ = Unit

  report_initialized-Tells :
      (wi : ℕ) (id : String) (def : Definition) (m : Master Definition)
      → lookup id (known_defs m) ≡ some def
      → Tells wi def (report_initialized wi m)
  unfolding known_defs report_initialized restore_node_state states_of
  report_initialized-Tells wi id def m known = elim (Option-cases (worker_at wi m.workers)) [
    | inl hole ↦ rw (hole, report_initialized) tt
    | inr (w, there) ↦
        let ready = record m {
          workers = set_worker wi (record { initialized = true }) m.workers;
        } in
        let sent = restore_all-mem wi id def (states_of m) known in
        rw (there, report_initialized)
          (if_ind (λ x. Tells wi def (ok (restore_node_state wi x))) (nat_eq wi 0) {y = ready}
            (λ first. Memᴰ_behind _ (m.log ++ notified wi init_once none (worker wi) ∷ []) _ sent)
            (λ other. Memᴰ_behind _ m.log _ sent))
  ]

  -- A worker that reports that it is initialized is told of each plugin that is known.
  pub report_initialized-known_defs :
      (wi : ℕ) (id : String) (def : Definition) (m m' : Master Definition)
      → lookup id (known_defs m) ≡ some def
      → report_initialized wi m ≡ ok m'
      → Memᴰ (notified wi add_dynamic_plugin (some def) master) m'.log
  report_initialized-known_defs wi id def m m' known h =
      subst (Tells wi def) h (report_initialized-Tells wi id def m known)
