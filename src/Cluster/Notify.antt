-- ===== src/Cluster/Notify.antt =====
-- Who is notified of what in lib/clusterManager.js.
use mathlib.Core.List.{Memᴰ}
use mathlib.Core.Path.{subst}
use zlux_server_framework.Base.{
  ℕ, zero, suc, ◌+◌, ◌≤◌, ◌≢◌, String, false, Option, none, some, List, [], ◌∷◌, ◌++◌, ◌≡◌, ◌↔◌,
  refl, sym, ap, arith, inl, inr, map, if_ind, Bool-cases, if◌then◌else◌,
}
use zlux_server_framework.Cluster.Pool.{Worker, Sender, master, worker, notified, Master, worker_at}
use zlux_server_framework.Cluster.Messages.{is_sender, notify_from, notify_workers}
use zlux_server_framework.Cluster.Bounds.{Present}

-- The numbers go up and are all at least `n`.
abbrev pub Ascending : ℕ → List ℕ → Type 0
Ascending n [] = Unit
Ascending n (i ∷ l) = (n ≤ i) × Ascending (i + 1) l

-- The index is not the sender's.
abbrev pub IsOther : ℕ → Sender → Type 0
IsOther wi master = Unit
IsOther wi (worker j) = wi ≢ j

is_sender-IsOther : (wi : ℕ) (sender : Sender) → is_sender wi sender ≡ false → IsOther wi sender
is_sender-IsOther wi master e = tt
is_sender-IsOther wi (worker j) e = λ same. ground (arith, same, e)

IsOther-is_sender : (wi : ℕ) (sender : Sender) → IsOther wi sender → is_sender wi sender ≡ false
IsOther-is_sender wi master other = refl
IsOther-is_sender wi (worker j) other = ground (arith, other)

Ascending-weaken : (n k : ℕ) (l : List ℕ) → n ≤ k → Ascending k l → Ascending n l
Ascending-weaken n k [] le h = tt
Ascending-weaken n k (i ∷ l) le (above, h) = (omega (arith, le, above), h)

module _ (sender : Sender) where
  -- The indices that are notified, from `i` on.
  receivers_from : ℕ → List (Option Worker) → List ℕ
  receivers_from i [] = []
  receivers_from i (none ∷ ws) = receivers_from (i + 1) ws
  receivers_from i (some w ∷ ws) =
      let rest = receivers_from (i + 1) ws in if is_sender i sender then rest else i ∷ rest

  receivers_from-Ascending : (i : ℕ) (ws : List (Option Worker)) → Ascending i (receivers_from i ws)
  unfolding receivers_from
  receivers_from-Ascending i [] = tt
  receivers_from-Ascending i (none ∷ ws) =
      Ascending-weaken i (i + 1) (receivers_from (i + 1) ws) (omega arith)
        (receivers_from-Ascending (i + 1) ws)
  receivers_from-Ascending i (some w ∷ ws) =
      let later = receivers_from-Ascending (i + 1) ws in
      if_ind (Ascending i) (is_sender i sender)
        (λ self. Ascending-weaken i (i + 1) (receivers_from (i + 1) ws) (omega arith) later)
        (λ told. (omega arith, later))

  receivers_from-heard :
      (i wi j : ℕ) (ws : List (Option Worker))
      → j ≡ i + wi
      → Present wi ws
      → is_sender j sender ≡ false
      → Memᴰ j (receivers_from i ws)
  unfolding worker_at receivers_from
  receivers_from-heard i wi j [] at (w, e) other = cc
  receivers_from-heard i zero j (none ∷ ws) at (w, e) other = cc
  receivers_from-heard i zero j (some v ∷ ws) at p other =
      let same : i ≡ j = omega (arith, at) in rw (same, other) (Memᴰ.head refl)
  receivers_from-heard i (suc wi) j (none ∷ ws) at p other =
      receivers_from-heard (i + 1) wi j ws (omega (arith, at)) p other
  receivers_from-heard i (suc wi) j (some v ∷ ws) at p other =
      let later = receivers_from-heard (i + 1) wi j ws (omega (arith, at)) p other in
      if_ind (Memᴰ j) (is_sender i sender) (λ self. later) (λ told. Memᴰ.tail later)

  -- The place in the list of an index that is notified.
  Place : ℕ → ℕ → List (Option Worker) → Type 0
  Place i j ws = (wi : ℕ) × ((j ≡ i + wi) × (Present wi ws × (is_sender j sender ≡ false)))

  receivers_from-Place :
      (i j : ℕ) (ws : List (Option Worker)) → Memᴰ j (receivers_from i ws) → Place i j ws
  unfolding worker_at receivers_from Place
  receivers_from-Place i j [] m = elim m [ ]
  receivers_from-Place i j (none ∷ ws) m =
      let (wi, (at, rest)) = receivers_from-Place (i + 1) j ws m in
      (suc wi, (omega (arith, at), rest))
  receivers_from-Place i j (some v ∷ ws) m = elim (Bool-cases (is_sender i sender)) [
    | inl self ↦
        let (wi, (at, rest)) = receivers_from-Place (i + 1) j ws (rw self at m) in
        (suc wi, (omega (arith, at), rest))
    | inr told ↦ (elim (rw told at m) [
      | Memᴰ.head same ↦ (
        zero,
        (omega (arith, same), ((v, refl), subst (λ k. is_sender k sender ≡ false) (sym same) told)),
      )
      | Memᴰ.tail later ↦
          let (wi, (at, rest)) = receivers_from-Place (i + 1) j ws later in
          (suc wi, (omega (arith, at), rest))
    ])
  ]

module _ {Definition : Type 0} (name : String) (args : Option Definition) (sender : Sender) where
  notify_from-receivers_from :
      (i : ℕ) (ws : List (Option Worker))
      → notify_from i name args sender ws
        ≡ map (λ wi. notified wi name args sender) (receivers_from sender i ws)
  unfolding notify_from receivers_from
  notify_from-receivers_from i [] = refl
  notify_from-receivers_from i (none ∷ ws) = notify_from-receivers_from (i + 1) ws
  notify_from-receivers_from i (some v ∷ ws) =
      let later = notify_from-receivers_from (i + 1) ws in
      elim (Bool-cases (is_sender i sender)) [
        | inl self ↦ rw self later
        | inr told ↦ rw told (ap (λ l. notified i name args sender ∷ l) later)
      ]

  -- The messages that a notification adds to the log: one for each receiver, in ascending order.
  pub record Told (m m' : Master Definition) : Type 0 where
    pub receivers : List ℕ
    pub split : m'.log ≡ m.log ++ map (λ wi. notified wi name args sender) receivers
    pub ascending : Ascending 0 receivers
    pub exact : (wi : ℕ) → Memᴰ wi receivers ↔ Present wi m.workers × IsOther wi sender

  -- A notification is sent exactly once to each worker that is there but its sender, in ascending order
  -- of their indices, and nothing else is sent.
  pub notify_workers-Told : (m : Master Definition) → Told m (notify_workers name args sender m)
  unfolding notify_workers Place
  notify_workers-Told m = record {
    receivers = receivers_from sender 0 m.workers;
    split = ap (λ l. m.log ++ l) (notify_from-receivers_from 0 m.workers);
    ascending = receivers_from-Ascending sender 0 m.workers;
    exact = λ wi. (
      λ mem.
          let (k, (at, (there, other))) = receivers_from-Place sender 0 wi m.workers mem in
          (
            subst (λ n. Present n m.workers) (omega (arith, at)) there,
            is_sender-IsOther wi sender other,
          ),
      λ (there, other).
          receivers_from-heard sender 0 wi wi m.workers (omega arith) there
            (IsOther-is_sender wi sender other),
    );
  }
