-- ===== src/SessionStore/Mirror.antt =====
-- Without the timeout cleaner, the queue of lib/sessionStore.js lists the keys of the map, in order.
use zlux_server_framework.Base.{
  ℕ, suc, ◌+◌, ◌≤◌, String, true, false, ◌==◌, Option, some, List, [], ◌∷◌, ◌++◌, ◌≡◌, refl, sym,
  ap, ◌∙◌, arith, eq_iff, eq_refl, leb, length, length-append, member, Distinct, if◌then◌else◌,
  if_ind, inl, inr, Bool-cases,
}
use zlux_server_framework.Base.Assoc.{Assoc, lookup, assign, without, keys}
use zlux_server_framework.Base.Erase.{
  erase, erase_of_absent, erase-Distinct, length-erase_le, snoc-Distinct,
}
use zlux_server_framework.SessionStore.Defs.{
  Session, Store, has, index_of, remove_at, splice_one, push_full, push_sid, add_session,
  remove_sid, update_last_touch, Method, all, clear, length_of, destroy, get, set, touch,
  call_local,
}

-- In a list with no repetition `splice(indexOf(sid), 1)` takes `sid` out.
remove_at-index_of :
    (sid : String) (l : List String) (i : ℕ)
    → member sid l ≡ true
    → Distinct l
    → (j : ℕ) × (index_of sid l i ≡ some (i + j)) × (remove_at j l ≡ erase sid l)
unfolding index_of remove_at erase
remove_at-index_of sid [] i h d = absurd (ground arith)
remove_at-index_of sid (x ∷ xs) i h d = elim (Bool-cases (x == sid)) [
  | inl here ↦
      let same : x ≡ sid = (eq_iff x sid).0 here in
      (0, ground arith, ground (arith, erase_of_absent sid xs, ap (λ y. member y xs) same))
  | inr there ↦
      let (j, e, r) =
        remove_at-index_of sid xs (i + 1) (ground (arith, eq_iff x sid, eq_iff sid x)) d.1 in
      let shift : i + 1 + j ≡ i + suc j = omega arith in
      (suc j, ground (arith, ap {B = Option ℕ} some shift), ground arith)
]

module _ {Data : Type 0} where
  pub has-member : (sid : String) (m : Assoc (Session Data)) → has sid m ≡ member sid (keys m)
  unfolding lookup keys
  has-member sid [] = refl
  has-member sid ((j, s) ∷ m) = ground (arith, has-member sid m, eq_iff j sid, eq_iff sid j)

  pub keys-without :
      (sid : String) (m : Assoc (Session Data)) → keys (without sid m) ≡ erase sid (keys m)
  unfolding without keys erase
  keys-without sid [] = refl
  keys-without sid ((j, s) ∷ m) = ground (arith, keys-without sid m)

  pub keys-assign :
      (sid : String) (s : Session Data) (m : Assoc (Session Data))
      → keys (assign sid s m) ≡ (if member sid (keys m) then keys m else keys m ++ sid ∷ [])
  unfolding assign keys
  keys-assign sid s [] = refl
  keys-assign sid s ((j, t) ∷ m) = ground (arith, keys-assign sid s m, eq_iff j sid, eq_iff sid j)

-- The queue lists the keys of the map in their order, none twice, and is within its limit.
pub record IsMirror {Data : Type 0} (limit : ℕ) (store : Store Data) : Type 0 where
  pub same : keys store.sessions ≡ store.queue
  pub distinct : Distinct store.queue
  pub within : length store.queue ≤ limit

module _ {Data : Type 0} (limit : ℕ) (store : Store Data) (mirror : IsMirror limit store) where
  member_queue : (sid : String) → has sid store.sessions ≡ member sid store.queue
  member_queue sid = has-member sid store.sessions ∙ ap (member sid) mirror.same

  -- A new session in a full store takes the place of the oldest one.
  push-IsMirror_full :
      (removed : String) (rest : List String) (sid : String) (s : Session Data)
      → store.queue ≡ removed ∷ rest
      → member sid store.queue ≡ false
      → IsMirror limit (record {
        sessions = assign sid s (without removed store.sessions);
        queue = rest ++ sid ∷ [];
      })
  unfolding erase
  push-IsMirror_full removed rest sid s q new =
      let d : Distinct (removed ∷ rest) = rw q at mirror.distinct in
      let ks : keys (without removed store.sessions) ≡ rest =
        keys-without removed store.sessions
        ∙ (ap (erase removed) (mirror.same ∙ q)
            ∙ ground (arith, erase_of_absent removed rest d.0, eq_refl removed)) in
      let fresh : member sid rest ≡ false = ground (arith, ap (member sid) q) in
      record {
        same = keys-assign sid s (without removed store.sessions) ∙ (rw ks (ground arith));
        distinct = snoc-Distinct sid rest d.1 fresh;
        within = omega (arith, length-append rest (sid ∷ []), mirror.within, ap {B = ℕ} length q);
      }

  push-IsMirror :
      (sid : String) (s : Session Data)
      → length store.queue + 1 ≤ limit
      → member sid store.queue ≡ false
      → IsMirror limit
          (record { sessions = assign sid s store.sessions; queue = store.queue ++ sid ∷ [] })
  push-IsMirror sid s room new = record {
    same =
        keys-assign sid s store.sessions ∙ ground (arith, mirror.same, ap (member sid) mirror.same);
    distinct = snoc-Distinct sid store.queue mirror.distinct new;
    within = omega (arith, length-append store.queue (sid ∷ []));
  }

  add_session-IsMirror :
      (sid : String) (s : Session Data) → 1 ≤ limit → IsMirror limit (add_session limit sid s store)
  unfolding add_session push_sid push_full
  add_session-IsMirror sid s positive =
      if_ind (λ (c : Store Data). IsMirror limit (store_in c)) (has sid store.sessions)
        (λ here. record {
          same =
              keys-assign sid s store.sessions
              ∙ ground (arith, mirror.same, member_queue sid, ap (member sid) mirror.same);
          distinct = mirror.distinct;
          within = mirror.within;
        })
        (λ missing.
          let new : member sid store.queue ≡ false = sym (member_queue sid) ∙ missing in
          if_ind (λ (c : Store Data). IsMirror limit (store_in c)) (leb limit (length store.queue))
            (λ full. full_case store.queue refl full new)
            (λ room. push-IsMirror sid s (ground arith) new))
    where
      store_in : Store Data → Store Data
      store_in c = record c { sessions = assign sid s c.sessions }

      full_case :
          (q : List String)
          → store.queue ≡ q
          → leb limit (length q) ≡ true
          → member sid store.queue ≡ false
          → IsMirror limit (store_in (push_full sid store q))
      full_case [] e full new = absurd (ground arith)
      full_case (removed ∷ rest) e full new = push-IsMirror_full removed rest sid s e new

  remove_sid-IsMirror : (sid : String) → IsMirror limit (remove_sid sid store)
  unfolding remove_sid splice_one
  remove_sid-IsMirror sid =
      if_ind (IsMirror limit) (has sid store.sessions)
        (λ here.
          let (j, e, r) =
            remove_at-index_of sid store.queue 0 (sym (member_queue sid) ∙ here) mirror.distinct in
          let q : splice_one (index_of sid store.queue 0) store.queue ≡ erase sid store.queue =
            ground (arith, e, r) in
          rw q (record {
            same = keys-without sid store.sessions ∙ ap (erase sid) mirror.same;
            distinct = erase-Distinct sid store.queue mirror.distinct;
            within = omega (arith, length-erase_le sid store.queue, mirror.within);
          }))
        (λ missing. mirror)

module _ {Data : Type 0} (limit now : ℕ) (positive : 1 ≤ limit) where
  -- Each method called on the store itself keeps the queue a mirror of the map: the queue lists the
  -- keys of the map in insertion order, holds none twice, and is not longer than its limit, which is
  -- at least 1.
  pub call_local-IsMirror :
      (method : Method Data) (store : Store Data)
      → IsMirror limit store
      → IsMirror limit (call_local limit now method store).0
  unfolding call_local
  call_local-IsMirror all store m = m
  call_local-IsMirror clear store m = record {
    same = unfold keys in refl;
    distinct = tt;
    within = omega arith;
  }
  call_local-IsMirror length_of store m = m
  call_local-IsMirror (destroy sid) store m = remove_sid-IsMirror limit store m sid
  call_local-IsMirror (get sid) store m = m
  call_local-IsMirror (set sid s) store m = add_session-IsMirror limit store m sid s positive
  call_local-IsMirror (touch sid s) store m =
      add_session-IsMirror limit store m sid (update_last_touch now s) positive
