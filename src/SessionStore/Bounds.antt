-- ===== src/SessionStore/Bounds.antt =====
-- With the timeout cleaner running, the queue of lib/sessionStore.js still covers the map, so that the
-- store never holds more sessions than its limit.
use zlux_server_framework.Base.{
  ℕ, suc, ◌+◌, ◌≤◌, String, true, false, ◌||◌, ◌==◌, Option, some, List, [], ◌∷◌, ◌++◌, ◌≡◌, refl,
  sym, ap, ◌∙◌, arith, eq_iff, eq_refl, leb, length, length-append, member, member-append, Distinct,
  if_ind, inl, inr, Bool-cases,
}
use zlux_server_framework.Base.Assoc.{Assoc, assign, without, keys}
use zlux_server_framework.SessionStore.Defs.{
  Session, Store, has, is_expired, index_of, remove_at, splice_one, push_full, push_sid,
  add_session, remove_sid, sweep, clean, update_last_touch, Method, all, clear, length_of, destroy,
  get, set, touch, call_local, empty,
}
use zlux_server_framework.Base.Erase.{
  snoc-Distinct, member-erase, erase-Distinct, length_of_covered,
}
use zlux_server_framework.SessionStore.Mirror.{has-member, keys-without, keys-assign}

-- What `splice(indexOf(sid), 1)` does to a list that holds `sid`, also where it holds it twice.
remove_at_first :
    (sid : String) (l : List String) (i : ℕ)
    → member sid l ≡ true
    → (k : ℕ) × (index_of sid l i ≡ some (i + k))
      × (length (remove_at k l) ≤ length l)
      × ((j : String) → (j == sid) ≡ false → member j (remove_at k l) ≡ member j l)
unfolding index_of remove_at
remove_at_first sid [] i h = absurd (ground arith)
remove_at_first sid (x ∷ xs) i h = elim (Bool-cases (x == sid)) [
  | inl here ↦ (
    0,
    ground arith,
    omega arith,
    λ j other. ground (arith, eq_iff x sid, eq_iff j x, eq_iff j sid),
  )
  | inr there ↦
      let (k, e, shorter, same) =
        remove_at_first sid xs (i + 1) (ground (arith, eq_iff x sid, eq_iff sid x)) in
      let shift : i + 1 + k ≡ i + suc k = omega arith in
      (
        suc k,
        ground (arith, ap {B = Option ℕ} some shift),
        omega (arith, shorter),
        λ j other. ground (arith, same j other),
      )
]

pub record IsCovered {Data : Type 0} (limit : ℕ) (store : Store Data) : Type 0 where
  pub distinct : Distinct (keys store.sessions)
  pub covered : (j : String) → member j (keys store.sessions) ≡ true → member j store.queue ≡ true
  pub within : length store.queue ≤ limit

module _ {Data : Type 0} where
  length-keys : (m : Assoc (Session Data)) → length (keys m) ≡ length m
  unfolding keys
  length-keys [] = refl
  length-keys ((j, s) ∷ m) = ground (arith, length-keys m)

  assign-Distinct :
      (sid : String) (s : Session Data) (m : Assoc (Session Data))
      → Distinct (keys m)
      → Distinct (keys (assign sid s m))
  assign-Distinct sid s m d =
      rw (keys-assign sid s m)
        (if_ind Distinct (member sid (keys m)) (λ old. d) (λ new. snoc-Distinct sid (keys m) d new))

  member-keys-assign :
      (sid j : String) (s : Session Data) (m : Assoc (Session Data))
      → member j (keys (assign sid s m)) ≡ true
      → (j == sid || member j (keys m)) ≡ true
  member-keys-assign sid j s m h =
      ground (arith, ap (member j) (keys-assign sid s m), member-append j (keys m) (sid ∷ []))

  member-sweep :
      (now dead_age : ℕ) (j : String) (m : Assoc (Session Data))
      → member j (keys (sweep now dead_age m)) ≡ true
      → member j (keys m) ≡ true
  unfolding sweep keys
  member-sweep now dead_age j [] h = cc
  member-sweep now dead_age j ((k, s) ∷ m) h = ground (arith, member-sweep now dead_age j m)

  sweep-Distinct :
      (now dead_age : ℕ) (m : Assoc (Session Data))
      → Distinct (keys m)
      → Distinct (keys (sweep now dead_age m))
  unfolding sweep keys
  sweep-Distinct now dead_age [] d = tt
  sweep-Distinct now dead_age ((k, s) ∷ m) d =
      if_ind (λ (l : Assoc (Session Data)). Distinct (keys l)) (is_expired now dead_age s)
        (λ old. sweep-Distinct now dead_age m d.1)
        (λ kept.
          (ground (arith, member-sweep now dead_age k m, d.0), sweep-Distinct now dead_age m d.1))

module _ {Data : Type 0} (limit : ℕ) (store : Store Data) (c : IsCovered limit store) where
  add_full-IsCovered :
      (removed : String) (rest : List String) (sid : String) (s : Session Data)
      → store.queue ≡ removed ∷ rest
      → IsCovered limit (record {
        sessions = assign sid s (without removed store.sessions);
        queue = rest ++ sid ∷ [];
      })
  add_full-IsCovered removed rest sid s q = record {
    distinct = assign-Distinct sid s (without removed store.sessions) (
        rw (keys-without removed store.sessions)
          (erase-Distinct removed (keys store.sessions) c.distinct));
    covered = λ j h. ground (
      arith,
      member-append j rest (sid ∷ []),
      member-keys-assign sid j s (without removed store.sessions) h,
      ap (member j) (keys-without removed store.sessions),
      member-erase removed j (keys store.sessions),
      c.covered j,
      ap (member j) q,
    );
    within = omega (arith, length-append rest (sid ∷ []), c.within, ap {B = ℕ} length q);
  }

  add-IsCovered :
      (queue : List String) (sid : String) (s : Session Data)
      → ((j : String) → member j store.queue ≡ true → member j queue ≡ true)
      → member sid queue ≡ true
      → length queue ≤ limit
      → IsCovered limit (record { sessions = assign sid s store.sessions; queue = queue })
  add-IsCovered queue sid s more new fits = record {
    distinct = assign-Distinct sid s store.sessions c.distinct;
    covered = λ j h. elim (Bool-cases (j == sid)) [
      | inl same ↦ rw ((eq_iff j sid).0 same) new
      | inr other ↦
          more j (c.covered j (ground (arith, member-keys-assign sid j s store.sessions h)))
    ];
    within = fits;
  }

  add_session-IsCovered :
      (sid : String) (s : Session Data)
      → 1 ≤ limit
      → IsCovered limit (add_session limit sid s store)
  unfolding add_session push_sid push_full
  add_session-IsCovered sid s positive =
      if_ind (λ (b : Store Data). IsCovered limit (store_in b)) (has sid store.sessions)
        (λ here.
          add-IsCovered store.queue sid s (λ j h. h)
            (c.covered sid (sym (has-member sid store.sessions) ∙ here)) c.within)
        (λ missing.
          if_ind (λ (b : Store Data). IsCovered limit (store_in b)) (leb limit (length store.queue))
            (λ full. full_case store.queue refl full)
            (λ room.
              add-IsCovered (store.queue ++ sid ∷ []) sid s
                (λ j h. ground (arith, member-append j store.queue (sid ∷ [])))
                (ground (arith, member-append sid store.queue (sid ∷ []), eq_refl sid))
                (ground (arith, length-append store.queue (sid ∷ [])))))
    where
      store_in : Store Data → Store Data
      store_in b = record b { sessions = assign sid s b.sessions }

      full_case :
          (q : List String)
          → store.queue ≡ q
          → leb limit (length q) ≡ true
          → IsCovered limit (store_in (push_full sid store q))
      full_case [] e full = absurd (ground arith)
      full_case (removed ∷ rest) e full = add_full-IsCovered removed rest sid s e

  remove_sid-IsCovered : (sid : String) → IsCovered limit (remove_sid sid store)
  unfolding remove_sid splice_one
  remove_sid-IsCovered sid =
      if_ind (IsCovered limit) (has sid store.sessions)
        (λ here.
          let (k, e, shorter, same) =
            remove_at_first sid store.queue 0
              (c.covered sid (sym (has-member sid store.sessions) ∙ here)) in
          let q : splice_one (index_of sid store.queue 0) store.queue ≡ remove_at k store.queue =
            ground (arith, e) in
          rw q (record {
            distinct =
                rw (keys-without sid store.sessions)
                  (erase-Distinct sid (keys store.sessions) c.distinct);
            covered = λ j h. ground (
              arith,
              ap (member j) (keys-without sid store.sessions),
              member-erase sid j (keys store.sessions),
              c.covered j,
              same j,
            );
            within = omega (arith, shorter, c.within);
          }))
        (λ missing. c)

  clean-IsCovered : (now dead_age : ℕ) → IsCovered limit (clean now dead_age store)
  unfolding clean
  clean-IsCovered now dead_age = record {
    distinct = sweep-Distinct now dead_age store.sessions c.distinct;
    covered = λ j h. c.covered j (member-sweep now dead_age j store.sessions h);
    within = c.within;
  }

-- What happens to the store of a server: calls of its methods at some time, and runs of the cleaner.
pub data Event (Data : Type 0) : Type 0 where
  called : (now : ℕ) → Method Data → Event Data
  cleaned : (now : ℕ) → Event Data

module _ {Data : Type 0} (limit dead_age : ℕ) where
  abbrev pub step : Event Data → Store Data → Store Data
  step (called now method) store = (call_local limit now method store).0
  step (cleaned now) store = clean now dead_age store

  abbrev pub run : List (Event Data) → Store Data → Store Data
  run [] store = store
  run (event ∷ events) store = run events (step event store)

  module _ (positive : 1 ≤ limit) where
    step-IsCovered :
        (event : Event Data) (store : Store Data)
        → IsCovered limit store
        → IsCovered limit (step event store)
    unfolding call_local
    step-IsCovered (called now all) store c = c
    step-IsCovered (called now clear) store c = record {
      distinct = unfold keys in tt;
      covered = λ j h. absurd (unfold keys in cc);
      within = omega arith;
    }
    step-IsCovered (called now length_of) store c = c
    step-IsCovered (called now (destroy sid)) store c = remove_sid-IsCovered limit store c sid
    step-IsCovered (called now (get sid)) store c = c
    step-IsCovered (called now (set sid s)) store c =
        add_session-IsCovered limit store c sid s positive
    step-IsCovered (called now (touch sid s)) store c =
        add_session-IsCovered limit store c sid (update_last_touch now s) positive
    step-IsCovered (cleaned now) store c = clean-IsCovered limit store c now dead_age

    run-IsCovered :
        (events : List (Event Data)) (store : Store Data)
        → IsCovered limit store
        → IsCovered limit (run events store)
    run-IsCovered [] store c = c
    run-IsCovered (event ∷ events) store c =
        run-IsCovered events (step event store) (step-IsCovered event store c)

    empty-IsCovered : IsCovered limit (empty {Data = Data})
    unfolding keys
    empty-IsCovered = record { distinct = tt; covered = λ j h. absurd (cc); within = omega arith }

    -- From an empty store whose limit is at least 1, whatever methods are called and whenever the
    -- cleaner runs, the store never holds more sessions than the limit, and none twice.
    pub run_bounded :
        (events : List (Event Data))
        → (length (run events empty).sessions ≤ limit) × Distinct (keys (run events empty).sessions)
    run_bounded events =
        let store = run events empty in
        let c = run-IsCovered events empty empty-IsCovered in
        (
          omega (
            arith,
            length_of_covered (keys store.sessions) store.queue c.distinct c.covered,
            c.within,
            length-keys store.sessions,
          ),
          c.distinct,
        )
