-- ===== src/SessionStore/Reads.antt =====
-- What `get` of lib/sessionStore.js answers after `set`.
use zlux_server_framework.Base.{
  ℕ, String, Bool, false, not, ◌&&◌, ◌==◌, none, some, List, [], ◌∷◌, ◌≡◌, refl, arith, leb, length,
  if◌then◌else◌,
}
use zlux_server_framework.Base.Assoc.{lookup, lookup-assign, lookup-without}
use zlux_server_framework.SessionStore.Defs.{
  Session, Store, has, push_full, push_sid, add_session, get, set, session, call_local,
}

-- The id that a full queue loses.
abbrev pub is_oldest : String → List String → Bool
is_oldest sid [] = false
is_oldest sid (x ∷ xs) = x == sid

module _ {Data : Type 0} where
  lookup-push_full :
      (sid j : String) (store : Store Data)
      → lookup j (push_full sid store store.queue).sessions
        ≡ (if is_oldest j store.queue then none else lookup j store.sessions)
  unfolding push_full
  lookup-push_full sid j store = go store.queue
    where
      go :
          (q : List String)
          → lookup j (push_full sid store q).sessions
            ≡ (if is_oldest j q then none else lookup j store.sessions)
      go [] = refl
      go (x ∷ q) = lookup-without x j store.sessions

  lookup-push_sid :
      (limit : ℕ) (sid j : String) (store : Store Data)
      → lookup j (push_sid limit sid store).sessions ≡ (
          if leb limit (length store.queue) && is_oldest j store.queue
          then none
          else lookup j store.sessions)
  unfolding push_sid
  lookup-push_sid limit sid j store = ground (arith, lookup-push_full sid j store)

  -- After `set(sid, s)`, `get(j)` answers with `s` where `j` is `sid`; with nothing where `sid` was new,
  -- the queue was full and `j` was its oldest id; and else with what it would have answered before.
  pub get-set :
      (limit now later : ℕ) (sid j : String) (s : Session Data) (store : Store Data)
      → (call_local limit later (get j) (call_local limit now (set sid s) store).0).1
        ≡ session (
            if sid == j
            then some s
            else if not (has sid store.sessions)
                && leb limit (length store.queue)
                && is_oldest j store.queue
            then none
            else lookup j store.sessions)
  unfolding call_local add_session
  get-set limit now later sid j s store =
      let after = if has sid store.sessions then store else push_sid limit sid store in
      ground (arith, lookup-assign sid j s after.sessions, lookup-push_sid limit sid j store)
