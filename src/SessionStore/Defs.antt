-- ===== src/SessionStore/Defs.antt =====
-- The data and the methods of lib/sessionStore.js. `sessions` is a Map, which keeps insertion order;
-- `queue` is the list of ids that `createLimitedQueue` makes, the oldest id first.
use zlux_server_framework.Base.{
  ℕ, zero, suc, ◌+◌, String, Bool, true, false, ◌||◌, ◌==◌, Option, none, some, List, [], ◌∷◌, ◌++◌,
  ltb, leb, length, if◌then◌else◌,
}
use zlux_server_framework.Base.Assoc.{Assoc, lookup, assign, without}

-- A session, with what the application keeps in it. An age of 0 counts as none, as in the source.
pub record Session (Data : Type 0) : Type 0 where
  pub max_age : Option ℕ
  pub last_touch : Option ℕ
  pub content : Data

pub record Store (Data : Type 0) : Type 0 where
  pub sessions : Assoc (Session Data)
  pub queue : List String

abbrev pub has : {Data : Type 0} → String → Assoc (Session Data) → Bool
has sid sessions = elim (lookup sid sessions) [ none ↦ false | some s ↦ true ]

-- `array.indexOf(sid)`, from index `i` on; `none` stands for -1.
unfoldable pub index_of : String → List String → ℕ → Option ℕ
index_of sid [] i = none
index_of sid (x ∷ xs) i = if x == sid then some i else index_of sid xs (i + 1)

unfoldable pub remove_at : ℕ → List String → List String
remove_at i [] = []
remove_at zero (x ∷ xs) = xs
remove_at (suc i) (x ∷ xs) = x ∷ remove_at i xs

unfoldable pub drop_last : List String → List String
drop_last [] = []
drop_last (x ∷ []) = []
drop_last (x ∷ y ∷ xs) = x ∷ drop_last (y ∷ xs)

-- `array.splice(i, 1)`: at -1 it removes the last element.
unfoldable pub splice_one : Option ℕ → List String → List String
unfolding remove_at drop_last
splice_one (some i) xs = remove_at i xs
splice_one none xs = drop_last xs

module _ {Data : Type 0} where
  -- `sessionsQueue.push(sid)` on a full queue, which the last argument lists: the first id is shifted
  -- out, and its session is deleted.
  unfoldable pub push_full : String → Store Data → List String → Store Data
  unfolding without
  push_full sid store [] = record store { queue = sid ∷ [] }
  push_full sid store (removed ∷ rest) = record {
    sessions = without removed store.sessions;
    queue = rest ++ sid ∷ [];
  }

  unfoldable pub push_sid : ℕ → String → Store Data → Store Data
  unfolding push_full
  push_sid limit sid store =
      if leb limit (length store.queue)
      then push_full sid store store.queue
      else record store { queue = store.queue ++ sid ∷ [] }

  unfoldable pub add_session : ℕ → String → Session Data → Store Data → Store Data
  unfolding push_sid assign lookup
  add_session limit sid session store =
      let store' = if has sid store.sessions then store else push_sid limit sid store in
      record store' { sessions = assign sid session store'.sessions }

  unfoldable pub remove_sid : String → Store Data → Store Data
  unfolding without splice_one index_of lookup
  remove_sid sid store =
      if has sid store.sessions
      then record {
        sessions = without sid store.sessions;
        queue = splice_one (index_of sid store.queue 0) store.queue;
      }
      else store

  unfoldable pub update_last_touch : ℕ → Session Data → Session Data
  update_last_touch now session = record session { last_touch = some now }

  unfoldable pub ensure_max_age : Option ℕ → Session Data → Session Data
  ensure_max_age default_max_age session = elim session.max_age [
    | none ↦ (elim default_max_age [
      | none ↦ session
      | some d ↦ record session { max_age = some d }
    ])
    | some zero ↦ (elim default_max_age [
      | none ↦ session
      | some d ↦ record session { max_age = some d }
    ])
    | some (suc age) ↦ session
  ]

  -- `createSession`, on the session that express-session has made.
  unfoldable pub create_session : Option ℕ → ℕ → Session Data → Session Data
  unfolding update_last_touch ensure_max_age
  create_session default_max_age now session =
      ensure_max_age default_max_age (update_last_touch now session)

  -- The two tests of the timeout cleaner. A comparison with an undefined `lastTouch` is false.
  unfoldable pub is_expired : ℕ → ℕ → Session Data → Bool
  is_expired now dead_age session = elim session.last_touch [
    | none ↦ false
    | some touched ↦ ltb (touched + dead_age) now || (elim session.max_age [
      | none ↦ false
      | some zero ↦ false
      | some (suc age) ↦ ltb (touched + suc age) now
    ])
  ]

  -- One run of the cleaner. It deletes from the map, and leaves the queue alone.
  unfoldable pub sweep : ℕ → ℕ → Assoc (Session Data) → Assoc (Session Data)
  unfolding is_expired
  sweep now dead_age [] = []
  sweep now dead_age ((sid, session) ∷ rest) =
      let others = sweep now dead_age rest in
      if is_expired now dead_age session then others else (sid, session) ∷ others

  unfoldable pub clean : ℕ → ℕ → Store Data → Store Data
  unfolding sweep
  clean now dead_age store = record store { sessions = sweep now dead_age store.sessions }

-- The methods of the interface of express-session.
pub data Method (Data : Type 0) : Type 0 where
  all clear length_of : Method Data
  destroy get : String → Method Data
  set touch : String → Session Data → Method Data

-- What the callback gets, or the call that a worker sends to the master.
pub data Reply (Data : Type 0) : Type 0 where
  done : Reply Data
  sessions : List (Session Data) → Reply Data
  session : Option (Session Data) → Reply Data
  count : ℕ → Reply Data
  forwarded : Method Data → Reply Data

module _ {Data : Type 0} where
  unfoldable pub values : Assoc (Session Data) → List (Session Data)
  values [] = []
  values ((sid, s) ∷ rest) = s ∷ values rest

  unfoldable pub call_local : ℕ → ℕ → Method Data → Store Data → Store Data × Reply Data
  unfolding add_session remove_sid update_last_touch values lookup
  call_local limit now all store = (store, sessions (values store.sessions))
  call_local limit now clear store = (record { sessions = []; queue = [] }, done)
  call_local limit now length_of store = (store, count (length store.sessions))
  call_local limit now (destroy sid) store = (remove_sid sid store, done)
  call_local limit now (get sid) store = (store, session (lookup sid store.sessions))
  call_local limit now (set sid s) store = (add_session limit sid s store, done)
  call_local limit now (touch sid s) store =
      (add_session limit sid (update_last_touch now s) store, done)

  -- A worker of a cluster keeps nothing itself: `isLocalStorage` is false there.
  unfoldable pub call : Bool → ℕ → ℕ → Method Data → Store Data → Store Data × Reply Data
  unfolding call_local
  call is_local limit now method store =
      if is_local then call_local limit now method store else (store, forwarded method)

  abbrev pub empty : Store Data
  empty = record { sessions = []; queue = [] }
