-- ===== src/SessionStore/Tests.antt =====
-- lib/sessionStore.js on small inputs.
use zlux_server_framework.Base.{
  ℕ, ◌≤◌, none, some, List, [], ◌∷◌, ◌≡◌, refl, arith, Distinct, length,
}
use zlux_server_framework.Base.Assoc.{keys, lookup}
use zlux_server_framework.SessionStore.Defs.{
  Session, Store, set, touch, get, session, call_local, empty, clean,
}
use zlux_server_framework.SessionStore.Mirror.{IsMirror, call_local-IsMirror}
use zlux_server_framework.SessionStore.Bounds.{Event, called, cleaned, run, run_bounded}
use zlux_server_framework.SessionStore.Reads.{get-set}

abbrev user : ℕ → Session ℕ
user n = record { max_age = some 10; last_touch = some 0; content = n }

abbrev two : Store ℕ
two = record { sessions = ("a", user 1) ∷ ("b", user 2) ∷ []; queue = "a" ∷ "b" ∷ [] }

two-IsMirror : IsMirror 2 two
unfolding keys
two-IsMirror = record { same = refl; distinct = (refl, (refl, tt)); within = omega arith }

call_local-IsMirror_example : IsMirror 2 (call_local 2 5 (set "c" (user 3)) two).0
call_local-IsMirror_example =
    call_local-IsMirror 2 5 (omega arith) (set "c" (user 3)) two two-IsMirror

abbrev script : List (Event ℕ)
script =
    called 0 (set "a" (user 1))
    ∷ called 1 (set "b" (user 2))
    ∷ cleaned 20
    ∷ called 21 (touch "a" (user 1))
    ∷ called 22 (touch "c" (user 3))
    ∷ []

run_bounded_example :
    (length (run 2 100 script empty).sessions ≤ 2)
    × Distinct (keys (run 2 100 script empty).sessions)
run_bounded_example = run_bounded 2 100 (omega arith) script

-- The cleaner leaves its ids in the queue: with a limit of 2, the session "a", which does not expire,
-- is pushed out when "b" comes back, though "a" is then the only session in the store.
abbrev early : List (Event ℕ)
early =
    called 0 (touch "a" (record { max_age = none; last_touch = none; content = 1 }))
    ∷ called 1 (touch "b" (user 2))
    ∷ cleaned 20
    ∷ called 21 (touch "b" (user 2))
    ∷ []

run-early : keys (run 2 100 early empty).sessions ≡ "b" ∷ []
unfolding call_local clean keys
run-early = refl

get-set_example :
    (call_local 2 9 (get "a") (call_local 2 5 (set "c" (user 3)) two).0).1 ≡ session none
unfolding lookup
get-set_example = get-set 2 5 9 "c" "a" (user 3) two
