-- ===== src/Cluster/Remote.antt =====
-- The calls that a worker makes of the master in lib/clusterManager.js, with their listeners and timers.
use zlux_server_framework.Base.{
  ℕ, ◌+◌, Bool, true, false, Option, none, some, List, [], ◌∷◌, ◌≡◌, arith, ltb, nat_eq, Bool-cases,
  inl, inr, if_ind, if◌then◌else◌,
}

-- How the promise of a call is settled.
pub data Settlement (Result Error : Type 0) : Type 0 where
  resolved : Result → Settlement Result Error
  rejected : Error → Settlement Result Error
  timed_out : Settlement Result Error

-- `pending` lists the message indices whose listener and timer are set, which come and go together.
pub record Calls (Result Error : Type 0) : Type 0 where
  pub message_index : ℕ
  pub pending : List ℕ
  pub settled : List (ℕ × Settlement Result Error)

-- A call, a message of the type `callClusterMethod` with its index, and the end of a timer.
pub data CallEvent (Result Error : Type 0) : Type 0 where
  call_made : CallEvent Result Error
  reply : ℕ → Option Error → Result → CallEvent Result Error
  timer : ℕ → CallEvent Result Error

unfoldable pub is_pending : ℕ → List ℕ → Bool
is_pending i [] = false
is_pending i (j ∷ js) = let rest = is_pending i js in if nat_eq j i then true else rest

-- `removeListener` and `clearTimeout` of one call.
unfoldable pub remove_call : ℕ → List ℕ → List ℕ
remove_call i [] = []
remove_call i (j ∷ js) = let rest = remove_call i js in if nat_eq j i then js else j ∷ rest

module _ {Result Error : Type 0} where
  -- What the listener does with a message: an error rejects, else the result resolves.
  unfoldable pub settlement_of : Option Error → Result → Settlement Result Error
  settlement_of none result = resolved result
  settlement_of (some e) result = rejected e

  -- A message or the end of a timer without a listener or a timer does nothing.
  unfoldable pub settle : ℕ → Settlement Result Error → Calls Result Error → Calls Result Error
  unfolding is_pending remove_call
  settle i how s =
      if is_pending i s.pending
      then record s { pending = remove_call i s.pending; settled = (i, how) ∷ s.settled }
      else s

  unfoldable pub call_step : CallEvent Result Error → Calls Result Error → Calls Result Error
  unfolding settle settlement_of
  call_step call_made s = record s {
    message_index = s.message_index + 1;
    pending = s.message_index ∷ s.pending;
  }
  call_step (reply i error result) s = settle i (settlement_of error result) s
  call_step (timer i) s = settle i timed_out s

  unfoldable pub call_steps :
      List (CallEvent Result Error) → Calls Result Error → Calls Result Error
  unfolding call_step
  call_steps [] s = s
  call_steps (e ∷ events) s = call_steps events (call_step e s)

  abbrev pub no_calls : Calls Result Error
  no_calls = record { message_index = 0; pending = []; settled = [] }

abbrev pub occurrences : ℕ → List ℕ → ℕ
occurrences i [] = 0
occurrences i (j ∷ js) = (if nat_eq j i then 1 else 0) + occurrences i js

abbrev pub settlements : {S : Type 0} → ℕ → List (ℕ × S) → ℕ
settlements i [] = 0
settlements i ((j, how) ∷ rest) = (if nat_eq j i then 1 else 0) + settlements i rest

occurrences-remove_call :
    (i j : ℕ) (js : List ℕ)
    → is_pending i js ≡ true
    → occurrences j js ≡ (if nat_eq i j then 1 else 0) + occurrences j (remove_call i js)
unfolding is_pending remove_call
occurrences-remove_call i j [] h = cc
occurrences-remove_call i j (k ∷ js) h = elim (Bool-cases (nat_eq k i)) [
  | inl here ↦ ground (arith, here)
  | inr there ↦ ground (arith, there, h, occurrences-remove_call i j js (ground (arith, there, h)))
]

module _ {Result Error : Type 0} where
  -- Each index that has been given out is pending or settled, once, and no other index is either.
  abbrev pub OnceEach : Calls Result Error → Type 0
  OnceEach s =
      (i : ℕ)
      → occurrences i s.pending + settlements i s.settled ≡ (if ltb i s.message_index then 1 else 0)

  settle-OnceEach :
      (i : ℕ) (how : Settlement Result Error) (s : Calls Result Error)
      → OnceEach s
      → OnceEach (settle i how s)
  unfolding settle
  settle-OnceEach i how s once =
      if_ind OnceEach (is_pending i s.pending) {y = s}
        (λ there j. omega (arith, once j, occurrences-remove_call i j s.pending there))
        (λ gone. once)

  call_step-OnceEach :
      (e : CallEvent Result Error) (s : Calls Result Error) → OnceEach s → OnceEach (call_step e s)
  unfolding call_step
  call_step-OnceEach call_made s once = λ i. ground (arith, once i)
  call_step-OnceEach (reply i error result) s once =
      settle-OnceEach i (settlement_of error result) s once
  call_step-OnceEach (timer i) s once = settle-OnceEach i timed_out s once

  call_steps-OnceEach :
      (events : List (CallEvent Result Error)) (s : Calls Result Error)
      → OnceEach s
      → OnceEach (call_steps events s)
  unfolding call_steps
  call_steps-OnceEach [] s once = once
  call_steps-OnceEach (e ∷ events) s once =
      call_steps-OnceEach events (call_step e s) (call_step-OnceEach e s once)

  -- However calls, replies and timers follow each other, late and repeated replies included: a message
  -- index that has been given to a call is either pending or settled, and it is settled once; no other
  -- index is either.
  pub call_steps_once :
      (events : List (CallEvent Result Error)) (i : ℕ)
      → occurrences i (call_steps events no_calls).pending
          + settlements i (call_steps events no_calls).settled
        ≡ (if ltb i (call_steps events no_calls).message_index then 1 else 0)
  call_steps_once events = call_steps-OnceEach events no_calls (λ i. ground arith)
