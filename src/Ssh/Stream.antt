-- ===== src/Ssh/Stream.antt =====
-- What one end of a session of plugins/terminal-proxy/lib/ssh.js sends and the loop of
-- `processEncryptedData` at the other end.
use mathlib.Core.List.{append_assoc, append-nil}
use mathlib.Core.Path.{subst}
use zlux_server_framework.Base.{
  ℕ, zero, suc, ◌+◌, ◌≤◌, ◌<◌, Bool, true, false, none, List, [], ◌∷◌, ◌++◌, ◌≡◌, refl, sym, ap,
  ◌∙◌, arith, ltb, length, length-append, All,
}
use zlux_server_framework.Base.Outcome.{Outcome, ok, >>=-eq-ok, ok_or}
use zlux_server_framework.Ssh.Bytes.{Bytes, Fault}
use zlux_server_framework.Ssh.Pdu.{Pdu}
use zlux_server_framework.Ssh.Packet.{Transport, max_packet_size, write_ssh_v2_pdu}
use zlux_server_framework.Ssh.Receive.{all_read, receive, process_encrypted_data, with_fragment}
use zlux_server_framework.Ssh.Receive.Advances.{Advances, read_ssh_v2_pdu_data-Advances}
use zlux_server_framework.Ssh.Send.{write_all}
use zlux_server_framework.Ssh.Encrypted.{read_ssh_v2_pdu_data-encrypted}
use zlux_server_framework.Ssh.Encrypted.Laws.{Keys, InStep}

-- The bytes of the buffers that are sent, one behind the other.
abbrev pub joined : List Bytes → Bytes
joined [] = []
joined (b ∷ bs) = b ++ joined bs

module _ {State : Type 0} (after : State → Pdu → State) where
  -- The state after the handling of messages, one by one.
  abbrev pub handled : State → List Bytes → State
  handled st [] = st
  handled st (payload ∷ payloads) =
      handled (after st (record { payload = payload; offset = 0 })) payloads

module _ {Cipher : Type 0} (update : Cipher → Bytes → Cipher × Bytes) where
  abbrev pub HasRoom : Keys update → Bytes → Type 0
  HasRoom keys payload = length payload + keys.block ≤ max_packet_size

  module _ {State : Type 0} (after : State → Pdu → State) where
    abbrev steady : Transport Cipher → State → Pdu → Outcome Fault (Transport Cipher × State × Bool)
    steady t st pdu = ok (t, after st pdu, true)

    receive-write_all :
        (keys : Keys update) (random : ℕ → Bytes) (s s' t : Transport Cipher) (st : State)
        (payloads sent : List Bytes) (front : Bytes) (fuel : ℕ)
        → InStep keys s t
        → ((n : ℕ) → length (random n) ≡ n)
        → All (HasRoom keys) payloads
        → write_all update random s payloads ≡ ok (s', sent)
        → length (joined sent) < fuel
        → (t' : Transport Cipher) × (receive update steady fuel t st
              (front ++ joined sent)
              (length front)
            ≡ ok (t', handled after st payloads, all_read))
          × InStep keys s' t'
    unfolding receive write_all
    receive-write_all keys random s s' t st payloads sent front zero step sized room e fuelled =
        absurd (omega (arith, fuelled))
    receive-write_all keys random s s' t st [] sent front (suc fuel) step sized room e fuelled =
        let none_sent : [] ≡ sent =
          ap (λ o. (ok_or {A = Transport Cipher × List Bytes} (s, []) o).1) e in
        let same : s ≡ s' = ap (λ o. (ok_or {A = Transport Cipher × List Bytes} (s, []) o).0) e in
        let through : ltb (length front) (length (front ++ joined sent)) ≡ false =
          rw (← none_sent, append-nil front) (ground arith) in
        (t, ended through, subst (λ x. InStep keys x t) same step)
      where
        ended :
            ltb (length front) (length (front ++ joined sent)) ≡ false
            → receive update steady (suc fuel) t st (front ++ joined sent) (length front)
              ≡ ok (t, st, all_read)
        ended through = rw (receive, through) refl
    receive-write_all keys random s s' t st (payload ∷ payloads) sent front (suc fuel) step sized
          room e fuelled =
        let ((s1, bytes), first, rest) = >>=-eq-ok (write_ssh_v2_pdu update random s payload) _ e in
        let ((s2, others), second, last) = >>=-eq-ok (write_all update random s1 payloads) _ rest in
        let sent_is : bytes ∷ others ≡ sent =
          ap (λ o. (ok_or {A = Transport Cipher × List Bytes} (s, []) o).1) last in
        let same : s2 ≡ s' =
          ap (λ o. (ok_or {A = Transport Cipher × List Bytes} (s, []) o).0) last in
        let (t1, read, step1) =
          read_ssh_v2_pdu_data-encrypted update keys random s s1 t payload bytes front
            (joined others) step sized room.0 first in
        let moves : length front < length front + length bytes =
          subst (Advances (length front)) read (
            read_ssh_v2_pdu_data-Advances update t (front ++ (bytes ++ joined others))
              (length front)) in
        let fewer : length (joined others) < fuel = omega (
          arith,
          moves,
          fuelled,
          ap (λ l. length (joined l)) sent_is,
          length-append bytes (joined others),
        ) in
        let (t2, received, step2) =
          receive-write_all keys random s1 s2 t1
            (after st (record { payload = payload; offset = 0 })) payloads others (front ++ bytes)
            fuel step1 sized room.1 second fewer in
        let left : ltb (length front) (length (front ++ (bytes ++ joined others))) ≡ true = ground (
          arith,
          moves,
          length-append front (bytes ++ joined others),
          length-append bytes (joined others),
        ) in
        (
          t2,
          ap (λ l. receive update steady (suc fuel) t st (front ++ joined l) (length front))
                (sym sent_is)
              ∙ rw (receive, left, read)
                  (ap
                      (λ n.
                        receive update steady fuel t1
                          (after st (record { payload = payload; offset = 0 }))
                          (front ++ (bytes ++ joined others)) n)
                      (sym (length-append front bytes))
                    ∙ ap
                        (λ raw.
                          receive update steady fuel t1
                            (after st (record { payload = payload; offset = 0 })) raw
                            (length (front ++ bytes)))
                        (sym (append_assoc front bytes (joined others)))
                    ∙ received),
          subst (λ x. InStep keys x t2) same step2,
        )

    with_fragment-none :
        (t : Transport Cipher) (raw : Bytes)
        → t.incomplete_packet_buffer ≡ none
        → with_fragment t raw ≡ (t, raw)
    unfolding with_fragment
    with_fragment-none t raw nothing = simp (with_fragment, nothing)

    -- All messages that one end sends, encrypted, are handled by the other end, once each and in the order
    -- in which they were sent, and the two ends are in step again: where the ends are in step and no
    -- fragment is kept, each message leaves room for a block, and the handler of messages keeps the session.
    pub process_encrypted_data-write_all :
        (keys : Keys update) (random : ℕ → Bytes) (s s' t : Transport Cipher) (st : State)
        (payloads sent : List Bytes)
        → InStep keys s t
        → t.incomplete_packet_buffer ≡ none
        → ((n : ℕ) → length (random n) ≡ n)
        → All (λ payload. length payload + keys.block ≤ max_packet_size) payloads
        → write_all update random s payloads ≡ ok (s', sent)
        → (t' : Transport Cipher) × (process_encrypted_data update
              (λ t1 st1 pdu. ok (t1, after st1 pdu, true))
              t
              st
              (joined sent)
            ≡ ok (t', handled after st payloads, all_read))
          × InStep keys s' t'
    unfolding process_encrypted_data
    process_encrypted_data-write_all keys random s s' t st payloads sent step nothing sized room e =
        let (t', received, step') =
          receive-write_all keys random s s' t st payloads sent [] (suc (length (joined sent))) step
            sized room e (omega arith) in
        (t', rw (with_fragment-none t (joined sent) nothing) received, step')
