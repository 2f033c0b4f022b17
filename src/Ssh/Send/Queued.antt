-- ===== src/Ssh/Send/Queued.antt =====
-- Messages that plugins/terminal-proxy/lib/ssh.js queues during a key exchange.
use mathlib.Core.List.{append_assoc, append-nil}
use zlux_server_framework.Base.{
  ℕ, true, false, none, some, List, [], ◌∷◌, ◌++◌, ◌≡◌, sym, ap, ◌∙◌, inl, inr, Bool-cases,
  Option-cases,
}
use zlux_server_framework.Base.Outcome.{Outcome, ok, raised, out_of_fuel, >>=-eq-ok, ok_or}
use zlux_server_framework.Ssh.Bytes.{Bytes, Fault}
use zlux_server_framework.Ssh.Fields.{generate_ssh_v2_pdu_bytes}
use zlux_server_framework.Ssh.Packet.{Transport, write_ssh_v2_pdu}
use zlux_server_framework.Ssh.Send.{
  Session, request_fields, write_all, send_pdu, send_ssh_data, finish_key_exchange, Event, request,
  exchange_starts, new_keys, channels_change, happens,
}

module _ {Cipher : Type 0} (update : Cipher → Bytes → Cipher × Bytes) (random : ℕ → Bytes) where
  write_all-append :
      (t : Transport Cipher) (ps : List Bytes) (p : Bytes) (q : Transport Cipher × List Bytes)
      (w : Transport Cipher × Bytes)
      → write_all update random t ps ≡ ok q
      → write_ssh_v2_pdu update random q.0 p ≡ ok w
      → write_all update random t (ps ++ p ∷ []) ≡ ok (w.0, q.1 ++ w.1 ∷ [])
  unfolding write_all
  write_all-append t [] p q w e1 e2 =
      let same : (t, []) ≡ q = ap (ok_or {A = Transport Cipher × List Bytes} (t, [])) e1 in
      let next : write_ssh_v2_pdu update random t p ≡ ok w =
        ap (λ x. write_ssh_v2_pdu update random x p) (ap (λ x. x.0) same) ∙ e2 in
      rw next (ap (λ l. ok (w.0, l ++ w.1 ∷ [])) (ap (λ x. x.1) same))
  write_all-append t (b ∷ ps) p q w e1 e2 =
      let (r1, first, rest) = >>=-eq-ok (write_ssh_v2_pdu update random t b) _ e1 in
      let (r2, others, last) = >>=-eq-ok (write_all update random r1.0 ps) _ rest in
      let same : (r2.0, r1.1 ∷ r2.1) ≡ q =
        ap (ok_or {A = Transport Cipher × List Bytes} (t, [])) last in
      let next : write_ssh_v2_pdu update random r2.0 p ≡ ok w =
        ap (λ x. write_ssh_v2_pdu update random x p) (ap (λ x. x.0) same) ∙ e2 in
      let more = write_all-append r1.0 ps p r2 w others next in
      rw (first, more) (ap (λ l. ok (w.0, l ++ w.1 ∷ [])) (ap (λ x. x.1) same))

  abbrev result :
      Session Cipher → Outcome Fault (Session Cipher × List Bytes) → Session Cipher × List Bytes
  result s = ok_or (s, [])

  ok_both :
      {t t' : Transport Cipher} {a b : List Bytes}
      → t ≡ t'
      → a ≡ b
      → ◌≡◌ {A = Outcome Fault (Transport Cipher × List Bytes)} (ok (t, a)) (ok (t', b))
  ok_both e f = cc

  -- What is sent and queued has been queued or asked for, in this order.
  pub record Sent (queue : List Bytes) (s' : Session Cipher) (from : Transport Cipher)
      (asked sent : List Bytes) : Type 0 where
    pub written : List Bytes
    pub writes : write_all update random from written ≡ ok (s'.transport, sent)
    pub kept : written ++ s'.rekey_queue ≡ queue ++ asked

  send_pdu-Sent :
      (s s' : Session Cipher) (pdu : Bytes) (sent : List Bytes)
      → send_pdu update random s pdu ≡ ok (s', sent)
      → Sent s.rekey_queue s' s.transport (pdu ∷ []) sent
  unfolding send_pdu write_all
  send_pdu-Sent s s' pdu sent e = elim (Bool-cases s.is_key_exchanging) [
    | inl exchanging ↦
        (let got = ap (result s) (rw exchanging at e) in
          record {
            written = [];
            writes = ok_both (ap (λ r. r.0.transport) got) (ap (λ r. r.1) got);
            kept = sym (ap (λ r. r.0.rekey_queue) got);
          })
    | inr free ↦
        (let (q, flushed, rest) =
            >>=-eq-ok (write_all update random s.transport s.rekey_queue) _ (rw free at e) in
          let (w, wrote, last) = >>=-eq-ok (write_ssh_v2_pdu update random q.0 pdu) _ rest in
          let got = ap (result s) last in
          record {
            written = s.rekey_queue ++ pdu ∷ [];
            writes =
                write_all-append s.transport s.rekey_queue pdu q w flushed wrote
                ∙ ok_both (ap (λ r. r.0.transport) got) (ap (λ r. r.1) got);
            kept =
                ap (λ l. (s.rekey_queue ++ pdu ∷ []) ++ l) (sym (ap (λ r. r.0.rekey_queue) got))
                ∙ append-nil _;
          })
  ]

  nothing-Sent :
      (s s' : Session Cipher) (sent : List Bytes)
      → ◌≡◌ {A = Outcome Fault (Session Cipher × List Bytes)} (ok (s, [])) (ok (s', sent))
      → Sent s.rekey_queue s' s.transport [] sent
  unfolding write_all
  nothing-Sent s s' sent e =
      let got = ap (result s) e in
      record {
        written = [];
        writes = ok_both (ap (λ r. r.0.transport) got) (ap (λ r. r.1) got);
        kept = sym (ap (λ r. r.0.rekey_queue) got) ∙ sym (append-nil s.rekey_queue);
      }

  finish_key_exchange-Sent :
      (s s' : Session Cipher) (sent : List Bytes)
      → finish_key_exchange update random s ≡ ok (s', sent)
      → Sent s.rekey_queue s' s.transport [] sent
  unfolding finish_key_exchange write_all
  finish_key_exchange-Sent s s' sent e = elim (Bool-cases s.is_key_exchanging) [
    | inl exchanging ↦
        (let (q, flushed, rest) =
            >>=-eq-ok (write_all update random s.transport s.rekey_queue) _ (rw exchanging at e) in
          let got = ap (result s) rest in
          record {
            written = s.rekey_queue;
            writes = flushed ∙ ok_both (ap (λ r. r.0.transport) got) (ap (λ r. r.1) got);
            kept = ap (λ l. s.rekey_queue ++ l) (sym (ap (λ r. r.0.rekey_queue) got));
          })
    | inr free ↦ nothing-Sent (record s { is_key_exchanging = false }) s' sent (rw free at e)
  ]

  -- The message that a client asks for, where there is one.
  abbrev pub asked_by : Session Cipher → Event Cipher → List Bytes
  asked_by s (request r) = elim (request_fields s r) [
    | none ↦ []
    | some fields ↦ elim (generate_ssh_v2_pdu_bytes fields) [
      | ok pdu ↦ pdu ∷ []
      | raised e ↦ []
      | out_of_fuel ↦ []
    ]
  ]
  asked_by s _ = []

  -- The transport that an event writes with.
  abbrev pub transport_for : Session Cipher → Event Cipher → Transport Cipher
  transport_for s (new_keys t) = t
  transport_for s _ = s.transport

  happens-Sent :
      (s s' : Session Cipher) (event : Event Cipher) (sent : List Bytes)
      → happens update random s event ≡ ok (s', sent)
      → Sent s.rekey_queue s' (transport_for s event) (asked_by s event) sent
  unfolding happens send_ssh_data write_all
  happens-Sent s s' (request r) sent e = elim (Option-cases (request_fields s r)) [
    | inl nothing ↦
        rw (asked_by, nothing) (nothing-Sent s s' sent (rw (nothing, happens, send_ssh_data) at e))
    | inr (fields, some_fields) ↦
        (let (pdu, generated, rest) =
            >>=-eq-ok (generate_ssh_v2_pdu_bytes fields) _
              (rw (some_fields, happens, send_ssh_data) at e) in
          rw (asked_by, some_fields, generated) (send_pdu-Sent s s' pdu sent rest))
  ]
  happens-Sent s s' exchange_starts sent e =
      nothing-Sent (record s { is_key_exchanging = true }) s' sent e
  happens-Sent s s' (new_keys t) sent e =
      finish_key_exchange-Sent (record s { transport = t }) s' sent e
  happens-Sent s s' (channels_change primary numbers) sent e =
      nothing-Sent (record s { primary_shell_channel = primary; server_channel_number = numbers })
        s' sent e

  -- A run: what the clients ask for, and for each event the transport that it writes with and what is sent.
  pub data Run
      : Session Cipher
        → List Bytes
        → List (Transport Cipher × List Bytes)
        → Session Cipher
        → Type 0 where
    done : (s : Session Cipher) → Run s [] [] s
    next :
        (s s1 s' : Session Cipher) (event : Event Cipher) (sent asked : List Bytes)
        (batches : List (Transport Cipher × List Bytes))
        → happens update random s event ≡ ok (s1, sent)
        → Run s1 asked batches s'
        → Run s (asked_by s event ++ asked) ((transport_for s event, sent) ∷ batches) s'

  abbrev pub all_of : List (List Bytes) → List Bytes
  all_of [] = []
  all_of (messages ∷ others) = messages ++ all_of others

  -- Each batch is what the writing of its messages comes to.
  abbrev pub AreWritten : List (List Bytes) → List (Transport Cipher × List Bytes) → Type 0
  AreWritten [] [] = Unit
  AreWritten (messages ∷ others) ((from, sent) ∷ batches) =
      ((t : Transport Cipher) × (write_all update random from messages ≡ ok (t, sent)))
      × AreWritten others batches
  AreWritten _ _ = ⊥

  -- Whatever key exchanges come in between, each message that a client asks for is sent once or still in
  -- the queue at the end, in the order in which they were asked for, behind what was in the queue before.
  pub happens_in_order :
      (s s' : Session Cipher) (asked : List Bytes) (batches : List (Transport Cipher × List Bytes))
      → Run s asked batches s'
      → (written : List (List Bytes)) × AreWritten written batches
        × (all_of written ++ s'.rekey_queue ≡ s.rekey_queue ++ asked)
  happens_in_order _ _ _ _ (Run.done s) = ([], tt, sym (append-nil s.rekey_queue))
  happens_in_order _ _ _ _ (Run.next s s1 s' event sent later rest e run) =
      let one = happens-Sent s s1 event sent e in
      let (written, are, kept) = happens_in_order s1 s' later rest run in
      (
        one.written ∷ written,
        ((s1.transport, one.writes), are),
        append_assoc one.written (all_of written) s'.rekey_queue
            ∙ ap (λ l. one.written ++ l) kept
            ∙ sym (append_assoc one.written s1.rekey_queue later)
            ∙ ap (λ l. l ++ later) one.kept
            ∙ append_assoc s.rekey_queue (asked_by s event) later,
      )
