-- ===== src/Ssh/Receive/Ending.antt =====
-- The loop of `processEncryptedData` of plugins/terminal-proxy/lib/ssh.js ends.
use zlux_server_framework.Base.{
  ℕ, zero, suc, ◌+◌, ◌≤◌, Bool, true, false, arith, inl, inr, ltb, length, Bool-cases,
}
use zlux_server_framework.Base.Outcome.{Outcome, ok, raised, out_of_fuel, ◌>>=◌, Ends, Ends-bind}
use zlux_server_framework.Ssh.Bytes.{Bytes, Fault}
use zlux_server_framework.Ssh.Pdu.{Pdu}
use zlux_server_framework.Ssh.Packet.{Transport}
use zlux_server_framework.Ssh.Unpack.{ReadResult, refused, fragment, packet, read_ssh_v2_pdu_data}
use zlux_server_framework.Ssh.Receive.{Stop, receive, process_encrypted_data, with_fragment}
use zlux_server_framework.Ssh.Receive.Advances.{Advances, read_ssh_v2_pdu_data-Advances}

module _ {Cipher State : Type 0} (update : Cipher → Bytes → Cipher × Bytes)
    (handle : Transport Cipher
      → State
      → Pdu
      → Outcome Fault (Transport Cipher × State × Bool)) where
  receive-Ends :
      (fuel : ℕ) (t : Transport Cipher) (st : State) (raw : Bytes) (position : ℕ)
      → ((t : Transport Cipher) (st : State) (pdu : Pdu) → Ends (handle t st pdu))
      → 1 ≤ fuel
      → length raw + 1 ≤ fuel + position
      → Ends (receive update handle fuel t st raw position)
  unfolding receive
  receive-Ends zero t st raw position handled some_fuel enough = absurd (omega (arith, some_fuel))
  receive-Ends (suc fuel) t st raw position handled some_fuel enough =
      elim (Bool-cases (ltb position (length raw))) [
        | inr done ↦ rw (receive, done) tt
        | inl left ↦
            rw (receive, left)
              (onward (λ t' st' behind. receive-Ends fuel t' st' raw behind handled)
                (read_ssh_v2_pdu_data update t raw position)
                (read_ssh_v2_pdu_data-Advances update t raw position)
                (ground (arith, left, enough)))
      ]
    where
      more :
          (r : Transport Cipher × State × Bool) (behind : ℕ)
          → ((t' : Transport Cipher) (st' : State)
              → Ends (receive update handle fuel t' st' raw behind))
          → Ends (elim r.2 as (λ _. Outcome Fault (Transport Cipher × State × Stop)) [
            | false ↦ ok (r.0, r.1, Stop.handler_failed)
            | true ↦ receive update handle fuel r.0 r.1 raw behind
          ])
      more (t'', st'', false) behind next = tt
      more (t'', st'', true) behind next = next t'' st''

      onward :
          ((t' : Transport Cipher) (st' : State) (behind : ℕ)
            → 1 ≤ fuel
            → length raw + 1 ≤ fuel + behind
            → Ends (receive update handle fuel t' st' raw behind))
          → (m : Outcome Fault (Transport Cipher × ReadResult)) → Advances position m
          → 1 ≤ fuel
          → Ends (
              m >>= λ r. elim r.1 as (λ _. Outcome Fault (Transport Cipher × State × Stop)) [
                | refused ↦ ok (r.0, st, Stop.parsing_failed)
                | fragment ↦ ok (r.0, st, Stop.waits)
                | packet behind pdu mac_ok ↦ handle r.0 st pdu >>= λ h.
                    elim h.2 as (λ _. Outcome Fault (Transport Cipher × State × Stop)) [
                      | false ↦ ok (h.0, h.1, Stop.handler_failed)
                      | true ↦ receive update handle fuel h.0 h.1 raw behind
                    ]
              ])
      onward next (ok (t', refused)) h f = tt
      onward next (ok (t', fragment)) h f = tt
      onward next (ok (t', packet behind pdu mac_ok)) h f =
          Ends-bind (handle t' st pdu) _ (handled t' st pdu)
            (λ r _. more r behind (λ t'' st''. next t'' st'' behind f (omega (arith, enough, h))))
      onward next (raised e) h f = tt
      onward next out_of_fuel h f = h

  -- Where the handlers return or throw, so does the processing of the data, whatever has come in: each
  -- packet that is read moves the position on.
  pub process_encrypted_data-Ends :
      (t : Transport Cipher) (st : State) (raw : Bytes)
      → ((t : Transport Cipher) (st : State) (pdu : Pdu) → Ends (handle t st pdu))
      → Ends (process_encrypted_data update handle t st raw)
  unfolding process_encrypted_data
  process_encrypted_data-Ends t st raw handled =
      receive-Ends (suc (length (with_fragment t raw).1)) (with_fragment t raw).0 st
        (with_fragment t raw).1 0 handled (omega arith) (omega arith)
