-- ===== src/Ssh/Plain.antt =====
-- A packet that plugins/terminal-proxy/lib/ssh.js has written before the key exchange is read back.
use mathlib.Core.List.{append-nil}
use zlux_server_framework.Base.{
  ℕ, ◌+◌, ◌≤◌, true, Option, none, ◌++◌, ◌≡◌, refl, sym, ap, ◌∙◌, arith, length, length-append,
}
use zlux_server_framework.Base.Outcome.{ok}
use zlux_server_framework.Ssh.Bytes.{Bytes, drop_bytes-append}
use zlux_server_framework.Ssh.Packet.{
  Direction, Transport, padding_length, write_ssh_v2_pdu, encrypted, mac_of,
}
use zlux_server_framework.Ssh.Unpack.{packet, go_on, decrypt, check_mac, read_ssh_v2_pdu_data}
use zlux_server_framework.Ssh.Parts.{
  packet_bytes-Parts, length-Parts, counted, take_packet-Parts, write_ssh_v2_pdu-Written,
}

module _ {Cipher : Type 0} (update : Cipher → Bytes → Cipher × Bytes) where
  sent_plain :
      (side : Direction Cipher) (bytes : Bytes)
      → side.cipher ≡ none
      → side.mac ≡ none
      → (encrypted update side.cipher bytes).1 ++ mac_of side bytes ≡ bytes
  unfolding encrypted mac_of
  sent_plain side bytes c m = rw (c, m) (append-nil bytes)

  decrypt-none :
      (t : Transport Cipher) (raw : Bytes) (position : ℕ)
      → t.reading.cipher ≡ none
      → decrypt update t raw position ≡ ok (t, go_on raw none)
  unfolding decrypt
  decrypt-none t raw position c = rw c refl

  check_mac-none :
      (t : Transport Cipher) (raw : Bytes) (position : ℕ) (computed : Option Bytes)
      → t.reading.mac ≡ none
      → check_mac update t raw position computed ≡ ok (position, true)
  unfolding check_mac
  check_mac-none t raw position computed m = rw m refl

  -- Without a cipher and a MAC on either side, a packet that was written is read from the place where
  -- it stands in the data, whatever surrounds it: the result has its payload and the position behind
  -- it, and the reader has counted it.
  pub read_ssh_v2_pdu_data-write_ssh_v2_pdu :
      (random : ℕ → Bytes) (s s' t : Transport Cipher) (payload bytes front more : Bytes)
      → ((n : ℕ) → length (random n) ≡ n)
      → s.writing.cipher ≡ none
      → s.writing.mac ≡ none
      → t.reading.cipher ≡ none
      → t.reading.mac ≡ none
      → write_ssh_v2_pdu update random s payload ≡ ok (s', bytes)
      → read_ssh_v2_pdu_data update t (front ++ (bytes ++ more)) (length front)
        ≡ ok (
          counted t,
          packet (length front + length bytes) (record { payload = payload; offset = 0 }) true,
        )
  unfolding read_ssh_v2_pdu_data
  read_ssh_v2_pdu_data-write_ssh_v2_pdu random s s' t payload bytes front more sized sc sm tc tm e =
      let w = write_ssh_v2_pdu-Written update random s s' payload bytes e in
      let same : w.packet_is ≡ bytes = sym (sent_plain s.writing w.packet_is sc sm) ∙ w.sent in
      let parts =
        packet_bytes-Parts random s.writing.block_length payload bytes (w.made ∙ ap ok same) in
      let padding = padding_length s.writing.block_length (length payload) in
      let long = length-Parts random s.writing.block_length payload bytes sized parts in
      let room : length payload + padding + 1 ≤ length (front ++ (bytes ++ more)) =
        omega (arith, length-append front (bytes ++ more), length-append bytes more, long) in
      let read =
        take_packet-Parts update t random s.writing.block_length payload bytes
          (front ++ (bytes ++ more)) (front ++ (bytes ++ more)) more none (length front) parts
          (drop_bytes-append front (bytes ++ more)) room in
      let behind : length front + 4 + 1 + (length payload + padding) ≡ length front + length bytes =
        omega (arith, long) in
      rw (decrypt-none t (front ++ (bytes ++ more)) (length front) tc)
        (read ∙ rw (check_mac-none (counted t) (front ++ (bytes ++ more)) _ none tm, behind) refl)
