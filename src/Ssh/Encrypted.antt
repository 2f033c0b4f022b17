-- ===== src/Ssh/Encrypted.antt =====
-- An encrypted packet that plugins/terminal-proxy/lib/ssh.js has written is read back by a reader that is
-- in step with the writer.
pub mod Blocks
pub mod Laws
pub mod Received
use mathlib.Core.List.{append_assoc, append-nil}
use mathlib.Core.Path.{subst}
use Prim.Native.Nat.{◌%◌, ◌/◌}
use zlux_server_framework.Base.{
  ℕ, zero, suc, ◌+◌, ◌-◌, ◌≤◌, ◌<◌, Bool, true, false, Option, none, some, List, [], ◌∷◌, ◌++◌, ◌≡◌,
  refl, sym, ap, ◌∙◌, arith, inl, inr, ltb, length, length-append, Bool-cases, if_ind,
  if◌then◌else◌,
}
use zlux_server_framework.Base.Outcome.{Outcome, ok, raised, ◌>>=◌, >>=-eq-ok, ok_or}
use zlux_server_framework.Base.Text.{same_text}
use zlux_server_framework.Ssh.Bytes.{
  Bytes, Fault, drop_bytes, alloc_copy, write_int32_be, read_uint32_be, drop_bytes-append,
  drop_bytes_twice, alloc_copy-append, read_uint32_be-write_int32_be,
}
use zlux_server_framework.Ssh.Pdu.{Pdu, first_byte}
use zlux_server_framework.Ssh.Packet.{
  max_packet_size, Direction, Transport, next_seqno, padding_modulus, padding_length, packet_bytes,
  write_ssh_v2_pdu, encrypted, mac_of, first_bytes, uint32_bytes,
}
use zlux_server_framework.Ssh.Unpack.{
  ReadResult, packet, ended, go_on, slice, with_cipher, first_block, other_blocks, read_byte_at,
  decrypt, check_mac, take_packet, read_ssh_v2_pdu_data,
}
use zlux_server_framework.Ssh.Slices.{
  first_bytes_within, drop_bytes_within, first_bytes-drop_bytes, length-first_bytes,
  length-drop_bytes, same_text-same, first_bytes-append, read_uint32_be_within,
  drop_bytes-append_two, drop_bytes-alloc_copy,
}
use zlux_server_framework.Ssh.Padding.{padding_length-FillsBlocks}
use zlux_server_framework.Ssh.Parts.{
  Parts, packet_bytes-Parts, length-Parts, read_uint32_be-Parts, counted, take_packet-Parts,
  Written, write_ssh_v2_pdu-Written,
}
use zlux_server_framework.Ssh.Encrypted.Blocks.{Cut, packet_bytes-Cut}
use zlux_server_framework.Ssh.Encrypted.Laws.{Keys, InStep, mac_of-InStep, length-mac_of}
use zlux_server_framework.Ssh.Encrypted.Received.{Came, read_ssh_v2_pdu_data-Came}

module _ {Cipher : Type 0} (update : Cipher → Bytes → Cipher × Bytes) where
  Cut-Came :
      (keys : Keys update) (random : ℕ → Bytes) (s t : Transport Cipher) (payload bytes : Bytes)
      (step : InStep keys s t)
      → length payload + keys.block ≤ max_packet_size
      → Cut random keys.block payload bytes
      → (k : Came update random t payload (mac_of s.writing bytes)) × ((update step.enciphers
            bytes).1
          ≡ k.out1 ++ k.out2)
        × (length k.p1 + length k.p2 ≡ length (k.out1 ++ k.out2))
        × keys.Pair (update step.enciphers bytes).0 k.c2
  Cut-Came keys random s t payload bytes step small cut =
      let c = step.enciphers in
      let d = step.deciphers in
      let c1 = (update c cut.p1).0 in
      let out1 = (update c cut.p1).1 in
      let out2 = (update c1 cut.p2).1 in
      let back1 = keys.undone c d cut.p1 cut.whole1 step.pair in
      let d1 = (update d out1).0 in
      let back2 = keys.undone c1 d1 cut.p2 cut.whole2 back1.1 in
      let l1 = keys.same_length c cut.p1 cut.whole1 in
      let l2 = keys.same_length c1 cut.p2 cut.whole2 in
      let two : update c bytes ≡ ((update c1 cut.p2).0, out1 ++ out2) =
        ap (update c) (sym cut.both) ∙ keys.in_two c cut.p1 cut.p2 cut.whole1 cut.whole2 in
      let fills = padding_length-FillsBlocks keys.block (length payload) in
      let modulus : padding_modulus keys.block ≡ keys.block =
        unfold padding_modulus in ground (arith, keys.least) in
      (
        record {
          block = keys.block;
          c = d;
          c1 = d1;
          c2 = (update d1 out2).0;
          out1 = out1;
          out2 = out2;
          p1 = cut.p1;
          p2 = cut.p2;
          parts = cut.parts;
          up1 = ap (λ b. (d1, b)) back1.0;
          up2 = ap (λ b. ((update d1 out2).0, b)) back2.0;
          whole1 = l1;
          whole2 = l2;
          four = omega (arith, cut.first_is, keys.least);
          first_is = step.to_block ∙ sym cut.first_is;
          size = cut.long;
          mac = keys.mac;
          small = omega (arith, cut.long, small, fills.most, modulus, keys.least);
          deciphers = step.to_cipher;
          macs = step.to_mac;
          fresh = step.fresh;
          tag_is = ap (mac_of t.reading) cut.both ∙ sym (mac_of-InStep keys s t bytes step);
          tag_length = length-mac_of keys s t bytes step ∙ sym step.to_mac_length;
          some_tag = omega (arith, length-mac_of keys s t bytes step, keys.some_mac);
        },
        ap (λ u. u.1) two,
        omega (arith, length-append out1 out2, l1, l2),
        rw two back2.1,
      )

  encrypted-some :
      (x : Option Cipher) (c : Cipher) (bs : Bytes)
      → x ≡ some c
      → encrypted update x bs ≡ (some (update c bs).0, (update c bs).1)
  unfolding encrypted
  encrypted-some x c bs e = rw e refl

  -- An encrypted packet that was written by an end in step with the reader is read from the place where
  -- it stands, whatever surrounds it: the result has its payload, the position behind its MAC and a right
  -- MAC, and the two are in step again. The payload leaves room for a block.
  pub read_ssh_v2_pdu_data-encrypted :
      (keys : Keys update) (random : ℕ → Bytes) (s s' t : Transport Cipher)
      (payload bytes front more : Bytes)
      → InStep keys s t
      → ((n : ℕ) → length (random n) ≡ n)
      → length payload + keys.block ≤ max_packet_size
      → write_ssh_v2_pdu update random s payload ≡ ok (s', bytes)
      → (t' : Transport Cipher) × (read_ssh_v2_pdu_data update t
            (front ++ (bytes ++ more))
            (length front)
          ≡ ok (
            t',
            packet (length front + length bytes) (record { payload = payload; offset = 0 }) true,
          ))
        × InStep keys s' t'
  read_ssh_v2_pdu_data-encrypted keys random s s' t payload bytes front more step sized small e =
      let w = write_ssh_v2_pdu-Written update random s s' payload bytes e in
      let made : packet_bytes random keys.block payload ≡ ok w.packet_is =
        ap (λ b. packet_bytes random b payload) (sym step.from_block) ∙ w.made in
      let cut = packet_bytes-Cut random keys.block payload w.packet_is sized keys.least made in
      let (came, out_is, lengths, pair) =
        Cut-Came keys random s t payload w.packet_is step small cut in
      let tag = mac_of s.writing w.packet_is in
      let enc_is = encrypted-some s.writing.cipher step.enciphers w.packet_is step.from_cipher in
      let bytes_is : bytes ≡ came.out1 ++ (came.out2 ++ tag) =
        sym w.sent
        ∙ ap (λ o. o.1 ++ tag) enc_is
        ∙ ap (λ o. o ++ tag) out_is
        ∙ append_assoc came.out1 came.out2 tag in
      let raw_is : front ++ (bytes ++ more) ≡ front ++ (came.out1 ++ (came.out2 ++ (tag ++ more))) =
        ap (λ b. front ++ (b ++ more)) bytes_is
        ∙ ap (λ b. front ++ b) (append_assoc came.out1 (came.out2 ++ tag) more)
        ∙ ap (λ b. front ++ (came.out1 ++ b)) (append_assoc came.out2 tag more) in
      let behind : length front + (length came.p1 + length came.p2) + length tag
          ≡ length front + length bytes =
        omega (
          arith,
          ap length bytes_is,
          length-append came.out1 (came.out2 ++ tag),
          length-append came.out2 tag,
          length-append came.out1 came.out2,
          lengths,
        ) in
      (
        counted (with_cipher update came.c2 t),
        ap (λ r. read_ssh_v2_pdu_data update t r (length front)) raw_is
            ∙ read_ssh_v2_pdu_data-Came update random t payload tag front more came
            ∙ ap
                (λ b. ok (
                  counted (with_cipher update came.c2 t),
                  packet b (record { payload = payload; offset = 0 }) true,
                ))
                behind,
        subst (λ x. InStep keys x (counted (with_cipher update came.c2 t))) w.after
            (record {
              enciphers = (update step.enciphers w.packet_is).0;
              deciphers = came.c2;
              from_cipher = ap (λ o. o.0) enc_is;
              to_cipher = refl;
              pair = pair;
              from_mac = step.from_mac;
              to_mac = step.to_mac;
              from_block = step.from_block;
              to_block = step.to_block;
              from_mac_length = step.from_mac_length;
              to_mac_length = step.to_mac_length;
              messages = ap next_seqno step.messages;
              fresh = step.fresh;
            }),
      )
