-- ===== src/Ssh/Parts.antt =====
-- The parts of a packet of plugins/terminal-proxy/lib/ssh.js, where they are found again.
use mathlib.Core.List.{append_assoc}
use zlux_server_framework.Base.{
  ℕ, ◌+◌, ◌-◌, ◌≤◌, false, Option, [], ◌∷◌, ◌++◌, ◌≡◌, refl, sym, ap, ◌∙◌, arith, inl, inr, ltb,
  length, length-append, Bool-cases,
}
use zlux_server_framework.Base.Outcome.{ok, raised, ◌>>=◌, >>=-eq-ok, ok_or}
use zlux_server_framework.Ssh.Bytes.{
  Bytes, Fault, drop_bytes, alloc_copy, write_int32_be, read_uint32_be, drop_bytes-append,
  drop_bytes_twice, alloc_copy-append, read_uint32_be-write_int32_be,
}
use zlux_server_framework.Ssh.Packet.{
  Transport, next_seqno, padding_length, packet_bytes, write_ssh_v2_pdu, encrypted, mac_of,
}
use zlux_server_framework.Ssh.Unpack.{packet, read_byte_at, check_mac, take_packet}

-- A packet in its parts: the length, the padding's length, the payload and the padding.
pub record Parts (random : ℕ → Bytes) (block : ℕ) (payload bytes : Bytes) : Type 0 where
  pub size : Bytes
  pub written :
      write_int32_be (length payload + padding_length block (length payload) + 1) ≡ ok size
  pub same :
      bytes
      ≡ size
        ++ (padding_length block (length payload)
            ∷ (payload ++ random (padding_length block (length payload))))

pub packet_bytes-Parts :
    (random : ℕ → Bytes) (block : ℕ) (payload bytes : Bytes)
    → packet_bytes random block payload ≡ ok bytes
    → Parts random block payload bytes
unfolding packet_bytes
packet_bytes-Parts random block payload bytes e =
    let padding = padding_length block (length payload) in
    let (size, written, rest) = >>=-eq-ok (write_int32_be (length payload + padding + 1)) _ e in
    record {
      size = size;
      written = written;
      same = elim (Bool-cases (ltb 255 padding)) [
        | inl big ↦ absurd (never (rw big at rest))
        | inr fits ↦ sym (ap (ok_or []) (rw fits at rest))
      ];
    }
  where
    never : {A : Type 0} {a : A} {f : Fault} → raised f ≡ ok a → ⊥
    never h = cc

after_size : (size rest : Bytes) → length size ≡ 4 → drop_bytes 4 (size ++ rest) ≡ rest
after_size size rest four =
    ap (λ k. drop_bytes k (size ++ rest)) (sym four) ∙ drop_bytes-append size rest

-- The bytes of a packet, with what follows it.
followed :
    (padding : ℕ) (size payload filler more : Bytes)
    → (size ++ (padding ∷ (payload ++ filler))) ++ more
      ≡ size ++ (padding ∷ (payload ++ (filler ++ more)))
followed padding size payload filler more =
    append_assoc size (padding ∷ (payload ++ filler)) more
    ∙ ap (λ l. size ++ (padding ∷ l)) (append_assoc payload filler more)

one_less : (b : ℕ) (l : Bytes) → drop_bytes 1 (b ∷ l) ≡ l
unfolding drop_bytes
one_less b l = refl

-- What stands at a place in a buffer that holds a packet.
record Places (padding n position : ℕ) (payload plain : Bytes) : Type 0 where
  size_at : read_uint32_be (drop_bytes position plain) ≡ ok n
  padding_at : read_byte_at (position + 4) plain ≡ ok padding
  payload_at : alloc_copy (length payload) (drop_bytes (position + 4 + 1) plain) ≡ payload

Parts-Places :
    (random : ℕ → Bytes) (block position : ℕ) (payload bytes plain more : Bytes)
    → Parts random block payload bytes
    → drop_bytes position plain ≡ bytes ++ more
    → Places
        (padding_length block (length payload))
        (length payload + padding_length block (length payload) + 1)
        position
        payload
        plain
unfolding read_byte_at
Parts-Places random block position payload bytes plain more parts here =
    let padding = padding_length block (length payload) in
    let filler = random padding in
    let whole : drop_bytes position plain
        ≡ parts.size ++ (padding ∷ (payload ++ (filler ++ more))) =
      here ∙ ap (λ l. l ++ more) parts.same ∙ followed padding parts.size payload filler more in
    let read =
      read_uint32_be-write_int32_be _ parts.size (padding ∷ (payload ++ (filler ++ more)))
        parts.written in
    let tail : drop_bytes (position + 4) plain ≡ padding ∷ (payload ++ (filler ++ more)) =
      drop_bytes_twice position 4 plain
      ∙ ap (drop_bytes 4) whole
      ∙ after_size parts.size _ read.1 in
    let tail' : drop_bytes (position + 4 + 1) plain ≡ payload ++ (filler ++ more) =
      drop_bytes_twice (position + 4) 1 plain ∙ ap (drop_bytes 1) tail ∙ one_less padding _ in
    record {
      size_at = ap read_uint32_be whole ∙ read.0;
      padding_at = rw (read_byte_at, tail) refl;
      payload_at = ap (alloc_copy (length payload)) tail' ∙ alloc_copy-append payload _;
    }

-- The length of a packet.
pub length-Parts :
    (random : ℕ → Bytes) (block : ℕ) (payload bytes : Bytes)
    → ((n : ℕ) → length (random n) ≡ n)
    → Parts random block payload bytes
    → length bytes ≡ length payload + padding_length block (length payload) + 5
length-Parts random block payload bytes sized parts =
    let padding = padding_length block (length payload) in
    let four = (read_uint32_be-write_int32_be _ parts.size [] parts.written).1 in
    ap length parts.same
    ∙ omega (
      arith,
      length-append parts.size (padding ∷ (payload ++ random padding)),
      length-append payload (random padding),
      sized padding,
      four,
    )

-- The first four bytes of a packet are its length.
pub read_uint32_be-Parts :
    (random : ℕ → Bytes) (block : ℕ) (payload bytes : Bytes)
    → Parts random block payload bytes
    → read_uint32_be bytes ≡ ok (length payload + padding_length block (length payload) + 1)
read_uint32_be-Parts random block payload bytes parts =
    ap read_uint32_be parts.same ∙ (read_uint32_be-write_int32_be _ parts.size _ parts.written).0

abbrev pub counted : {Cipher : Type 0} → Transport Cipher → Transport Cipher
counted t = record t { reading = record t.reading { messages = next_seqno t.reading.messages } }

module _ {Cipher : Type 0} (update : Cipher → Bytes → Cipher × Bytes) where
  -- What `take_packet` does with a packet that stands in the data at the position.
  pub take_packet-Parts :
      (t : Transport Cipher) (random : ℕ → Bytes) (block : ℕ) (payload bytes raw plain more : Bytes)
      (computed : Option Bytes) (position : ℕ)
      → Parts random block payload bytes
      → drop_bytes position plain ≡ bytes ++ more
      → length payload + padding_length block (length payload) + 1 ≤ length raw
      → take_packet update t raw plain computed position ≡ (
          check_mac update
            (counted t)
            raw
            (position + 4 + 1 + (length payload + padding_length block (length payload)))
            computed
          >>= λ checked.
              ok (counted t, packet checked.0 (record { payload = payload; offset = 0 }) checked.1))
  unfolding take_packet
  take_packet-Parts t random block payload bytes raw plain more computed position parts here room =
      let padding = padding_length block (length payload) in
      let places = Parts-Places random block position payload bytes plain more parts here in
      let n = length payload + padding + 1 in
      let big : ltb (length raw) n ≡ false = ground (arith, room) in
      let fits : ltb n (padding + 1) ≡ false = ground arith in
      let left : n - (padding + 1) ≡ length payload = omega arith in
      rw (places.size_at, big, places.padding_at, fits, left, places.payload_at)
        (ap
          (λ k.
            check_mac update (counted t) raw (position + 4 + 1 + (k + padding)) computed
            >>= λ checked.
                ok (
                  counted t,
                  packet checked.0 (record { payload = payload; offset = 0 }) checked.1,
                ))
          left)

  -- A written packet: the bytes before the encryption, what has been sent, and the state after it.
  pub record Written (random : ℕ → Bytes) (s s' : Transport Cipher) (payload bytes : Bytes)
      : Type 0 where
    pub packet_is : Bytes
    pub made : packet_bytes random s.writing.block_length payload ≡ ok packet_is
    pub sent : (encrypted update s.writing.cipher packet_is).1 ++ mac_of s.writing packet_is ≡ bytes
    pub after :
        record s {
          writing = record s.writing {
            cipher = (encrypted update s.writing.cipher packet_is).0;
            messages = next_seqno s.writing.messages;
          };
        }
        ≡ s'

  pub write_ssh_v2_pdu-Written :
      (random : ℕ → Bytes) (s s' : Transport Cipher) (payload bytes : Bytes)
      → write_ssh_v2_pdu update random s payload ≡ ok (s', bytes)
      → Written random s s' payload bytes
  unfolding write_ssh_v2_pdu
  write_ssh_v2_pdu-Written random s s' payload bytes e =
      let (raw, made, rest) = >>=-eq-ok (packet_bytes random s.writing.block_length payload) _ e in
      record {
        packet_is = raw;
        made = made;
        sent = ap (λ o. (ok_or {A = Transport Cipher × Bytes} (s, []) o).1) rest;
        after = ap (λ o. (ok_or {A = Transport Cipher × Bytes} (s, []) o).0) rest;
      }
