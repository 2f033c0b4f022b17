-- ===== src/Ssh/Unpack.antt =====
-- `readSSHv2PDUData` of plugins/terminal-proxy/lib/ssh.js: one packet of the data that has come in.
use zlux_server_framework.Base.{
  ℕ, ◌+◌, ◌-◌, Bool, true, false, Option, none, some, [], ◌++◌, ltb, length, if◌then◌else◌,
}
use zlux_server_framework.Base.Outcome.{Outcome, ok, raised, ◌>>=◌}
use zlux_server_framework.Base.Text.{same_text}
use zlux_server_framework.Ssh.Bytes.{
  Bytes, Fault, out_of_range, no_property, drop_bytes, alloc_copy, read_uint32_be,
}
use zlux_server_framework.Ssh.Pdu.{Pdu, overwrite, first_byte}
use zlux_server_framework.Ssh.Packet.{max_packet_size, Transport, first_bytes, next_seqno, mac_of}

-- What reading comes to: an undefined result, a fragment, or a packet with the position behind it,
-- and whether its MAC was right. A wrong MAC is only logged.
pub data ReadResult : Type 0 where
  refused fragment : ReadResult
  packet : (read_length : ℕ) (pdu : Pdu) (mac_ok : Bool) → ReadResult

-- `rawData.slice(from, from + n)`
abbrev pub slice : ℕ → ℕ → Bytes → Bytes
slice from n raw = first_bytes n (drop_bytes from raw)

-- What the branch for encrypted data has come to: an end, or data to read, with its MAC.
pub data Decrypted : Type 0 where
  ended : ReadResult → Decrypted
  go_on : Bytes → Option Bytes → Decrypted

unfoldable pub read_byte_at : ℕ → Bytes → Outcome Fault ℕ
unfolding drop_bytes
read_byte_at n bs = elim (first_byte (drop_bytes n bs)) [
  | none ↦ raised out_of_range
  | some b ↦ ok b
]

module _ {Cipher : Type 0} (update : Cipher → Bytes → Cipher × Bytes) where
  abbrev pub with_cipher : Cipher → Transport Cipher → Transport Cipher
  with_cipher c t = record t { reading = record t.reading { cipher = some c } }

  -- The first block: kept decrypted from a fragment, or decrypted now, if there is more than it.
  unfoldable pub first_block :
      Cipher → Transport Cipher → Bytes → ℕ → Option (Transport Cipher × Bytes)
  unfolding first_bytes drop_bytes
  first_block c t raw position =
      let block = slice position t.reading.block_length raw in
      if t.is_first_block_decrypted
      then some (record t { is_first_block_decrypted = false }, block)
      else if ltb (t.reading.block_length + position) (length raw)
      then (let (c', out) = update c block in some (with_cipher c' t, out))
      else none

  -- The rest of the packet, whose length has been read from the first block.
  unfoldable pub other_blocks :
      Cipher
      → Transport Cipher
      → Bytes
      → ℕ
      → Bytes
      → ℕ
      → Outcome Fault (Transport Cipher × Decrypted)
  unfolding first_bytes drop_bytes alloc_copy mac_of overwrite
  other_blocks c t raw position first packet_length =
      let side = t.reading in
      if ltb (max_packet_size + 4 + side.mac_length + 50) packet_length
      then ok (t, ended refused)
      else if ltb (length raw - position) (packet_length + side.mac_length + 4)
      then ok (
        record t { incomplete_packet_buffer = some (overwrite (drop_bytes position raw) first) },
        ended fragment,
      )
      else if ltb (packet_length + 4) side.block_length
      then raised out_of_range
      else (let size = packet_length + 4 - side.block_length in
          let (c', others) =
            update c (alloc_copy size (drop_bytes (position + length first) raw)) in
          ok (
            with_cipher c' t,
            go_on (alloc_copy position [] ++ (first ++ others))
                (elim side.mac [ none ↦ none | some mac ↦ some (mac_of side (first ++ others)) ]),
          ))

  unfoldable pub decrypt :
      Transport Cipher → Bytes → ℕ → Outcome Fault (Transport Cipher × Decrypted)
  unfolding first_block other_blocks read_uint32_be
  decrypt t raw position = elim t.reading.cipher [
    | none ↦ ok (t, go_on raw none)
    | some c ↦ elim (first_block c t raw position) [
      | none ↦
          ok
            (record t { incomplete_packet_buffer = some (drop_bytes position raw) }, ended fragment)
      | some (t', first) ↦ read_uint32_be first >>= λ packet_length. elim t'.reading.cipher [
        | none ↦ raised no_property
        | some c' ↦ other_blocks c' t' raw position first packet_length
      ]
    ]
  ]

  -- The comparison of the two MACs, behind the packet. Without a computed one it throws.
  unfoldable pub check_mac : Transport Cipher → Bytes → ℕ → Option Bytes → Outcome Fault (ℕ × Bool)
  unfolding alloc_copy drop_bytes same_text
  check_mac t raw position computed = elim t.reading.mac [
    | none ↦ ok (position, true)
    | some mac ↦ elim computed [
      | none ↦ raised no_property
      | some right ↦ ok (
        position + t.reading.mac_length,
        same_text (alloc_copy t.reading.mac_length (drop_bytes position raw)) right,
      )
    ]
  ]

  -- The second half, on decrypted data.
  unfoldable pub take_packet :
      Transport Cipher
      → Bytes
      → Bytes
      → Option Bytes
      → ℕ
      → Outcome Fault (Transport Cipher × ReadResult)
  unfolding drop_bytes alloc_copy read_byte_at read_uint32_be next_seqno check_mac
  take_packet t raw plain computed position =
      read_uint32_be (drop_bytes position plain) >>= λ packet_length.
      if ltb (length raw) packet_length
      then ok (record t { incomplete_packet_buffer = some raw }, fragment)
      else (read_byte_at (position + 4) plain >>= λ padding.
          if ltb packet_length (padding + 1)
          then raised out_of_range
          else (let size = packet_length - (padding + 1) in
              let payload = alloc_copy size (drop_bytes (position + 4 + 1) plain) in
              let t' = record t {
                reading = record t.reading { messages = next_seqno t.reading.messages };
              } in
              check_mac t' raw (position + 4 + 1 + (size + padding)) computed >>= λ checked.
              ok (t', packet checked.0 (record { payload = payload; offset = 0 }) checked.1)))

  unfoldable pub read_ssh_v2_pdu_data :
      Transport Cipher → Bytes → ℕ → Outcome Fault (Transport Cipher × ReadResult)
  unfolding decrypt take_packet
  read_ssh_v2_pdu_data t raw position = decrypt t raw position >>= λ d. elim d.1 [
    | ended result ↦ ok (d.0, result)
    | go_on plain computed ↦ take_packet d.0 raw plain computed position
  ]
