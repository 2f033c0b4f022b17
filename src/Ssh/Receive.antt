-- ===== src/Ssh/Receive.antt =====
-- The loop of `processEncryptedData` of plugins/terminal-proxy/lib/ssh.js: what has come in is joined to
-- what is kept of a fragment, and the packets in it are read and handled one by one.
pub mod Advances
pub mod Ending
use zlux_server_framework.Base.{
  ℕ, zero, suc, ◌+◌, ◌-◌, ◌≤◌, ◌<◌, Bool, true, false, ◌&&◌, Option, none, some, List, [], ◌∷◌,
  ◌++◌, ◌≡◌, refl, arith, ltb, length, if◌then◌else◌, if_ind,
}
use zlux_server_framework.Base.Outcome.{
  Outcome, ok, raised, out_of_fuel, ◌>>=◌, Ends, Ends-bind, Ends-if, >>=-eq-ok,
}
use zlux_server_framework.Ssh.Bytes.{
  Bytes, Fault, out_of_range, no_property, drop_bytes, alloc_copy, read_uint32_be,
}
use zlux_server_framework.Ssh.Pdu.{Pdu, first_byte}
use zlux_server_framework.Ssh.Packet.{Direction, Transport, next_seqno}
use zlux_server_framework.Ssh.Unpack.{
  ReadResult, refused, fragment, packet, Decrypted, ended, go_on, read_byte_at, first_block,
  other_blocks, decrypt, check_mac, take_packet, read_ssh_v2_pdu_data,
}

-- How the loop ends: all the data has been read, the next packet has not come in whole, the data is not
-- a packet, or a handler has ended it.
pub data Stop : Type 0 where
  all_read waits parsing_failed handler_failed : Stop

abbrev pub is_cipher : {Cipher : Type 0} → Option Cipher → Bool
is_cipher none = false
is_cipher (some c) = true

-- The data with what is kept of a fragment in front of it. The cipher that is tested is the one for
-- writing.
unfoldable pub with_fragment :
    {Cipher : Type 0} → Transport Cipher → Bytes → Transport Cipher × Bytes
with_fragment t raw = elim t.incomplete_packet_buffer [
  | none ↦ (t, raw)
  | some kept ↦ (
    record t {
      incomplete_packet_buffer = none;
      is_first_block_decrypted =
          if ltb t.reading.block_length (length kept) && is_cipher t.writing.cipher
          then true
          else t.is_first_block_decrypted;
    },
    kept ++ raw,
  )
]

module _ {Cipher State : Type 0} (update : Cipher → Bytes → Cipher × Bytes)
    (handle : Transport Cipher
      → State
      → Pdu
      → Outcome Fault (Transport Cipher × State × Bool)) where
  -- The loop. A handler may change the session, and says whether the loop goes on.
  unfoldable pub receive :
      ℕ → Transport Cipher → State → Bytes → ℕ → Outcome Fault (Transport Cipher × State × Stop)
  unfolding read_ssh_v2_pdu_data
  receive zero t st raw position = out_of_fuel
  receive (suc fuel) t st raw position = elim (ltb position (length raw)) [
    | false ↦ ok (t, st, all_read)
    | true ↦ read_ssh_v2_pdu_data update t raw position >>= λ r. elim r.1 [
      | refused ↦ ok (r.0, st, parsing_failed)
      | fragment ↦ ok (r.0, st, waits)
      | packet behind pdu mac_ok ↦ handle r.0 st pdu >>= λ h. elim h.2 [
        | false ↦ ok (h.0, h.1, handler_failed)
        | true ↦ receive fuel h.0 h.1 raw behind
      ]
    ]
  ]

  unfoldable pub process_encrypted_data :
      Transport Cipher → State → Bytes → Outcome Fault (Transport Cipher × State × Stop)
  unfolding with_fragment receive
  process_encrypted_data t st raw =
      let (t', all) = with_fragment t raw in receive (suc (length all)) t' st all 0
