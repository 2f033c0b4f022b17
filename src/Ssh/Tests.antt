-- ===== src/Ssh/Tests.antt =====
-- Tests and examples for plugins/terminal-proxy/lib/ssh.js.
pub mod Sessions
use Prim.Native.Nat.{◌%◌}
use zlux_server_framework.Base.{
  ℕ, suc, String, ◌+◌, ◌-◌, Bool, true, false, Option, none, some, List, [], ◌∷◌, ◌++◌, ◌≡◌, refl,
  ap, ◌∙◌, arith, length, All, map, member, ◌↔◌,
}
use zlux_server_framework.Base.Outcome.{ok, Ends}
use zlux_server_framework.Base.Text.{text}
use zlux_server_framework.Ssh.Bytes.{Bytes, alloc_copy, length-alloc_copy}
use zlux_server_framework.Ssh.Fields.{
  Field, number, no_number, names, buffer, boolean, var_data, string, field_bytes,
  generate_ssh_v2_pdu_bytes,
}
use zlux_server_framework.Ssh.Utf8.{bytes_from}
use zlux_server_framework.Ssh.ReadBack.{value_of, read_all, read_all-generate_ssh_v2_pdu_bytes}
use zlux_server_framework.Ssh.Algorithms.{
  Slot, key_exchange, server_host_key, client_to_server_encryption, supported,
  get_agreeable_algorithms, Agreed, make_key_exchange_response,
}
use zlux_server_framework.Ssh.Algorithms.Chosen.{
  First, NothingShared, Agreement, get_agreeable_algorithms-First, get_agreeable_algorithms-none,
}
use zlux_server_framework.Ssh.Algorithms.Answer.{
  make_key_exchange_response-none, make_key_exchange_response-Agreement,
}
use zlux_server_framework.Ssh.Packet.{
  Direction, Transport, padding_modulus, packet_bytes, mac_of, uint32_bytes, write_ssh_v2_pdu,
}
use zlux_server_framework.Ssh.Padding.{packet_bytes_whole}
use zlux_server_framework.Ssh.Slices.{length-first_bytes}
use zlux_server_framework.Ssh.Unpack.{packet, read_ssh_v2_pdu_data}
use zlux_server_framework.Ssh.Parts.{counted}
use zlux_server_framework.Ssh.Plain.{read_ssh_v2_pdu_data-write_ssh_v2_pdu}
use zlux_server_framework.Ssh.Pdu.{Pdu}
use zlux_server_framework.Ssh.Receive.{Stop, process_encrypted_data}
use zlux_server_framework.Ssh.Receive.Ending.{process_encrypted_data-Ends}
use zlux_server_framework.Ssh.Send.{
  Request, Session, Event, request, exchange_starts, new_keys, request_fields, happens, write_all,
}
use zlux_server_framework.Ssh.Send.Queued.{Run, AreWritten, all_of, happens_in_order}
use zlux_server_framework.Ssh.Stream.{joined, process_encrypted_data-write_all}
use zlux_server_framework.Ssh.Encrypted.{read_ssh_v2_pdu_data-encrypted}
use zlux_server_framework.Ssh.Encrypted.Laws.{Keys, InStep}
use zlux_server_framework.Ssh.Window.{WithinLimits, take_all, take_all-WithinLimits}

-- A message with a field of each kind.
abbrev message : List Field
message =
    buffer (80 ∷ [])
    ∷ boolean true
    ∷ number 258
    ∷ no_number
    ∷ names (text "none" ∷ text "zlib" ∷ [])
    ∷ var_data none
    ∷ string (text "xyz")
    ∷ []

abbrev message_bytes : Bytes
message_bytes =
    80
    ∷ 1
    ∷ 0
    ∷ 0
    ∷ 1
    ∷ 2
    ∷ 0
    ∷ 0
    ∷ 0
    ∷ 0
    ∷ 0
    ∷ 0
    ∷ 0
    ∷ 9
    ∷ (text "none,zlib" ++ 0 ∷ 0 ∷ 0 ∷ 0 ∷ 0 ∷ 0 ∷ 0 ∷ 3 ∷ text "xyz")

generate_ssh_v2_pdu_bytes-message : generate_ssh_v2_pdu_bytes message ≡ ok message_bytes
unfolding generate_ssh_v2_pdu_bytes
generate_ssh_v2_pdu_bytes-message = refl

-- A string is cut off if it has characters of more than one byte: of the two characters of the first
-- one the second does not fit, and the only character of the second one is left out altogether.
field_bytes-string : field_bytes (string (b'a' ∷ 233 ∷ [])) ≡ ok (0 ∷ 0 ∷ 0 ∷ 2 ∷ b'a' ∷ 0 ∷ [])
unfolding field_bytes
field_bytes-string = refl

field_bytes-string_alone : field_bytes (string (233 ∷ [])) ≡ ok (0 ∷ 0 ∷ 0 ∷ 1 ∷ 0 ∷ [])
unfolding field_bytes
field_bytes-string_alone = refl

-- Characters of one to four bytes, the last one of two units.
bytes_from_units :
    bytes_from (b'a' ∷ 233 ∷ 8364 ∷ 55357 ∷ 56832 ∷ [])
    ≡ b'a' ∷ 195 ∷ 169 ∷ 226 ∷ 130 ∷ 172 ∷ 240 ∷ 159 ∷ 152 ∷ 128 ∷ []
unfolding bytes_from
bytes_from_units = refl

read_all-generate_ssh_v2_pdu_bytes_example :
    read_all message (record { payload = message_bytes ++ 7 ∷ []; offset = 0 })
    ≡ ok (
      map value_of message,
      record { payload = message_bytes ++ 7 ∷ []; offset = length message_bytes },
    )
read_all-generate_ssh_v2_pdu_bytes_example =
    read_all-generate_ssh_v2_pdu_bytes message message_bytes (7 ∷ [])
      (
        tt,
        (
          tt,
          (
            tt,
            (
              tt,
              (
                (
                  (
                    (omega arith, refl),
                    ((omega arith, refl), ((omega arith, refl), ((omega arith, refl), tt))),
                  ),
                  (
                    (
                      (omega arith, refl),
                      ((omega arith, refl), ((omega arith, refl), ((omega arith, refl), tt))),
                    ),
                    tt,
                  ),
                ),
                (tt, ((omega arith, (omega arith, (omega arith, tt))), tt)),
              ),
            ),
          ),
        ),
      )
      generate_ssh_v2_pdu_bytes-message

-- A server with some of the ciphers.
abbrev some_ciphers : List String
some_ciphers = "aes128-ctr" ∷ "aes128-cbc" ∷ "other" ∷ []

get_agreeable_algorithms_shared :
    get_agreeable_algorithms (supported Slot.client_to_server_encryption) (some some_ciphers)
    ≡ some ("aes128-cbc" ∷ "aes128-ctr" ∷ [])
unfolding get_agreeable_algorithms supported
get_agreeable_algorithms_shared = refl

-- A server that offers nothing for the host key and the same as the client elsewhere.
abbrev no_host_key : Slot → Option (List String)
no_host_key server_host_key = some []
no_host_key _ = none

abbrev cookie : Bytes
cookie = alloc_copy 16 []

abbrev nothing_agreed : Agreed
nothing_agreed slot = none

make_key_exchange_response-none_example :
    (make_key_exchange_response cookie no_host_key nothing_agreed).1 ≡ none
    ↔ ((slot : Slot) × NothingShared (supported slot) (no_host_key slot))
make_key_exchange_response-none_example =
    make_key_exchange_response-none no_host_key cookie nothing_agreed

-- A server that offers ciphers in its own order, one of which the client does not have.
abbrev ciphers_only : Slot → Option (List String)
ciphers_only client_to_server_encryption = some some_ciphers
ciphers_only _ = none

make_key_exchange_response-Agreement_example :
    Agreement (supported client_to_server_encryption) (some some_ciphers) (
      (make_key_exchange_response cookie ciphers_only nothing_agreed).0 client_to_server_encryption)
unfolding make_key_exchange_response
make_key_exchange_response-Agreement_example =
    make_key_exchange_response-Agreement ciphers_only cookie nothing_agreed _
      client_to_server_encryption refl

abbrev pub zeros : ℕ → Bytes
zeros n = alloc_copy n []

packet_bytes_whole_example :
    (packet : List ℕ) × (packet_bytes zeros 16 (text "hello") ≡ ok packet)
    × (length packet % padding_modulus 16 ≡ 0)
packet_bytes_whole_example =
    packet_bytes_whole zeros 16 (text "hello") (λ n. length-alloc_copy n []) (omega arith)
      (omega arith)

-- Ciphers that add one to each byte and take it away.
abbrev pub shift : Bool → Bytes → Bool × Bytes
shift true bs = (true, map (λ b. b + 1) bs)
shift false bs = (false, map (λ b. b - 1) bs)

abbrev pub no_cipher : Direction Bool
no_cipher = record { block_length = 8; cipher = none; mac_length = 0; mac = none; messages = 0 }

abbrev pub at_first : Transport Bool
at_first = record {
  reading = no_cipher;
  writing = no_cipher;
  incomplete_packet_buffer = none;
  is_first_block_decrypted = false;
}

abbrev pub hello_packet : Bytes
hello_packet = 0 ∷ 0 ∷ 0 ∷ 12 ∷ 6 ∷ (text "hello" ++ 0 ∷ 0 ∷ 0 ∷ 0 ∷ 0 ∷ 0 ∷ [])

write_ssh_v2_pdu_hello :
    write_ssh_v2_pdu shift zeros at_first (text "hello")
    ≡ ok (record at_first { writing = record no_cipher { messages = 1 } }, hello_packet)
unfolding write_ssh_v2_pdu alloc_copy
write_ssh_v2_pdu_hello = refl

read_ssh_v2_pdu_data-write_ssh_v2_pdu_example :
    read_ssh_v2_pdu_data shift at_first (1 ∷ 2 ∷ [] ++ (hello_packet ++ 9 ∷ [])) 2
    ≡ ok (counted at_first, packet 18 (record { payload = text "hello"; offset = 0 }) true)
read_ssh_v2_pdu_data-write_ssh_v2_pdu_example =
    read_ssh_v2_pdu_data-write_ssh_v2_pdu shift zeros at_first _ at_first (text "hello")
      hello_packet (1 ∷ 2 ∷ []) (9 ∷ []) (λ n. length-alloc_copy n []) refl refl refl refl
      write_ssh_v2_pdu_hello

-- Before the key exchange, a packet of which the end is missing is not a fragment, and is read with zeros.
read_ssh_v2_pdu_data_cut_off :
    read_ssh_v2_pdu_data shift at_first (0 ∷ 0 ∷ 0 ∷ 12 ∷ 6 ∷ (text "hel" ++ alloc_copy 4 [])) 0
    ≡ ok (
      counted at_first,
      packet 16 (record { payload = text "hel" ++ 0 ∷ 0 ∷ []; offset = 0 }) true,
    )
unfolding read_ssh_v2_pdu_data alloc_copy
read_ssh_v2_pdu_data_cut_off = refl

-- The second piece of data leaves the window too small for a packet.
take_all-WithinLimits_example :
    WithinLimits 70000 5010 (take_all 70000 (10 ∷ 5000 ∷ [])).0 (take_all 70000 (10 ∷ 5000 ∷ [])).1
take_all-WithinLimits_example =
    take_all-WithinLimits 70000 (10 ∷ 5000 ∷ []) (omega arith) (omega arith)

take_all_opened : take_all 70000 (10 ∷ 5000 ∷ []) ≡ (4194304, 4129314)
unfolding take_all
take_all_opened = refl
