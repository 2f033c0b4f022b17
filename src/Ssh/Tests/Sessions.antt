-- ===== src/Ssh/Tests/Sessions.antt =====
-- Tests and examples of sessions of plugins/terminal-proxy/lib/ssh.js.
use zlux_server_framework.Base.{
  suc, ◌+◌, ◌-◌, Bool, true, false, Option, some, List, [], ◌∷◌, ◌++◌, ◌≡◌, refl, ap, ◌∙◌, arith,
  length, map,
}
use zlux_server_framework.Base.Outcome.{ok, Ends}
use zlux_server_framework.Base.Text.{text}
use zlux_server_framework.Ssh.Bytes.{Bytes, alloc_copy, length-alloc_copy}
use zlux_server_framework.Ssh.Fields.{generate_ssh_v2_pdu_bytes}
use zlux_server_framework.Ssh.Packet.{Direction, Transport, write_ssh_v2_pdu}
use zlux_server_framework.Ssh.Unpack.{packet, read_ssh_v2_pdu_data}
use zlux_server_framework.Ssh.Pdu.{Pdu}
use zlux_server_framework.Ssh.Receive.{Stop, process_encrypted_data}
use zlux_server_framework.Ssh.Receive.Ending.{process_encrypted_data-Ends}
use zlux_server_framework.Ssh.Send.{
  Request, Session, request, exchange_starts, new_keys, request_fields, happens, write_all,
}
use zlux_server_framework.Ssh.Send.Queued.{Run, AreWritten, all_of, happens_in_order}
use zlux_server_framework.Ssh.Stream.{joined, process_encrypted_data-write_all}
use zlux_server_framework.Ssh.Encrypted.{read_ssh_v2_pdu_data-encrypted}
use zlux_server_framework.Ssh.Encrypted.Laws.{Keys, InStep}
use zlux_server_framework.Ssh.Tests.{zeros, shift, no_cipher, at_first, hello_packet}

-- One end that writes and one that reads, in the middle of a session.
abbrev in_session : Option Bool → Direction Bool
in_session c = record {
  block_length = 8;
  cipher = c;
  mac_length = 12;
  mac = some (alloc_copy 20);
  messages = 300;
}

abbrev writer : Transport Bool
writer = record at_first { writing = in_session (some true) }

abbrev reader : Transport Bool
reader = record at_first { reading = in_session (some false) }

abbrev OppositeShifts : Bool → Bool → Type 0
OppositeShifts c d = (c ≡ true) × (d ≡ false)

length-shift : (c : Bool) (bs : Bytes) → length (shift c bs).1 ≡ length bs
length-shift true [] = refl
length-shift false [] = refl
length-shift true (b ∷ bs) = ap suc (length-shift true bs)
length-shift false (b ∷ bs) = ap suc (length-shift false bs)

shift_in_two :
    (c : Bool) (s t : Bytes)
    → shift c (s ++ t) ≡ ((shift (shift c s).0 t).0, (shift c s).1 ++ (shift (shift c s).0 t).1)
shift_in_two true [] t = refl
shift_in_two false [] t = refl
shift_in_two true (b ∷ s) t = ap (λ r. (r.0, (b + 1) ∷ r.1)) (shift_in_two true s t)
shift_in_two false (b ∷ s) t = ap (λ r. (r.0, (b - 1) ∷ r.1)) (shift_in_two false s t)

shift_back : (bs : Bytes) → (shift false (shift true bs).1).1 ≡ bs
shift_back [] = refl
shift_back (b ∷ bs) =
    let same : b + 1 - 1 ≡ b = omega arith in
    ap (λ a. a ∷ (shift false (shift true bs).1).1) same ∙ ap (λ l. b ∷ l) (shift_back bs)

abbrev shift_keys : Keys shift
shift_keys = record {
  block = 8;
  mac_length = 12;
  mac = alloc_copy 20;
  Pair = OppositeShifts;
  least = omega arith;
  some_mac = omega arith;
  long_mac = λ bs. omega (arith, length-alloc_copy 20 bs);
  same_length = λ c bs h. length-shift c bs;
  in_two = λ c s t h h'. shift_in_two c s t;
  undone = λ c d bs h pair. rw (pair.0, pair.1) (shift_back bs, (refl, refl));
}

writer-InStep : InStep shift_keys writer reader
writer-InStep = record {
  enciphers = true;
  deciphers = false;
  from_cipher = refl;
  to_cipher = refl;
  pair = (refl, refl);
  from_mac = refl;
  to_mac = refl;
  from_block = refl;
  to_block = refl;
  from_mac_length = refl;
  to_mac_length = refl;
  messages = refl;
  fresh = refl;
}

abbrev secret_hello : Bytes
secret_hello = map (λ b. b + 1) hello_packet ++ 0 ∷ 0 ∷ 1 ∷ 44 ∷ 0 ∷ 0 ∷ 0 ∷ 12 ∷ 6 ∷ text "hel"

write_ssh_v2_pdu_secret :
    write_ssh_v2_pdu shift zeros writer (text "hello")
    ≡ ok (
      record writer { writing = record (in_session (some true)) { messages = 301 } },
      secret_hello,
    )
unfolding write_ssh_v2_pdu alloc_copy
write_ssh_v2_pdu_secret = refl

read_ssh_v2_pdu_data-encrypted_example :
    (t' : Transport Bool) × (read_ssh_v2_pdu_data shift reader
        (5 ∷ [] ++ (secret_hello ++ 9 ∷ []))
        1
      ≡ ok (t', packet 29 (record { payload = text "hello"; offset = 0 }) true))
    × InStep shift_keys
        (record writer { writing = record (in_session (some true)) { messages = 301 } })
        t'
read_ssh_v2_pdu_data-encrypted_example =
    read_ssh_v2_pdu_data-encrypted shift shift_keys zeros writer _ reader (text "hello")
      secret_hello (5 ∷ []) (9 ∷ []) writer-InStep (λ n. length-alloc_copy n []) (omega arith)
      write_ssh_v2_pdu_secret

-- A handler that collects the payloads.
abbrev collect : List Bytes → Pdu → List Bytes
collect payloads pdu = payloads ++ pdu.payload ∷ []

abbrev two_messages : List Bytes
two_messages = text "hello" ∷ text "you" ∷ []

abbrev secret_you : Bytes
secret_you =
    map (λ b. b + 1) (0 ∷ 0 ∷ 0 ∷ 12 ∷ 8 ∷ (text "you" ++ 0 ∷ 0 ∷ 0 ∷ 0 ∷ 0 ∷ 0 ∷ 0 ∷ 0 ∷ []))
    ++ 0 ∷ 0 ∷ 1 ∷ 45 ∷ 0 ∷ 0 ∷ 0 ∷ 12 ∷ 8 ∷ text "you"

abbrev writer_after : Transport Bool
writer_after = record writer { writing = record (in_session (some true)) { messages = 302 } }

write_all-two_messages :
    write_all shift zeros writer two_messages ≡ ok (writer_after, secret_hello ∷ secret_you ∷ [])
unfolding write_all alloc_copy
write_all-two_messages = refl

process_encrypted_data-write_all_example :
    (t' : Transport Bool) × (process_encrypted_data shift
        (λ t1 st1 pdu. ok (t1, collect st1 pdu, true))
        reader
        []
        (joined (secret_hello ∷ secret_you ∷ []))
      ≡ ok (t', two_messages, Stop.all_read))
    × InStep shift_keys writer_after t'
process_encrypted_data-write_all_example =
    process_encrypted_data-write_all shift collect shift_keys zeros writer writer_after reader []
      two_messages (secret_hello ∷ secret_you ∷ []) writer-InStep refl (λ n. length-alloc_copy n [])
      (omega arith, (omega arith, tt)) write_all-two_messages

process_encrypted_data-Ends_example : Ends (
    process_encrypted_data shift
      (λ t1 st1 pdu. ok (t1, collect st1 pdu, true))
      reader
      []
      secret_hello)
process_encrypted_data-Ends_example =
    process_encrypted_data-Ends shift (λ t1 st1 pdu. ok (t1, collect st1 pdu, true)) reader []
      secret_hello (λ t st pdu. tt)

-- A client that sends data while a key exchange is going on.
abbrev client : Session Bool
client = record {
  transport = at_first;
  is_key_exchanging = false;
  rekey_queue = [];
  primary_shell_channel = some 1;
  server_channel_number = λ n. some 0;
}

abbrev typed : Bytes
typed = 94 ∷ 0 ∷ 0 ∷ 0 ∷ 0 ∷ 0 ∷ 0 ∷ 0 ∷ 2 ∷ text "ls"

abbrev in_exchange : Session Bool
in_exchange = record client { is_key_exchanging = true }

abbrev typed_in_exchange : Session Bool
typed_in_exchange = record in_exchange { rekey_queue = typed ∷ [] }

exchange_typed :
    happens shift zeros in_exchange (request (Request.channel_data (text "ls")))
    ≡ ok (typed_in_exchange, [])
unfolding happens
exchange_typed = refl

exchange_started : happens shift zeros client exchange_starts ≡ ok (in_exchange, [])
unfolding happens
exchange_started = refl

abbrev typed_packet : Bytes
typed_packet = 0 ∷ 0 ∷ 0 ∷ 20 ∷ 8 ∷ (typed ++ 0 ∷ 0 ∷ 0 ∷ 0 ∷ 0 ∷ 0 ∷ 0 ∷ 0 ∷ [])

abbrev client_after : Session Bool
client_after = record client {
  transport = record at_first { writing = record no_cipher { messages = 1 } };
}

exchange_finished :
    happens shift zeros typed_in_exchange (new_keys at_first) ≡ ok (client_after, typed_packet ∷ [])
unfolding happens alloc_copy
exchange_finished = refl

abbrev client_batches : List (Transport Bool × List Bytes)
client_batches = (at_first, []) ∷ (at_first, []) ∷ (at_first, typed_packet ∷ []) ∷ []

client_run : Run shift zeros client (typed ∷ []) client_batches client_after
unfolding request_fields generate_ssh_v2_pdu_bytes
client_run =
    Run.next client in_exchange client_after exchange_starts [] (typed ∷ []) _ exchange_started (
      Run.next in_exchange typed_in_exchange client_after
        (request (Request.channel_data (text "ls"))) [] [] _ exchange_typed
        (Run.next typed_in_exchange client_after client_after (new_keys at_first)
          (typed_packet ∷ []) [] _ exchange_finished (Run.done client_after)))

happens_in_order_example :
    (written : List (List Bytes)) × AreWritten shift zeros written client_batches
    × (all_of shift zeros written ++ [] ≡ typed ∷ [])
happens_in_order_example =
    happens_in_order shift zeros client client_after (typed ∷ []) client_batches client_run
