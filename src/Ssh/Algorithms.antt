-- ===== src/Ssh/Algorithms.antt =====
-- The agreement on algorithms in plugins/terminal-proxy/lib/ssh.js: `getAgreeableAlgorithms` and
-- `makeKeyExchangeResponse`. The random cookie is a parameter.
pub mod Chosen
pub mod Answer
use zlux_server_framework.Base.{
  ℕ, String, Bool, true, false, Option, none, some, List, [], ◌∷◌, ◌++◌, map, member, nat_eq,
  if◌then◌else◌,
}
use zlux_server_framework.Base.Outcome.{Outcome, ok, raised, ◌>>=◌}
use zlux_server_framework.Base.Text.{Text, text}
use zlux_server_framework.Ssh.Bytes.{Bytes, Fault}
use zlux_server_framework.Ssh.Fields.{
  Field, number, names, buffer, boolean, generate_ssh_v2_pdu_bytes,
}

-- What is agreed on.
pub data Slot : Type 0 where
  key_exchange server_host_key : Slot
  client_to_server_encryption server_to_client_encryption : Slot
  client_to_server_mac server_to_client_mac : Slot
  client_to_server_compression server_to_client_compression : Slot

abbrev pub supported_kex : List String
supported_kex =
    "diffie-hellman-group-exchange-sha256" ∷ "diffie-hellman-group-exchange-sha1"
    ∷ "diffie-hellman-group14-sha1" ∷ "diffie-hellman-group1-sha1" ∷ []

abbrev pub supported_server_host_key : List String
supported_server_host_key = "ssh-rsa" ∷ "ssh-dss" ∷ []

abbrev pub supported_cipher : List String
supported_cipher =
    "aes256-cbc" ∷ "aes128-cbc" ∷ "aes256-ctr" ∷ "aes128-ctr" ∷ "aes192-ctr" ∷ "aes192-cbc"
    ∷ "blowfish-cbc" ∷ "3des-cbc" ∷ "arcfour256" ∷ "arcfour128" ∷ "cast128-cbc" ∷ "arcfour" ∷ []

abbrev pub supported_hmac : List String
supported_hmac =
    "hmac-sha2-256" ∷ "hmac-sha2-512" ∷ "hmac-sha1" ∷ "hmac-md5" ∷ "hmac-sha2-256-96"
    ∷ "hmac-sha2-512-96" ∷ "hmac-ripemd160" ∷ "hmac-sha1-96" ∷ "hmac-md5-96" ∷ []

abbrev pub supported_compress : List String
supported_compress = "none" ∷ []

unfoldable pub supported : Slot → List String
supported key_exchange = supported_kex
supported server_host_key = supported_server_host_key
supported client_to_server_encryption = supported_cipher
supported server_to_client_encryption = supported_cipher
supported client_to_server_mac = supported_hmac
supported server_to_client_mac = supported_hmac
supported client_to_server_compression = supported_compress
supported server_to_client_compression = supported_compress

-- The loop of `getAgreeableAlgorithms`.
unfoldable pub agreeable : List String → List String → List String
agreeable [] server = []
agreeable (candidate ∷ client) server =
    let rest = agreeable client server in if member candidate server then candidate ∷ rest else rest

abbrev pub unless_empty : List String → Option (List String)
unless_empty [] = none
unless_empty (a ∷ l) = some (a ∷ l)

unfoldable pub get_agreeable_algorithms : List String → Option (List String) → Option (List String)
unfolding agreeable
get_agreeable_algorithms client none = some client
get_agreeable_algorithms client (some server) = unless_empty (agreeable client server)

-- The fields of the session that hold what is agreed on.
abbrev pub Agreed : Type 0
Agreed = Slot → Option (List String)

-- The place of a slot in the message.
abbrev pub place : Slot → ℕ
place key_exchange = 0
place server_host_key = 1
place client_to_server_encryption = 2
place server_to_client_encryption = 3
place client_to_server_mac = 4
place server_to_client_mac = 5
place client_to_server_compression = 6
place server_to_client_compression = 7

unfoldable pub agree_on : Slot → List String → Agreed → Agreed
agree_on slot list agreed other =
    if nat_eq (place slot) (place other) then some list else agreed other

-- The order in which the agreements are made; the first that fails ends it.
abbrev pub slots : List Slot
slots =
    key_exchange ∷ server_host_key ∷ client_to_server_encryption ∷ server_to_client_encryption
    ∷ client_to_server_mac ∷ server_to_client_mac ∷ client_to_server_compression
    ∷ server_to_client_compression ∷ []

unfoldable pub negotiate : List Slot → (Slot → Option (List String)) → Agreed → Agreed × Bool
unfolding agree_on supported get_agreeable_algorithms
negotiate [] offers agreed = (agreed, true)
negotiate (slot ∷ rest) offers agreed =
    elim (get_agreeable_algorithms (supported slot) (offers slot)) [
      | none ↦ (agreed, false)
      | some list ↦ negotiate rest offers (agree_on slot list agreed)
    ]

abbrev pub or_no_names : Option (List String) → List String
or_no_names none = []
or_no_names (some list) = list

abbrev pub ssh_msg_kexinit : ℕ
ssh_msg_kexinit = 20

-- The fields of the client's KEXINIT message.
unfoldable pub kexinit_fields : Bytes → Agreed → List Field
kexinit_fields cookie agreed =
    buffer (ssh_msg_kexinit ∷ [])
    ∷ buffer cookie
    ∷ (map (λ slot. names (map text (or_no_names (agreed slot)))) slots
        ++ names [] ∷ names [] ∷ boolean false ∷ number 0 ∷ [])

-- The payload of the answer, undefined if some agreement fails.
unfoldable pub make_key_exchange_response :
    Bytes → (Slot → Option (List String)) → Agreed → Agreed × Option (Outcome Fault Bytes)
unfolding negotiate kexinit_fields generate_ssh_v2_pdu_bytes
make_key_exchange_response cookie offers agreed =
    let (agreed', done) = negotiate slots offers agreed in
    (
      agreed',
      if done then some (generate_ssh_v2_pdu_bytes (kexinit_fields cookie agreed')) else none,
    )
