-- ===== src/Ssh/Send.antt =====
-- What plugins/terminal-proxy/lib/ssh.js sends for a client: `sendSSHData`, and the part of the handler of
-- NEWKEYS that sends what has been queued.
pub mod Queued
use zlux_server_framework.Base.{
  ℕ, zero, suc, Bool, true, false, Option, none, some, List, [], ◌∷◌, ◌++◌, map, length,
  if◌then◌else◌,
}
use zlux_server_framework.Base.Outcome.{Outcome, ok, ◌>>=◌}
use zlux_server_framework.Base.Text.{Text, text}
use zlux_server_framework.Ssh.Bytes.{Bytes, Fault}
use zlux_server_framework.Ssh.Fields.{
  Field, number, buffer, boolean, var_data, generate_ssh_v2_pdu_bytes,
}
use zlux_server_framework.Ssh.Packet.{Transport, write_ssh_v2_pdu}

-- The message that a client asks for. Texts are given as their bytes in UTF-8. A request on a channel may
-- name the channel; the number 0 is as none.
pub data Request : Type 0 where
  info_response : Option (List Bytes) → Request
  auth_password : (username password : Bytes) → Request
  auth_other other : Request
  channel_data : Bytes → Request
  channel_request :
      (channel : Option ℕ) (type : Bytes) (reply : Bool) (contents : List Field) → Request

-- The part of the session that sending uses; of a channel, the number that the server has for it.
pub record Session (Cipher : Type 0) : Type 0 where
  pub transport : Transport Cipher
  pub is_key_exchanging : Bool
  pub rekey_queue : List Bytes
  pub primary_shell_channel : Option ℕ
  pub server_channel_number : ℕ → Option ℕ

abbrev pub ssh_msg_userauth_request : ℕ
ssh_msg_userauth_request = 50

abbrev pub ssh_msg_userauth_info_response : ℕ
ssh_msg_userauth_info_response = 61

abbrev pub ssh_msg_channel_data : ℕ
ssh_msg_channel_data = 94

abbrev pub ssh_msg_channel_request : ℕ
ssh_msg_channel_request = 98

-- `channels[primaryShellChannel]`; without a primary channel there is none.
unfoldable pub primary_channel : {Cipher : Type 0} → Session Cipher → Option ℕ
primary_channel s = elim s.primary_shell_channel [
  | none ↦ none
  | some n ↦ s.server_channel_number n
]

abbrev pub or_channel : Option ℕ → ℕ → ℕ
or_channel none channel = channel
or_channel (some zero) channel = channel
or_channel (some (suc n)) channel = suc n

-- The fields of the message; none if nothing is sent.
unfoldable pub request_fields : {Cipher : Type 0} → Session Cipher → Request → Option (List Field)
unfolding primary_channel
request_fields s (info_response none) = none
request_fields s (info_response (some responses)) = some (
    buffer (ssh_msg_userauth_info_response ∷ [])
    ∷ number (length responses)
    ∷ map (λ r. var_data (some r)) responses)
request_fields s (auth_password username password) = some (
    buffer (ssh_msg_userauth_request ∷ [])
    ∷ var_data (some username)
    ∷ var_data (some (text "ssh-connection"))
    ∷ var_data (some (text "password"))
    ∷ boolean false
    ∷ var_data (some password)
    ∷ [])
request_fields s auth_other = none
request_fields s other = none
request_fields s (channel_data bytes) = elim (primary_channel s) [
  | none ↦ none
  | some channel ↦
      some (buffer (ssh_msg_channel_data ∷ []) ∷ number channel ∷ var_data (some bytes) ∷ [])
]
request_fields s (channel_request chosen type reply contents) = elim (primary_channel s) [
  | none ↦ none
  | some channel ↦ some (
      buffer (ssh_msg_channel_request ∷ [])
      ∷ number (or_channel chosen channel)
      ∷ var_data (some type)
      ∷ boolean reply
      ∷ contents)
]

module _ {Cipher : Type 0} (update : Cipher → Bytes → Cipher × Bytes) (random : ℕ → Bytes) where
  -- The loop that empties the queue: what is sent, message by message.
  unfoldable pub write_all :
      Transport Cipher → List Bytes → Outcome Fault (Transport Cipher × List Bytes)
  unfolding write_ssh_v2_pdu
  write_all t [] = ok (t, [])
  write_all t (pdu ∷ queue) = do
    (t1, sent) ← write_ssh_v2_pdu update random t pdu
    (t2, others) ← write_all t1 queue
    ok (t2, sent ∷ others)

  -- A message is queued during a key exchange, and sent behind the queue otherwise.
  unfoldable pub send_pdu : Session Cipher → Bytes → Outcome Fault (Session Cipher × List Bytes)
  unfolding write_all write_ssh_v2_pdu
  send_pdu s pdu =
      if s.is_key_exchanging
      then ok (record s { rekey_queue = s.rekey_queue ++ pdu ∷ [] }, [])
      else (write_all s.transport s.rekey_queue >>= λ q.
          write_ssh_v2_pdu update random q.0 pdu >>= λ w.
          ok (record s { transport = w.0; rekey_queue = [] }, q.1 ++ w.1 ∷ []))

  unfoldable pub send_ssh_data :
      Session Cipher → Request → Outcome Fault (Session Cipher × List Bytes)
  unfolding send_pdu request_fields generate_ssh_v2_pdu_bytes
  send_ssh_data s request = elim (request_fields s request) [
    | none ↦ ok (s, [])
    | some fields ↦ do pdu ← generate_ssh_v2_pdu_bytes fields; send_pdu s pdu
  ]

  -- NEWKEYS, once the new keys are in use: what has been queued is sent.
  unfoldable pub finish_key_exchange : Session Cipher → Outcome Fault (Session Cipher × List Bytes)
  unfolding write_all
  finish_key_exchange s =
      if s.is_key_exchanging
      then (write_all s.transport s.rekey_queue >>= λ q.
          ok (record s { transport = q.0; is_key_exchanging = false; rekey_queue = [] }, q.1))
      else ok (s, [])

-- What happens to a session, as far as sending is concerned: a client asks for a message, a key exchange
-- starts, its NEWKEYS leaves the session with new keys, or the channels change.
pub data Event (Cipher : Type 0) : Type 0 where
  request : Request → Event Cipher
  exchange_starts : Event Cipher
  new_keys : Transport Cipher → Event Cipher
  channels_change : Option ℕ → (ℕ → Option ℕ) → Event Cipher

module _ {Cipher : Type 0} (update : Cipher → Bytes → Cipher × Bytes) (random : ℕ → Bytes) where
  unfoldable pub happens :
      Session Cipher → Event Cipher → Outcome Fault (Session Cipher × List Bytes)
  unfolding send_ssh_data finish_key_exchange
  happens s (request r) = send_ssh_data update random s r
  happens s exchange_starts = ok (record s { is_key_exchanging = true }, [])
  happens s (new_keys t) = finish_key_exchange update random (record s { transport = t })
  happens s (channels_change primary numbers) =
      ok (record s { primary_shell_channel = primary; server_channel_number = numbers }, [])
