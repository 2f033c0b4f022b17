-- ===== src/Ssh/Packet.antt =====
-- Packets of plugins/terminal-proxy/lib/ssh.js: `writeSSHv2PDU` and `readSSHv2PDUData`. The ciphers and
-- the MAC of Node, and the random padding, are parameters.
use Prim.Native.Nat.{◌%◌, ◌/◌}
use zlux_server_framework.Base.{
  ℕ, zero, suc, ◌+◌, ◌-◌, Bool, Option, none, some, [], ◌∷◌, ◌++◌, ltb, length, if◌then◌else◌,
}
use zlux_server_framework.Base.Outcome.{Outcome, ok, raised, ◌>>=◌}
use zlux_server_framework.Ssh.Bytes.{Bytes, Fault, out_of_range, write_int32_be}

abbrev pub max_packet_size : ℕ
max_packet_size = 65536

abbrev pub max_seqno : ℕ
max_seqno = 4294967295

-- What a Node cipher does with bytes, as `update`, and the MAC of an algorithm and its key.
pub record Direction (Cipher : Type 0) : Type 0 where
  pub block_length : ℕ
  pub cipher : Option Cipher
  pub mac_length : ℕ
  pub mac : Option (Bytes → Bytes)
  pub messages : ℕ

-- The part of the session that packets use: the two directions and what is kept of a fragment.
pub record Transport (Cipher : Type 0) : Type 0 where
  pub reading : Direction Cipher
  pub writing : Direction Cipher
  pub incomplete_packet_buffer : Option Bytes
  pub is_first_block_decrypted : Bool

-- `bytes.slice(0, n)`
unfoldable pub first_bytes : ℕ → Bytes → Bytes
first_bytes zero bs = []
first_bytes (suc n) [] = []
first_bytes (suc n) (b ∷ bs) = b ∷ first_bytes n bs

-- `writeUInt32BE` of a number below 2 ^ 32
unfoldable pub uint32_bytes : ℕ → Bytes
uint32_bytes n = n / 16777216 % 256 ∷ n / 65536 % 256 ∷ n / 256 % 256 ∷ n % 256 ∷ []

unfoldable pub next_seqno : ℕ → ℕ
next_seqno n = if ltb max_seqno (n + 1) then 0 else n + 1

unfoldable pub padding_modulus : ℕ → ℕ
padding_modulus block_length = if ltb block_length 8 then 8 else block_length

unfoldable pub padding_length : ℕ → ℕ → ℕ
unfolding padding_modulus
padding_length block_length size =
    let modulus = padding_modulus block_length in
    let padding = modulus - (size + 5) % modulus in
    if ltb padding 4 then padding + modulus else padding

-- The packet before the encryption. `writeUInt8` refuses more than a byte.
unfoldable pub packet_bytes : (ℕ → Bytes) → ℕ → Bytes → Outcome Fault Bytes
unfolding padding_length write_int32_be
packet_bytes random block_length payload =
    let padding = padding_length block_length (length payload) in
    write_int32_be (length payload + padding + 1) >>= λ size.
    if ltb 255 padding
    then raised out_of_range
    else ok (size ++ (padding ∷ (payload ++ random padding)))

-- The MAC of a packet, cut to its length; nothing without an algorithm.
unfoldable pub mac_of : {Cipher : Type 0} → Direction Cipher → Bytes → Bytes
unfolding uint32_bytes first_bytes
mac_of side packet = elim side.mac [
  | none ↦ []
  | some mac ↦ first_bytes side.mac_length (mac (uint32_bytes side.messages ++ packet))
]

module _ {Cipher : Type 0} (update : Cipher → Bytes → Cipher × Bytes) where
  unfoldable pub encrypted : Option Cipher → Bytes → Option Cipher × Bytes
  encrypted none bs = (none, bs)
  encrypted (some c) bs = let (c', out) = update c bs in (some c', out)

  unfoldable pub write_ssh_v2_pdu :
      (ℕ → Bytes) → Transport Cipher → Bytes → Outcome Fault (Transport Cipher × Bytes)
  unfolding packet_bytes encrypted mac_of next_seqno
  write_ssh_v2_pdu random t payload = do
    packet ← packet_bytes random t.writing.block_length payload
    let (cipher', out) = encrypted t.writing.cipher packet
    let side = record t.writing { cipher = cipher'; messages = next_seqno t.writing.messages }
    ok (record t { writing = side }, out ++ mac_of t.writing packet)
