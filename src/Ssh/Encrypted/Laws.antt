-- ===== src/Ssh/Encrypted/Laws.antt =====
-- What the ciphers and MACs of plugins/terminal-proxy/lib/ssh.js are relied on for, and two ends in step.
use Prim.Native.Nat.{◌%◌}
use zlux_server_framework.Base.{ℕ, ◌≤◌, some, false, ◌++◌, ◌≡◌, length}
use zlux_server_framework.Ssh.Bytes.{Bytes}
use zlux_server_framework.Ssh.Packet.{Transport, mac_of, uint32_bytes}
use zlux_server_framework.Ssh.Slices.{length-first_bytes}

-- The algorithms and keys of one direction of a session. The ciphers are documented to give as many
-- bytes as they take in whole blocks, to take them in two updates of whole blocks, and to undo what
-- their counterpart has done; a digest is as long as the part of it that is sent.
pub record Keys {Cipher : Type 0} (update : Cipher → Bytes → Cipher × Bytes) : Type 1 where
  pub block : ℕ
  pub mac_length : ℕ
  pub mac : Bytes → Bytes
  pub Pair : Cipher → Cipher → Type 0
  pub least : 8 ≤ block
  pub some_mac : 1 ≤ mac_length
  pub long_mac : (bs : Bytes) → mac_length ≤ length (mac bs)
  pub same_length :
      (c : Cipher) (bs : Bytes) → length bs % block ≡ 0 → length (update c bs).1 ≡ length bs
  pub in_two :
      (c : Cipher) (s t : Bytes)
      → length s % block ≡ 0
      → length t % block ≡ 0
      → update c (s ++ t)
        ≡ ((update (update c s).0 t).0, (update c s).1 ++ (update (update c s).0 t).1)
  pub undone :
      (c d : Cipher) (bs : Bytes)
      → length bs % block ≡ 0
      → Pair c d
      → ((update d (update c bs).1).1 ≡ bs) × Pair (update c bs).0 (update d (update c bs).1).0

module _ {Cipher : Type 0} {update : Cipher → Bytes → Cipher × Bytes} where
  -- The reader of one end in step with the writer of the other: the keys are in use, as many messages
  -- have been counted, the ciphers belong together, and no fragment is waiting for its rest.
  pub record InStep (keys : Keys update) (s t : Transport Cipher) : Type 0 where
    pub enciphers : Cipher
    pub deciphers : Cipher
    pub from_cipher : s.writing.cipher ≡ some enciphers
    pub to_cipher : t.reading.cipher ≡ some deciphers
    pub pair : keys.Pair enciphers deciphers
    pub from_mac : s.writing.mac ≡ some keys.mac
    pub to_mac : t.reading.mac ≡ some keys.mac
    pub from_block : s.writing.block_length ≡ keys.block
    pub to_block : t.reading.block_length ≡ keys.block
    pub from_mac_length : s.writing.mac_length ≡ keys.mac_length
    pub to_mac_length : t.reading.mac_length ≡ keys.mac_length
    pub messages : s.writing.messages ≡ t.reading.messages
    pub fresh : t.is_first_block_decrypted ≡ false

  pub mac_of-InStep :
      (keys : Keys update) (s t : Transport Cipher) (bs : Bytes)
      → InStep keys s t
      → mac_of s.writing bs ≡ mac_of t.reading bs
  unfolding mac_of uint32_bytes
  mac_of-InStep keys s t bs step =
      simp (
        mac_of, step.from_mac, step.to_mac, step.from_mac_length, step.to_mac_length, step.messages,
      )

  pub length-mac_of :
      (keys : Keys update) (s t : Transport Cipher) (bs : Bytes)
      → InStep keys s t
      → length (mac_of s.writing bs) ≡ keys.mac_length
  unfolding mac_of
  length-mac_of keys s t bs step =
      simp (mac_of, step.from_mac, step.from_mac_length)
        (length-first_bytes keys.mac_length _ (keys.long_mac _))
