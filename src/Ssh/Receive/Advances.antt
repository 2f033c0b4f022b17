-- ===== src/Ssh/Receive/Advances.antt =====
-- `readSSHv2PDUData` of plugins/terminal-proxy/lib/ssh.js moves on.
use zlux_server_framework.Base.{
  ℕ, ◌+◌, ◌-◌, ◌≤◌, ◌<◌, Bool, Option, none, some, [], ◌∷◌, ◌≡◌, refl, arith, inl, inr, ltb, length,
  if_ind, Option-cases,
}
use zlux_server_framework.Base.Outcome.{Outcome, ok, raised, out_of_fuel, ◌>>=◌, Ends}
use zlux_server_framework.Ssh.Bytes.{
  Bytes, Fault, out_of_range, no_property, drop_bytes, read_uint32_be,
}
use zlux_server_framework.Ssh.Pdu.{Pdu, first_byte}
use zlux_server_framework.Ssh.Packet.{max_packet_size, Transport}
use zlux_server_framework.Ssh.Unpack.{
  ReadResult, refused, fragment, packet, Decrypted, ended, go_on, read_byte_at, first_block,
  other_blocks, decrypt, check_mac, take_packet, read_ssh_v2_pdu_data,
}
use zlux_server_framework.Ssh.Parts.{counted}

module _ {Cipher : Type 0} where
  -- A reading that ends, and behind its place if it has read a packet.
  abbrev pub Advances : ℕ → Outcome Fault (Transport Cipher × ReadResult) → Type 0
  Advances position (ok (t, packet behind pdu mac_ok)) = position < behind
  Advances position (ok (t, _)) = Unit
  Advances position (raised e) = Unit
  Advances position out_of_fuel = ⊥

  Advances-bind :
      {A : Type 0} (position : ℕ) (m : Outcome Fault A)
      (f : A → Outcome Fault (Transport Cipher × ReadResult))
      → Ends m
      → ((a : A) → m ≡ ok a → Advances position (f a))
      → Advances position (m >>= f)
  Advances-bind position (ok a) f hm hf = hf a refl
  Advances-bind position (raised e) f hm hf = tt
  Advances-bind position out_of_fuel f hm hf = hm

read_uint32_be-Ends : (bs : Bytes) → Ends (read_uint32_be bs)
unfolding read_uint32_be
read_uint32_be-Ends [] = tt
read_uint32_be-Ends (a ∷ []) = tt
read_uint32_be-Ends (a ∷ b ∷ []) = tt
read_uint32_be-Ends (a ∷ b ∷ c ∷ []) = tt
read_uint32_be-Ends (a ∷ b ∷ c ∷ d ∷ bs) = tt

read_byte_at-Ends : (n : ℕ) (bs : Bytes) → Ends (read_byte_at n bs)
unfolding read_byte_at
read_byte_at-Ends n bs = ends (first_byte (drop_bytes n bs))
  where
    ends :
        (o : Option ℕ)
        → Ends (elim o as (λ _. Outcome Fault ℕ) [ none ↦ raised out_of_range | some b ↦ ok b ])
    ends none = tt
    ends (some b) = tt

module _ {Cipher : Type 0} (update : Cipher → Bytes → Cipher × Bytes) where
  Behind : ℕ → Outcome Fault (ℕ × Bool) → Type 0
  Behind position (ok (behind, same)) = position ≤ behind
  Behind position (raised e) = Unit
  Behind position out_of_fuel = ⊥

  check_mac-Behind :
      (t : Transport Cipher) (raw : Bytes) (position : ℕ) (computed : Option Bytes)
      → Behind position (check_mac update t raw position computed)
  unfolding check_mac Behind
  check_mac-Behind t raw position computed = elim (Option-cases t.reading.mac) [
    | inl without ↦ rw (check_mac, without) (omega arith)
    | inr (mac, with) ↦ elim (Option-cases computed) [
      | inl missing ↦ rw (check_mac, with, missing) tt
      | inr (right, there) ↦ rw (check_mac, with, there) (omega arith)
    ]
  ]

  Behind-packet :
      (position from : ℕ) (m : Outcome Fault (ℕ × Bool)) (t : Transport Cipher) (pdu : Pdu)
      → Behind from m
      → position < from
      → Advances position (m >>= λ checked. ok (t, packet checked.0 pdu checked.1))
  unfolding Behind
  Behind-packet position from (ok (behind, same)) t pdu h further = omega (arith, h, further)
  Behind-packet position from (raised e) t pdu h further = tt
  Behind-packet position from out_of_fuel t pdu h further = h

  take_packet-Advances :
      (t : Transport Cipher) (raw plain : Bytes) (computed : Option Bytes) (position : ℕ)
      → Advances position (take_packet update t raw plain computed position)
  unfolding take_packet
  take_packet-Advances t raw plain computed position =
      Advances-bind position (read_uint32_be (drop_bytes position plain)) _ (read_uint32_be-Ends _)
        (λ n _.
          if_ind (Advances position) (ltb (length raw) n) (λ _. tt)
            (λ _.
              Advances-bind position (read_byte_at (position + 4) plain) _
                (read_byte_at-Ends _ plain)
                (λ padding _.
                  if_ind (Advances position) (ltb n (padding + 1)) (λ _. tt)
                    (λ _.
                      Behind-packet position _ _ (counted t) _
                        (check_mac-Behind (counted t) raw _ computed) (omega arith)))))

  -- The decryption ends, and never with a packet.
  Goes : Outcome Fault (Transport Cipher × Decrypted) → Type 0
  Goes (ok (t, ended (packet behind pdu mac_ok))) = ⊥
  Goes (ok (t, _)) = Unit
  Goes (raised e) = Unit
  Goes out_of_fuel = ⊥

  Goes-bind :
      {A : Type 0} (m : Outcome Fault A) (f : A → Outcome Fault (Transport Cipher × Decrypted))
      → Ends m
      → ((a : A) → Goes (f a))
      → Goes (m >>= f)
  unfolding Goes
  Goes-bind (ok a) f hm hf = hf a
  Goes-bind (raised e) f hm hf = tt
  Goes-bind out_of_fuel f hm hf = hm

  other_blocks-Goes :
      (c : Cipher) (t : Transport Cipher) (raw : Bytes) (position : ℕ) (first : Bytes) (n : ℕ)
      → Goes (other_blocks update c t raw position first n)
  unfolding other_blocks Goes
  other_blocks-Goes c t raw position first n =
      if_ind Goes (ltb (max_packet_size + 4 + t.reading.mac_length + 50) n) (λ _. tt)
        (λ _.
          if_ind Goes (ltb (length raw - position) (n + t.reading.mac_length + 4)) (λ _. tt)
            (λ _. if_ind Goes (ltb (n + 4) t.reading.block_length) (λ _. tt) (λ _. tt)))

  decrypt-Goes :
      (t : Transport Cipher) (raw : Bytes) (position : ℕ) → Goes (decrypt update t raw position)
  unfolding decrypt Goes
  decrypt-Goes t raw position = elim (Option-cases t.reading.cipher) [
    | inl without ↦ rw (decrypt, without) tt
    | inr (c, with) ↦ elim (Option-cases (first_block update c t raw position)) [
      | inl short ↦ simp (decrypt, with, short) tt
      | inr ((t', first), got) ↦
          simp (decrypt, with, got)
            (Goes-bind (read_uint32_be first) _ (read_uint32_be-Ends first) (λ n. after t' first n))
    ]
  ]
    where
      after :
          (t' : Transport Cipher) (first : Bytes) (n : ℕ)
          → Goes (elim t'.reading.cipher as (λ _. Outcome Fault (Transport Cipher × Decrypted)) [
            | none ↦ raised no_property
            | some c' ↦ other_blocks update c' t' raw position first n
          ])
      after t' first n = elim (Option-cases t'.reading.cipher) [
        | inl none_left ↦ simp (none_left) tt
        | inr (c', with) ↦ simp (with) (other_blocks-Goes c' t' raw position first n)
      ]

  -- Reading ends, and behind the place where it has begun if there is a packet.
  pub read_ssh_v2_pdu_data-Advances :
      (t : Transport Cipher) (raw : Bytes) (position : ℕ)
      → Advances position (read_ssh_v2_pdu_data update t raw position)
  unfolding read_ssh_v2_pdu_data Goes
  read_ssh_v2_pdu_data-Advances t raw position =
      further (decrypt update t raw position) (decrypt-Goes t raw position)
    where
      further :
          (m : Outcome Fault (Transport Cipher × Decrypted))
          → Goes m
          → Advances position (
              m >>= λ d. elim d.1 [
                | ended result ↦ ok (d.0, result)
                | go_on plain computed ↦ take_packet update d.0 raw plain computed position
              ])
      further (ok (t', ended refused)) h = tt
      further (ok (t', ended fragment)) h = tt
      further (ok (t', go_on plain computed)) h =
          take_packet-Advances t' raw plain computed position
      further (raised e) h = tt
      further (ok (t', ended (packet behind pdu mac_ok))) h = absurd h
      further out_of_fuel h = absurd h
