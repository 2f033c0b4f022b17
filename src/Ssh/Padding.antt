-- ===== src/Ssh/Padding.antt =====
-- The padding of packets in plugins/terminal-proxy/lib/ssh.js.
use Prim.Native.Nat.{◌%◌}
use zlux_server_framework.Base.{
  ℕ, suc, ◌+◌, ◌-◌, ◌≤◌, ◌<◌, true, false, List, ◌++◌, ◌≡◌, refl, ap, ◌∙◌, arith, ltb, length,
  length-append, if_ind,
}
use zlux_server_framework.Base.Outcome.{ok}
use zlux_server_framework.Ssh.Bytes.{write_int32_be}
use zlux_server_framework.Ssh.Packet.{padding_modulus, padding_length, packet_bytes}

full_block : (m a : ℕ) → 0 < m → (a + (m - a % m)) % m ≡ 0
full_block m a h = grind arith

full_block_more : (m a : ℕ) → 0 < m → (a + (m - a % m + m)) % m ≡ 0
full_block_more m a h = grind arith

padding_modulus_least : (block : ℕ) → 8 ≤ padding_modulus block
unfolding padding_modulus
padding_modulus_least block = ground arith

-- The padding has 4 bytes or more, less than a block more than that, and fills the packet up to whole
-- blocks.
pub record FillsBlocks (block size padding : ℕ) : Type 0 where
  pub least : 4 ≤ padding
  pub most : padding < padding_modulus block + 4
  pub whole : (size + 5 + padding) % padding_modulus block ≡ 0

pub padding_length-FillsBlocks :
    (block size : ℕ) → FillsBlocks block size (padding_length block size)
unfolding padding_length
padding_length-FillsBlocks block size =
    let m = padding_modulus block in
    let r = (size + 5) % m in
    let eight = padding_modulus_least block in
    let small : r < m = grind (arith, eight) in
    if_ind (FillsBlocks block size) (ltb (m - r) 4)
      (λ short. record {
        least = omega (arith, eight);
        most = ground (arith, short, small);
        whole = full_block_more m (size + 5) (omega (arith, eight));
      })
      (λ enough. record {
        least = ground (arith, enough);
        most = omega (arith, small);
        whole = full_block m (size + 5) (omega (arith, eight));
      })

-- With blocks of at most 248 bytes, a payload that leaves room in 31 bits, and random bytes of the
-- length that is asked for, there is a packet, and it consists of whole blocks.
pub packet_bytes_whole :
    (random : ℕ → List ℕ) (block : ℕ) (payload : List ℕ)
    → ((n : ℕ) → length (random n) ≡ n)
    → block ≤ 248
    → length payload < 2147483000
    → (packet : List ℕ) × (packet_bytes random block payload ≡ ok packet)
      × (length packet % padding_modulus block ≡ 0)
unfolding packet_bytes write_int32_be
packet_bytes_whole random block payload sized small room =
    let padding = padding_length block (length payload) in
    let fills = padding_length-FillsBlocks block (length payload) in
    let modulus : padding_modulus block ≤ 248 = unfold padding_modulus in ground (arith, small) in
    let fits : ltb (length payload + padding + 1) 2147483648 ≡ true =
      ground (arith, room, fills.most, modulus) in
    let byte : ltb 255 padding ≡ false = ground (arith, fills.most, modulus) in
    let size : suc (suc (suc (suc (suc (length (payload ++ random padding))))))
        ≡ length payload + 5 + padding =
      omega (arith, length-append payload (random padding), sized padding) in
    rw (fits, byte) (_, refl, ap (λ k. k % padding_modulus block) size ∙ fills.whole)
