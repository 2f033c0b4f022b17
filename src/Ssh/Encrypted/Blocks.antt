-- ===== src/Ssh/Encrypted/Blocks.antt =====
-- The first block and the other blocks of a packet of plugins/terminal-proxy/lib/ssh.js.
use Prim.Native.Nat.{◌%◌}
use zlux_server_framework.Base.{ℕ, ◌+◌, ◌≤◌, ◌<◌, ◌++◌, ◌≡◌, sym, ap, ◌∙◌, arith, length}
use zlux_server_framework.Base.Outcome.{ok}
use zlux_server_framework.Ssh.Bytes.{Bytes, drop_bytes}
use zlux_server_framework.Ssh.Packet.{padding_modulus, padding_length, packet_bytes, first_bytes}
use zlux_server_framework.Ssh.Slices.{first_bytes-drop_bytes, length-first_bytes, length-drop_bytes}
use zlux_server_framework.Ssh.Padding.{padding_length-FillsBlocks}
use zlux_server_framework.Ssh.Parts.{Parts, packet_bytes-Parts, length-Parts}

whole_least : (a m : ℕ) → 0 < m → 0 < a → a % m ≡ 0 → m ≤ a
whole_least a m hm ha h = grind arith

whole_rest : (a m b : ℕ) → 0 < m → a % m ≡ 0 → a ≡ m + b → b % m ≡ 0
whole_rest a m b hm h e = grind arith

whole_one : (m : ℕ) → 0 < m → m % m ≡ 0
whole_one m hm = grind arith

-- A packet as its first block and the other blocks.
pub record Cut (random : ℕ → Bytes) (block : ℕ) (payload bytes : Bytes) : Type 0 where
  pub p1 : Bytes
  pub p2 : Bytes
  pub both : p1 ++ p2 ≡ bytes
  pub long : length payload + padding_length block (length payload) + 5 ≡ length p1 + length p2
  pub first_is : length p1 ≡ block
  pub whole1 : length p1 % block ≡ 0
  pub whole2 : length p2 % block ≡ 0
  pub parts : Parts random block payload (p1 ++ p2)

pub packet_bytes-Cut :
    (random : ℕ → Bytes) (block : ℕ) (payload bytes : Bytes)
    → ((n : ℕ) → length (random n) ≡ n)
    → 8 ≤ block
    → packet_bytes random block payload ≡ ok bytes
    → Cut random block payload bytes
packet_bytes-Cut random block payload bytes sized least made =
    let padding = padding_length block (length payload) in
    let parts = packet_bytes-Parts random block payload bytes made in
    let long = length-Parts random block payload bytes sized parts in
    let modulus : padding_modulus block ≡ block = unfold padding_modulus in ground (arith, least) in
    let sum : length payload + 5 + padding ≡ length bytes = omega (arith, long) in
    let whole : length bytes % block ≡ 0 =
      ap (λ a. a % block) (sym sum)
      ∙ ap (λ m. (length payload + 5 + padding) % m) (sym modulus)
      ∙ (padding_length-FillsBlocks block (length payload)).whole in
    let enough : block ≤ length bytes =
      whole_least (length bytes) block (omega (arith, least)) (omega (arith, long)) whole in
    let l1 = length-first_bytes block bytes enough in
    let l2 = length-drop_bytes block bytes enough in
    let both = first_bytes-drop_bytes block bytes in
    record {
      p1 = first_bytes block bytes;
      p2 = drop_bytes block bytes;
      both = both;
      long = omega (arith, long, l1, l2);
      first_is = l1;
      whole1 = ap (λ a. a % block) l1 ∙ whole_one block (omega (arith, least));
      whole2 = whole_rest (length bytes) block _ (omega (arith, least)) whole (omega (arith, l2));
      parts = rw both parts;
    }
