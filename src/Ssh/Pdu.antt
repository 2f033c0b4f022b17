-- ===== src/Ssh/Pdu.antt =====
-- `SSHv2PDU` of plugins/terminal-proxy/lib/ssh.js: a payload, and the offset of the next read.
use Prim.Native.Nat.{◌%◌}
use zlux_server_framework.Base.{
  ℕ, ◌+◌, Option, none, some, List, [], ◌∷◌, ltb, length, if◌then◌else◌,
}
use zlux_server_framework.Base.Outcome.{Outcome, ok, raised, ◌>>=◌}
use zlux_server_framework.Base.Text.{Text, split_on}
use zlux_server_framework.Ssh.Bytes.{
  Bytes, Fault, out_of_range, drop_bytes, alloc_copy, read_uint32_be,
}

pub record Pdu : Type 0 where
  pub payload : Bytes
  pub offset : ℕ

abbrev pub rest_of : Pdu → Bytes
rest_of p = drop_bytes p.offset p.payload

abbrev pub advance : ℕ → Pdu → Pdu
advance n p = record p { offset = p.offset + n }

abbrev pub first_byte : Bytes → Option ℕ
first_byte [] = none
first_byte (b ∷ bs) = some b

-- Behind the end the byte is undefined.
unfoldable pub read_byte : Pdu → Option ℕ × Pdu
unfolding drop_bytes
read_byte p = (first_byte (rest_of p), advance 1 p)

unfoldable pub read_int : Pdu → Outcome Fault (ℕ × Pdu)
unfolding drop_bytes read_uint32_be
read_int p = do n ← read_uint32_be (rest_of p); ok (n, advance 4 p)

unfoldable pub get_remaining_bytes : Pdu → Outcome Fault Bytes
unfolding drop_bytes
get_remaining_bytes p =
    if ltb (length p.payload) p.offset then raised out_of_range else ok (rest_of p)

-- Where fewer bytes are left than the length says, the rest of the result is zero.
unfoldable pub read_sized_data : Pdu → Outcome Fault (Bytes × Pdu)
unfolding drop_bytes alloc_copy read_uint32_be
read_sized_data p = do
  size ← read_uint32_be (rest_of p)
  ok (alloc_copy size (drop_bytes (p.offset + 4) p.payload), advance (size + 4) p)

-- `toString('ascii')`, which drops the highest bit.
unfoldable pub ascii : Bytes → Text
ascii [] = []
ascii (b ∷ bs) = b % 128 ∷ ascii bs

unfoldable pub read_name_list : Pdu → Outcome Fault (List Text × Pdu)
unfolding drop_bytes alloc_copy read_uint32_be ascii split_on
read_name_list p = do
  size ← read_uint32_be (rest_of p)
  ok (
    split_on b',' (ascii (alloc_copy size (drop_bytes (p.offset + 4) p.payload))),
    advance (size + 4) p,
  )

-- `payload.copy(buffer)`: what there is overwrites the front of the buffer.
unfoldable pub overwrite : Bytes → Bytes → Bytes
overwrite [] bs = []
overwrite (a ∷ buffer) [] = a ∷ buffer
overwrite (a ∷ buffer) (b ∷ bs) = b ∷ overwrite buffer bs

unfoldable pub read_bytes : Bytes → Pdu → Bytes × Pdu
unfolding overwrite drop_bytes
read_bytes buffer p = (overwrite buffer (rest_of p), advance (length buffer) p)
