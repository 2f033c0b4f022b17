-- ===== src/Ssh/Fields.antt =====
-- `generateSSHv2PDUBytes` of plugins/terminal-proxy/lib/ssh.js: the bytes of the fields of a message.
use zlux_server_framework.Base.{
  ℕ, Bool, Option, none, some, List, [], ◌∷◌, ◌++◌, length, map, if◌then◌else◌,
}
use zlux_server_framework.Base.Outcome.{Outcome, ok, ◌>>=◌}
use zlux_server_framework.Base.Text.{Text, text, join_with}
use zlux_server_framework.Ssh.Bytes.{Bytes, Fault, write_int32_be}
use zlux_server_framework.Ssh.Utf8.{bytes_from, written_in}

-- What the array may hold: a number, `new Number(undefined)`, an array of names, a buffer, a boolean,
-- a `VarData` with its buffer, if any, and a string, by its UTF-16 units.
-- Values of other kinds are left out.
pub data Field : Type 0 where
  number : ℕ → Field
  no_number : Field
  names : List Text → Field
  buffer : Bytes → Field
  boolean : Bool → Field
  var_data : Option Bytes → Field
  string : Text → Field

-- The length, and then the bytes.
unfoldable pub sized : Bytes → Outcome Fault Bytes
unfolding write_int32_be
sized bs = do size ← write_int32_be (length bs); ok (size ++ bs)

abbrev pub or_no_bytes : Option Bytes → Bytes
or_no_bytes none = []
or_no_bytes (some bs) = bs

-- What is not a number is written as 0. A string has room for as many bytes as it has UTF-16 units.
unfoldable pub field_bytes : Field → Outcome Fault Bytes
unfolding sized write_int32_be join_with bytes_from written_in
field_bytes (number n) = write_int32_be n
field_bytes no_number = write_int32_be 0
field_bytes (names list) = sized (join_with (text ",") (map bytes_from list))
field_bytes (buffer bs) = ok bs
field_bytes (boolean b) = ok ((if b then 1 else 0) ∷ [])
field_bytes (var_data content) = sized (or_no_bytes content)
field_bytes (string s) = sized (written_in (length s) s)

unfoldable pub generate_ssh_v2_pdu_bytes : List Field → Outcome Fault Bytes
unfolding field_bytes
generate_ssh_v2_pdu_bytes [] = ok []
generate_ssh_v2_pdu_bytes (field ∷ fields) = do
  front ← field_bytes field
  back ← generate_ssh_v2_pdu_bytes fields
  ok (front ++ back)
