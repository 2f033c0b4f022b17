-- ===== src/JsonStreamer/Nesting.antt =====
-- Nested calls of plugins/config/lib/jsonStreamer.js write a document.
pub mod Pieces
pub mod Documents
use zlux_server_framework.Base.{
  ℕ, zero, suc, ◌+◌, Bool, true, false, Option, none, some, List, [], ◌∷◌, ◌++◌, if◌then◌else◌,
}
use zlux_server_framework.Base.Text.{Text, text, join_with}
use zlux_server_framework.JsonStreamer.Defs.{
  Streamer, indent_string, escaped_string, json_start_object, json_end_object, json_start_array,
  json_end_array, json_add_string, json_add_int,
}

pub data Bracket : Type 0 where
  braces brackets : Bracket

-- A document, with the key that each part is added under, if any.
mutual
  pub data Tree : Type 0 where
    string : Text → Tree
    number : Text → Tree
    node : Bracket → Entries → Tree

  pub data Entries : Type 0 where
    end : Entries
    entry : Option Text → Tree → Entries → Entries

abbrev pub start_of : Bracket → Option Text → Streamer → Streamer
start_of braces key s = json_start_object key s
start_of brackets key s = json_start_array key s

abbrev pub end_of : Bracket → Streamer → Streamer
end_of braces s = json_end_object s
end_of brackets s = json_end_array s

-- The calls that add a document: each start has its end.
unfoldable mutual
  unfolding json_add_string json_add_int json_start_object json_start_array json_end_object
      json_end_array

  pub emit : Option Text → Tree → Streamer → Streamer
  emit key (string value) s = json_add_string key value s
  emit key (number value) s = json_add_int key value s
  emit key (node b entries) s = end_of b (emit_all entries (start_of b key s))

  pub emit_all : Entries → Streamer → Streamer
  emit_all end s = s
  emit_all (entry key t entries) s = emit_all entries (emit key t s)

unfoldable pub indent : ℕ → Text
indent zero = []
indent (suc d) = indent_string ++ indent d

abbrev pub new_line : Bool → ℕ → Text
new_line pretty d = if pretty then b'\n' ∷ indent d else []

abbrev pub quoted : Text → Text
quoted t = b'"' ∷ (escaped_string t ++ b'"' ∷ [])

abbrev pub key_text : Bool → Option Text → Text
key_text pretty none = []
key_text pretty (some []) = []
key_text pretty (some (c ∷ key)) = quoted (c ∷ key) ++ (if pretty then text ": " else text ":")

abbrev pub opening : Bracket → Text
opening braces = text "{"
opening brackets = text "["

abbrev pub closing : Bracket → Text
closing braces = text "}"
closing brackets = text "]"

-- The printed document: the parts of an object or a list are joined by commas.
unfoldable mutual
  unfolding join_with escaped_string indent

  pub render : Bool → ℕ → Tree → Text
  render pretty d (string value) = quoted value
  render pretty d (number value) = value
  render pretty d (node b entries) =
      opening b
      ++ (join_with (text ",") (parts pretty (d + 1) entries) ++ (new_line pretty d ++ closing b))

  pub parts : Bool → ℕ → Entries → List Text
  parts pretty d end = []
  parts pretty d (entry key t entries) =
      (new_line pretty d ++ (key_text pretty key ++ render pretty d t)) ∷ parts pretty d entries
