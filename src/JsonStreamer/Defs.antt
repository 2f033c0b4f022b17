-- ===== src/JsonStreamer/Defs.antt =====
-- The functions of plugins/config/lib/jsonStreamer.js. The stream is the text written so far; a number
-- comes as the text that it is converted to, and a value for `JSON.stringify` as what that returns.
use zlux_server_framework.Base.{
  ℕ, zero, suc, ◌+◌, ◌-◌, Bool, true, false, ◌||◌, Option, none, some, [], ◌∷◌, ◌++◌, ltb, nat_eq,
  if◌then◌else◌,
}
use zlux_server_framework.Base.Text.{Text, text}

-- `depth` is the number of starts less the number of ends, and may be negative.
pub record Streamer : Type 0 where
  pub pretty_print : Bool
  pub opened : ℕ
  pub closed : ℕ
  pub is_first_line : Bool
  pub is_start : Bool
  pub is_end : Bool
  pub out : Text

-- `new JsonStreamer(stream)`, with `prettyPrint` as its users set it.
abbrev pub json_streamer : Bool → Streamer
json_streamer pretty = record {
  pretty_print = pretty;
  opened = 0;
  closed = 0;
  is_first_line = true;
  is_start = true;
  is_end = false;
  out = [];
}

abbrev pub indent_string : Text
indent_string = text "  "

unfoldable pub write : Text → Streamer → Streamer
write t s = record s { out = s.out ++ t }

abbrev pub is_special : ℕ → Bool
is_special c = nat_eq c b'"' || (nat_eq c b'\\' || (nat_eq c b'\n' || nat_eq c b'\r'))

unfoldable pub special_char_count : Text → ℕ
special_char_count [] = 0
special_char_count (c ∷ t) =
    let rest = special_char_count t in if is_special c then rest + 1 else rest

unfoldable pub escape_char : ℕ → Text
escape_char c =
    if nat_eq c b'\n'
    then b'\\' ∷ b'n' ∷ []
    else if nat_eq c b'\r'
    then b'\\' ∷ b'r' ∷ []
    else if nat_eq c b'"' || nat_eq c b'\\'
    then b'\\' ∷ c ∷ []
    else c ∷ []

unfoldable pub escape : Text → Text
unfolding escape_char
escape [] = []
escape (c ∷ t) = escape_char c ++ escape t

-- What `jsonWriteEscapedString` writes: the text itself if it has no special character.
unfoldable pub escaped_string : Text → Text
unfolding special_char_count escape
escaped_string t = if ltb 0 (special_char_count t) then escape t else t

unfoldable pub json_write : Text → Bool → Streamer → Streamer
unfolding write escaped_string
json_write t escaping s = if escaping then write (escaped_string t) s else write t s

unfoldable pub json_write_quoted_string : Text → Streamer → Streamer
unfolding json_write
json_write_quoted_string t s =
    json_write (text "\"") false (json_write t true (json_write (text "\"") false s))

-- Nothing is written for an empty key, or for none.
unfoldable pub json_write_key_and_semicolon : Option Text → Streamer → Streamer
unfolding json_write_quoted_string json_write
json_write_key_and_semicolon none s = s
json_write_key_and_semicolon (some []) s = s
json_write_key_and_semicolon (some (c ∷ key)) s =
    json_write (if s.pretty_print then text ": " else text ":") false
      (json_write_quoted_string (c ∷ key) s)

-- The loop of `jsonIndent`.
unfoldable pub json_indent : ℕ → Streamer → Streamer
unfolding json_write
json_indent zero s = s
json_indent (suc depth) s = json_indent depth (json_write indent_string false s)

-- The first half of `jsonNewLine`.
unfoldable pub json_separate : Streamer → Streamer
unfolding json_write
json_separate s =
    if s.is_end
    then record s { is_end = false }
    else if s.is_start
    then record s { is_start = false }
    else json_write (text ",") false s

unfoldable pub json_new_line : Streamer → Streamer
unfolding json_separate json_indent json_write
json_new_line s =
    let s' = json_separate s in
    if s'.pretty_print
    then json_indent (s'.opened - s'.closed) (json_write (text "\n") false s')
    else s'

-- `if (streamer.isFirstLine) ... else jsonNewLine(streamer)`
unfoldable pub json_begin : Streamer → Streamer
unfolding json_new_line
json_begin s = if s.is_first_line then record s { is_first_line = false } else json_new_line s

unfoldable pub json_start_with : Text → Option Text → Streamer → Streamer
unfolding json_begin json_write_key_and_semicolon json_write
json_start_with opening key s =
    let s' = json_write opening false (json_write_key_and_semicolon key (json_begin s)) in
    record s' { opened = s'.opened + 1; is_start = true; is_end = false }

unfoldable pub json_end_with : Text → Streamer → Streamer
unfolding json_new_line json_write
json_end_with closing s =
    json_write closing false
      (json_new_line (record s { closed = s.closed + 1; is_start = false; is_end = true }))

unfoldable pub json_start_object : Option Text → Streamer → Streamer
unfolding json_start_with
json_start_object key s = json_start_with (text "{") key s

unfoldable pub json_start_array : Option Text → Streamer → Streamer
unfolding json_start_with
json_start_array key s = json_start_with (text "[") key s

unfoldable pub json_end_object : Streamer → Streamer
unfolding json_end_with
json_end_object s = json_end_with (text "}") s

unfoldable pub json_end_array : Streamer → Streamer
unfolding json_end_with
json_end_array s = json_end_with (text "]") s

unfoldable pub json_start : Streamer → Streamer
unfolding json_start_object
json_start s = json_start_object none s

unfoldable pub json_end : Streamer → Streamer
unfolding json_end_object
json_end s = json_end_object s

unfoldable pub json_add_string : Option Text → Text → Streamer → Streamer
unfolding json_begin json_write_key_and_semicolon json_write_quoted_string
json_add_string key value s =
    json_write_quoted_string value (json_write_key_and_semicolon key (json_begin s))

unfoldable pub json_add_int : Option Text → Text → Streamer → Streamer
unfolding json_begin json_write_key_and_semicolon json_write
json_add_int key value s = json_write value false (json_write_key_and_semicolon key (json_begin s))

-- On a falsy object nothing happens.
unfoldable pub json_print_object2 : Option Text → Option Text → Streamer → Streamer
unfolding json_begin json_write_key_and_semicolon write
json_print_object2 none key s = s
json_print_object2 (some json) key s = write json (json_write_key_and_semicolon key (json_begin s))

unfoldable pub without_last : Text → Text
without_last [] = []
without_last (c ∷ []) = []
without_last (c ∷ d ∷ t) = c ∷ without_last (d ∷ t)

-- `jsonString.slice(1, jsonString.length - 1)`
unfoldable pub inner_slice : Text → Text
unfolding without_last
inner_slice [] = []
inner_slice (c ∷ t) = without_last t

unfoldable pub json_print_object : Option Text → Streamer → Streamer
unfolding inner_slice write
json_print_object none s = s
json_print_object (some json) s = write (inner_slice json) s

unfoldable pub first_chars : ℕ → Text → Text
first_chars zero t = []
first_chars (suc n) [] = []
first_chars (suc n) (c ∷ t) = c ∷ first_chars n t

-- The length counts only where a character is escaped: else the whole text is written.
unfoldable pub json_write_quoted_unterminated_string : Text → ℕ → Streamer → Streamer
unfolding json_write write first_chars special_char_count escape
json_write_quoted_unterminated_string t len s =
    let t' = first_chars len t in
    json_write (text "\"") false (
      write (if ltb 0 (special_char_count t') then escape t' else t)
        (json_write (text "\"") false s))

-- `jsonWriteInt`, `jsonWriteInt64` and `jsonWriteBoolean`.
unfoldable pub json_write_value : Text → Streamer → Streamer
unfolding json_write
json_write_value value s = json_write value false s

unfoldable pub json_write_null : Streamer → Streamer
unfolding json_write
json_write_null s = json_write (text "null") false s
