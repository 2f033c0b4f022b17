-- ===== src/JsonStreamer/Nesting/Pieces.antt =====
-- What single calls of plugins/config/lib/jsonStreamer.js write.
use mathlib.Core.List.{append_assoc, append-nil}
use zlux_server_framework.Base.{
  ℕ, zero, suc, ◌+◌, ◌-◌, Bool, true, false, Option, none, some, [], ◌∷◌, ◌++◌, ◌≡◌, refl, sym, ap,
  ◌∙◌, arith, if◌then◌else◌,
}
use zlux_server_framework.Base.Text.{Text, text}
use zlux_server_framework.JsonStreamer.Defs.{
  Streamer, indent_string, write, escaped_string, json_write, json_write_quoted_string,
  json_write_key_and_semicolon, json_indent, json_separate, json_new_line, json_begin,
  json_end_with,
}
use zlux_server_framework.JsonStreamer.Nesting.{indent, new_line, quoted, key_text}

-- A streamer behind its first line; `start` tells whether nothing stands in the open brackets yet.
abbrev pub inside : Bool → ℕ → ℕ → Bool → Text → Streamer
inside pretty opened closed start out = record {
  pretty_print = pretty;
  opened = opened;
  closed = closed;
  is_first_line = false;
  is_start = start;
  is_end = false;
  out = out;
}

pub write-write : (a b : Text) (s : Streamer) → write b (write a s) ≡ write (a ++ b) s
unfolding write
write-write a b s = ap (λ o. record s { out = o }) (append_assoc s.out a b)

write-nil : (s : Streamer) → write [] s ≡ s
unfolding write
write-nil s = ap (λ o. record s { out = o }) (append-nil s.out)

json_indent_lem : (n : ℕ) (s : Streamer) → json_indent n s ≡ write (indent n) s
unfolding json_indent json_write indent
json_indent_lem zero s = sym (write-nil s)
json_indent_lem (suc n) s =
    json_indent_lem n (write indent_string s) ∙ write-write indent_string (indent n) s

pub json_write_quoted_string_lem :
    (t : Text) (s : Streamer) → json_write_quoted_string t s ≡ write (quoted t) s
unfolding json_write_quoted_string json_write
json_write_quoted_string_lem t s =
    ap (write (text "\"")) (write-write (text "\"") (escaped_string t) s)
    ∙ write-write (text "\"" ++ escaped_string t) (text "\"") s

json_write_key_and_semicolon_lem :
    (key : Option Text) (s : Streamer)
    → json_write_key_and_semicolon key s ≡ write (key_text s.pretty_print key) s
unfolding json_write_key_and_semicolon json_write
json_write_key_and_semicolon_lem none s = sym (write-nil s)
json_write_key_and_semicolon_lem (some []) s = sym (write-nil s)
json_write_key_and_semicolon_lem (some (c ∷ key)) s =
    ap (write (if s.pretty_print then text ": " else text ":"))
      (json_write_quoted_string_lem (c ∷ key) s)
    ∙ write-write (quoted (c ∷ key)) (if s.pretty_print then text ": " else text ":") s

abbrev pub comma : Bool → Text
comma start = if start then [] else text ","

-- A new line on the level `d`, at a streamer that has just written `before`.
indent_line :
    (d closed : ℕ) (before : Text) (s : Streamer)
    → json_indent (closed + d - closed) (write (text "\n") (write before s))
      ≡ write (before ++ new_line true d) s
indent_line d closed before s =
    let level : closed + d - closed ≡ d = omega arith in
    ap (λ n. json_indent n (write (text "\n") (write before s))) level
    ∙ (json_indent_lem d (write (text "\n") (write before s))
        ∙ (write-write (text "\n") (indent d) (write before s)
            ∙ write-write before (b'\n' ∷ indent d) s))

pub json_begin_lem :
    (pretty : Bool) (d closed : ℕ) (start : Bool) (out : Text)
    → json_begin (inside pretty (closed + d) closed start out)
      ≡ write (comma start ++ new_line pretty d) (inside pretty (closed + d) closed false out)
unfolding json_begin json_new_line json_separate json_write
json_begin_lem false d closed true out =
    sym (write-nil (inside false (closed + d) closed false out))
json_begin_lem false d closed false out = refl
json_begin_lem true d closed true out =
    ap (λ s. json_indent (closed + d - closed) (write (text "\n") s))
      (sym (write-nil (inside true (closed + d) closed false out)))
    ∙ indent_line d closed [] (inside true (closed + d) closed false out)
json_begin_lem true d closed false out =
    indent_line d closed (text ",") (inside true (closed + d) closed false out)

-- What an element writes in front of its value.
pub lead_lem :
    (pretty : Bool) (d closed : ℕ) (start : Bool) (out : Text) (key : Option Text)
    → json_write_key_and_semicolon key (json_begin (inside pretty (closed + d) closed start out))
      ≡ write
          ((comma start ++ new_line pretty d) ++ key_text pretty key)
          (inside pretty (closed + d) closed false out)
unfolding write
lead_lem pretty d closed start out key =
    let s = inside pretty (closed + d) closed false out in
    ap (json_write_key_and_semicolon key) (json_begin_lem pretty d closed start out)
    ∙ (json_write_key_and_semicolon_lem key (write (comma start ++ new_line pretty d) s)
        ∙ write-write (comma start ++ new_line pretty d) (key_text pretty key) s)

-- The end of a bracket writes a new line of the outer level and no comma.
pub json_end_with_lem :
    (pretty : Bool) (d closed : ℕ) (start : Bool) (out bracket : Text)
    → json_end_with bracket (inside pretty (closed + (d + 1)) closed start out)
      ≡ write
          (new_line pretty d ++ bracket)
          (inside pretty (closed + (d + 1)) (closed + 1) false out)
unfolding json_end_with json_new_line json_separate json_write
json_end_with_lem false d closed start out bracket = refl
json_end_with_lem true d closed start out bracket =
    let s = inside true (closed + (d + 1)) (closed + 1) false out in
    let level : closed + (d + 1) - (closed + 1) ≡ d = omega arith in
    ap (λ n. write bracket (json_indent n (write (text "\n") s))) level
    ∙ (ap (write bracket)
          (json_indent_lem d (write (text "\n") s) ∙ write-write (text "\n") (indent d) s)
        ∙ write-write (b'\n' ∷ indent d) bracket s)
