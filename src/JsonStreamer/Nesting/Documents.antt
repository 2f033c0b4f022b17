-- ===== src/JsonStreamer/Nesting/Documents.antt =====
-- What the calls for a whole document write, in plugins/config/lib/jsonStreamer.js.
use mathlib.Core.List.{append_assoc, append-nil}
use zlux_server_framework.Base.{
  ℕ, ◌+◌, Bool, true, false, Option, none, [], ◌∷◌, ◌++◌, ◌≡◌, refl, sym, ap, ◌∙◌, arith,
}
use zlux_server_framework.Base.Text.{Text, text, join_with}
use zlux_server_framework.JsonStreamer.Defs.{
  Streamer, json_streamer, write, json_write, json_write_quoted_string,
  json_write_key_and_semicolon, json_begin, json_start_with, json_start_object, json_start_array,
  json_end_object, json_end_array, json_add_string, json_add_int,
}
use zlux_server_framework.JsonStreamer.Nesting.{
  Bracket, braces, brackets, Tree, string, number, node, Entries, end, entry, start_of, end_of,
  emit, emit_all, new_line, quoted, key_text, opening, closing, render, parts,
}
use zlux_server_framework.JsonStreamer.Nesting.Pieces.{
  inside, comma, write-write, json_write_quoted_string_lem, lead_lem, json_end_with_lem,
}

-- What stands in front of a value.
abbrev lead : Bool → ℕ → Bool → Option Text → Text
lead pretty d start key = (comma start ++ new_line pretty d) ++ key_text pretty key

-- The entries of a bracket in the order in which they are written.
abbrev chunks : Bool → ℕ → Bool → Entries → Text
unfolding render
chunks pretty d start end = []
chunks pretty d start (entry key t entries) =
    (lead pretty d start key ++ render pretty d t) ++ chunks pretty d false entries

chunks_lem :
    (pretty : Bool) (d : ℕ) (entries : Entries)
    → chunks pretty d true entries ≡ join_with (text ",") (parts pretty d entries)
unfolding join_with render parts
chunks_lem pretty d end = refl
chunks_lem pretty d (entry key t end) = simp (append_assoc, append-nil)
chunks_lem pretty d (entry key t (entry key' t' entries)) =
    let value = render pretty d t in
    ap (λ front. front ++ b',' ∷ chunks pretty d true (entry key' t' entries))
      (append_assoc (new_line pretty d) (key_text pretty key) value)
    ∙ ap (λ rest. (new_line pretty d ++ (key_text pretty key ++ value)) ++ b',' ∷ rest)
        (chunks_lem pretty d (entry key' t' entries))

-- The streamer has come to a text, inside the same bracket.
record Reached (pretty : Bool) (d : ℕ) (start : Bool) (out : Text) (s : Streamer) : Type 0 where
  closed : ℕ
  same : s ≡ inside pretty (closed + d) closed start out

abbrev after : Bool → Entries → Bool
after start end = start
after start (entry key t entries) = false

after_lem : (entries : Entries) → after false entries ≡ false
after_lem end = refl
after_lem (entry key t entries) = refl

-- The start and the end of a bracket, around its entries.
json_start_with_lem :
    (pretty : Bool) (d closed : ℕ) (start : Bool) (out bracket : Text) (key : Option Text)
    → json_start_with bracket key (inside pretty (closed + d) closed start out)
      ≡ inside pretty (closed + (d + 1)) closed true (out ++ (lead pretty d start key ++ bracket))
unfolding json_start_with json_write write
json_start_with_lem pretty d closed start out bracket key =
    let level : closed + d + 1 ≡ closed + (d + 1) = omega arith in
    ap (λ s. record (write bracket s) { opened = s.opened + 1; is_start = true; is_end = false })
      (lead_lem pretty d closed start out key)
    ∙ (ap (λ o. inside pretty (closed + d + 1) closed true o)
          (append_assoc out (lead pretty d start key) bracket)
        ∙ ap (λ n. inside pretty n closed true (out ++ (lead pretty d start key ++ bracket))) level)

start_of_lem :
    (b : Bracket) (pretty : Bool) (d closed : ℕ) (start : Bool) (out : Text) (key : Option Text)
    → start_of b key (inside pretty (closed + d) closed start out)
      ≡ inside pretty (closed + (d + 1)) closed true (out ++ (lead pretty d start key ++ opening b))
unfolding json_start_object json_start_array
start_of_lem braces pretty d closed start out key =
    json_start_with_lem pretty d closed start out (text "{") key
start_of_lem brackets pretty d closed start out key =
    json_start_with_lem pretty d closed start out (text "[") key

end_of_lem :
    (b : Bracket) (pretty : Bool) (d closed : ℕ) (start : Bool) (out : Text)
    → end_of b (inside pretty (closed + (d + 1)) closed start out)
      ≡ write
          (new_line pretty d ++ closing b)
          (inside pretty (closed + (d + 1)) (closed + 1) false out)
unfolding json_end_object json_end_array
end_of_lem braces pretty d closed start out = json_end_with_lem pretty d closed start out (text "}")
end_of_lem brackets pretty d closed start out =
    json_end_with_lem pretty d closed start out (text "]")

-- The text around the entries of a bracket, put together.
around :
    (out front bracket entries back : Text)
    → (out ++ (front ++ bracket) ++ entries) ++ back
      ≡ out ++ (front ++ (bracket ++ (entries ++ back)))
around out front bracket entries back = simp append_assoc

-- The end of a bracket whose entries have been written.
end_of-Reached :
    (b : Bracket) (entries : Entries) (pretty : Bool) (d : ℕ) (out front : Text) (s : Streamer)
    → Reached pretty
        (d + 1)
        (after true entries)
        (out ++ (front ++ opening b) ++ chunks pretty (d + 1) true entries)
        s
    → Reached pretty d false (out ++ (front ++ render pretty d (node b entries))) (end_of b s)
unfolding render write
end_of-Reached b entries pretty d out front s inner =
    let back = new_line pretty d ++ closing b in
    let text_before = out ++ (front ++ opening b) ++ chunks pretty (d + 1) true entries in
    let level : inner.closed + (d + 1) ≡ inner.closed + 1 + d = omega arith in
    record {
      closed = inner.closed + 1;
      same =
          ap (end_of b) inner.same
          ∙ (end_of_lem b pretty d inner.closed (after true entries) text_before
              ∙ (ap (λ n. inside pretty n (inner.closed + 1) false (text_before ++ back)) level
                  ∙ ap (inside pretty (inner.closed + 1 + d) (inner.closed + 1) false) (
                      around out front (opening b) (chunks pretty (d + 1) true entries) back
                      ∙ ap (λ e. out ++ (front ++ (opening b ++ (e ++ back))))
                          (chunks_lem pretty (d + 1) entries))));
    }

mutual
  unfolding emit render write json_add_string json_add_int json_write

  emit-Reached :
      (key : Option Text) (t : Tree) (pretty : Bool) (d closed : ℕ) (start : Bool) (out : Text)
      → Reached pretty d false
          (out ++ (lead pretty d start key ++ render pretty d t))
          (emit key t (inside pretty (closed + d) closed start out))
  emit-Reached key (string v) pretty d closed start out = record {
    closed = closed;
    same =
        ap (json_write_quoted_string v) (lead_lem pretty d closed start out key)
        ∙ (json_write_quoted_string_lem v _
            ∙ write-write (lead pretty d start key) (quoted v)
                (inside pretty (closed + d) closed false out));
  }
  emit-Reached key (number v) pretty d closed start out = record {
    closed = closed;
    same =
        ap (write v) (lead_lem pretty d closed start out key)
        ∙ write-write (lead pretty d start key) v (inside pretty (closed + d) closed false out);
  }
  emit-Reached key (node b entries) pretty d closed start out =
      let front = lead pretty d start key in
      let inner =
        emit_all-Reached entries pretty (d + 1) closed true (out ++ (front ++ opening b)) in
      let shut =
        end_of-Reached b entries pretty d out front
          (emit_all entries
            (inside pretty (closed + (d + 1)) closed true (out ++ (front ++ opening b))))
          inner in
      record {
        closed = shut.closed;
        same =
            ap (λ s. end_of b (emit_all entries s)) (start_of_lem b pretty d closed start out key)
            ∙ shut.same;
      }

  emit_all-Reached :
      (entries : Entries) (pretty : Bool) (d closed : ℕ) (start : Bool) (out : Text)
      → Reached pretty d
          (after start entries)
          (out ++ chunks pretty d start entries)
          (emit_all entries (inside pretty (closed + d) closed start out))
  emit_all-Reached end pretty d closed start out = record {
    closed = closed;
    same = ap (inside pretty (closed + d) closed start) (sym (append-nil out));
  }
  emit_all-Reached (entry key t entries) pretty d closed start out =
      let first = emit-Reached key t pretty d closed start out in
      let piece = lead pretty d start key ++ render pretty d t in
      let others = emit_all-Reached entries pretty d first.closed false (out ++ piece) in
      record {
        closed = others.closed;
        same =
            ap (emit_all entries) first.same
            ∙ (others.same
                ∙ (ap
                      (λ a.
                        inside pretty (others.closed + d) others.closed a
                          (out ++ piece ++ chunks pretty d false entries))
                      (after_lem entries)
                    ∙ ap (inside pretty (others.closed + d) others.closed false)
                        (append_assoc out piece (chunks pretty d false entries))));
      }

start_of_first :
    (b : Bracket) (pretty : Bool)
    → start_of b none (json_streamer pretty) ≡ inside pretty (0 + (0 + 1)) 0 true (opening b)
unfolding json_start_object json_start_array json_start_with json_begin json_write_key_and_semicolon
    json_write write
start_of_first braces pretty = refl
start_of_first brackets pretty = refl

-- The calls for a document write, from a new streamer on, the printed document: at each level, parts
-- joined by single commas, none before the first or after the last one, each on its own line and
-- indented by its depth if `prettyPrint` is set.
pub emit-render :
    (pretty : Bool) (t : Tree) → (emit none t (json_streamer pretty)).out ≡ render pretty 0 t
unfolding emit render json_add_string json_add_int json_begin json_write_key_and_semicolon
    json_write_quoted_string json_write write
emit-render pretty (string v) = refl
emit-render pretty (number v) = refl
emit-render pretty (node b entries) =
    let shut =
      end_of-Reached b entries pretty 0 [] []
        (emit_all entries (inside pretty (0 + (0 + 1)) 0 true (opening b)))
        (emit_all-Reached entries pretty 1 0 true (opening b)) in
    ap (λ s. (end_of b (emit_all entries s)).out) (start_of_first b pretty)
    ∙ ap (λ (s : Streamer). s.out) shut.same
