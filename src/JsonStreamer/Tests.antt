-- ===== src/JsonStreamer/Tests.antt =====
-- plugins/config/lib/jsonStreamer.js on small inputs.
use zlux_server_framework.Base.{false, none, some, [], ◌++◌, ◌≡◌, refl, inl, inr, arith, ◌∷◌}
use zlux_server_framework.Base.Text.{text}
use zlux_server_framework.JsonStreamer.Defs.{
  json_streamer, escaped_string, json_start, json_add_int, json_end,
}
use zlux_server_framework.JsonStreamer.Escapes.{read_string, read_string-escaped_string}
use zlux_server_framework.JsonStreamer.Nesting.{
  braces, brackets, Tree, string, number, node, end, entry, emit, render,
}
use zlux_server_framework.JsonStreamer.Nesting.Documents.{emit-render}

read_string-escaped_string_example :
    read_string false (escaped_string (text "a\"b\n") ++ text "\": 1")
    ≡ some (text "a\"b\n", text ": 1")
read_string-escaped_string_example =
    read_string-escaped_string (text "a\"b\n") (text ": 1")
      (inl (omega arith), (inl (omega arith), (inl (omega arith), (inr (inl refl), tt))))

-- A tab is written as it is, and what is written is no JSON.
read_string-tab : read_string false (escaped_string (9 ∷ []) ++ text "\"") ≡ none
unfolding read_string escaped_string
read_string-tab = refl

abbrev document : Tree
document = node braces (
    entry (some (text "n")) (number (text "1")) (
      entry (some (text "l"))
        (node brackets (entry none (string (text "x")) (entry none (node braces end) end))) end))

emit-render_example : (emit none document (json_streamer false)).out ≡ render false 0 document
emit-render_example = emit-render false document

render-document : render false 0 document ≡ text "{\"n\":1,\"l\":[\"x\",{}]}"
unfolding render
render-document = refl

-- A member under an empty key is written without it.
json_add_int-empty :
    (json_end (json_add_int (some []) (text "1") (json_start (json_streamer false)))).out
    ≡ text "{1}"
unfolding json_end json_add_int json_start
json_add_int-empty = refl
