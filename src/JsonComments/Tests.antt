-- ===== src/JsonComments/Tests.antt =====
-- lib/jsonUtils.js on small inputs.
use zlux_server_framework.Base.{[], ◌∷◌, ◌++◌, ◌≡◌, refl}
use zlux_server_framework.Base.Text.{Text, text, split_on}
use zlux_server_framework.JsonComments.Defs.{strip_line, clean_json}
use zlux_server_framework.JsonComments.Laws.{Code, strip_line-Code, clean_json-Code}
use zlux_server_framework.JsonComments.Cuts.{Cut, strip_line-Cut}

-- `"a//"/1`
quoted_slashes : Code (text "\"a//\"/1")
quoted_slashes =
    Code.quoted b'"' (text "a//") (text "/1") refl (refl, (refl, (refl, tt)))
      (Code.slash b'1' [] refl (Code.plain b'1' [] refl refl Code.end))

strip_line-Code_example : strip_line (text "\"a//\"/1// note") ≡ text "\"a//\"/1"
strip_line-Code_example = strip_line-Code (text "\"a//\"/1") (text " note") quoted_slashes

abbrev two_lines : Text
two_lines = text "\"a//\"/1" ++ b'\n' ∷ []

clean_json-Code_example : clean_json two_lines ≡ two_lines ++ b'\n' ∷ []
unfolding split_on
clean_json-Code_example = clean_json-Code two_lines (quoted_slashes, (Code.end, tt))

-- A quotation with `//` behind an escaped quote character is cut: `ignoreNext`, which the backslash
-- sets, is reset at the end of the same body of the loop.
escaped_quote : strip_line (text "\"a\\\"//b\"") ≡ text "\"a\\\""
unfolding strip_line
escaped_quote = refl

strip_line-Cut_example : Cut (text "\"a//b\" // y") (strip_line (text "\"a//b\" // y"))
strip_line-Cut_example = strip_line-Cut (text "\"a//b\" // y")
