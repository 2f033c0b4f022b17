-- ===== src/Arguments/Tests.antt =====
-- utils/argumentParser.js on small inputs.
use zlux_server_framework.Base.{Bool, false, none, some, List, [], ◌∷◌, ◌≡◌, refl}
use zlux_server_framework.Base.Text.{Text, text, same_text}
use zlux_server_framework.Arguments.Defs.{flag, value, json, CliArgument, yes, given, get_match}
use zlux_server_framework.Arguments.Parse.{parse}

abbrev port : CliArgument
port = record { long_name = text "port"; short_name = text "p"; type = value }

abbrev is_one : Text → Bool
is_one t = same_text t (text "1")

abbrev valid : List CliArgument
valid = port ∷ record { long_name = text "quiet"; short_name = text "q"; type = flag } ∷ []

parse-valid :
    parse is_one
      (λ v. v)
      (λ old m. m.found)
      valid
      (text "-p" ∷ text "80" ∷ text "nothing" ∷ text "--quiet" ∷ [])
      false
      []
    ≡ (text "port", given (text "80")) ∷ (text "quiet", yes) ∷ []
unfolding parse same_text
parse-valid = refl

-- Behind a long name, the name of a JSON part is counted with the index of `=` less 2, as behind a short
-- one of one letter, and runs into the value.
get_match-json :
    get_match
      (record { long_name = text "conf"; short_name = text "D"; type = json })
      (text "--conf.a=1")
      none
    ≡ some (record { arg = text "conf"; found = given (text "1"); json_name = text ".a=1" })
unfolding get_match
get_match-json = refl
