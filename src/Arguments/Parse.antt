-- ===== src/Arguments/Parse.antt =====
-- The loop of `ArgumentParser` in utils/argumentParser.js. `resolveJson`, and the test whether a text is
-- 1 as a number, are parameters.
use zlux_server_framework.Base.{
  Bool, true, false, ◌&&◌, Option, none, some, List, [], ◌∷◌, if◌then◌else◌,
}
use zlux_server_framework.Base.Text.{Text, same_text}
use zlux_server_framework.Arguments.Defs.{
  CliArgument, MatchValue, yes, absent, given, Match, is_given, get_match,
}

-- `result.arg && result.value`
abbrev pub is_usable : Match → Bool
is_usable m =
    is_given m.arg && (elim m.found [ yes ↦ true | absent ↦ false | given t ↦ is_given t ])

-- The first valid argument with a usable match.
unfoldable pub first_match : List CliArgument → Text → Option Text → Option Match
unfolding get_match
first_match [] arg next = none
first_match (a ∷ valid) arg next =
    let others = first_match valid arg next in
    elim (get_match a arg next) [ none ↦ others | some m ↦ if is_usable m then some m else others ]

-- `result.value == args[i + 1]`, where true is equal to what is 1 as a number.
unfoldable pub is_consumed : (Text → Bool) → MatchValue → Option Text → Bool
unfolding same_text
is_consumed is_one found none = false
is_consumed is_one yes (some next) = is_one next
is_consumed is_one absent (some next) = false
is_consumed is_one (given t) (some next) = same_text t next

abbrev pub first_of : List Text → Option Text
first_of [] = none
first_of (arg ∷ args) = some arg

abbrev pub Values : Type 0 → Type 0
Values V = List (Text × V)

module _ {Value : Type 0} where
  unfoldable pub value_at : Text → Values Value → Option Value
  unfolding same_text
  value_at name [] = none
  value_at name ((n, v) ∷ values) = if same_text n name then some v else value_at name values

  unfoldable pub put_value : Text → Value → Values Value → Values Value
  unfolding same_text
  put_value name v [] = (name, v) ∷ []
  put_value name v ((n, old) ∷ values) =
      if same_text n name then (n, v) ∷ values else (n, old) ∷ put_value name v values

  -- What one argument assigns, and whether the next one is skipped.
  unfoldable pub assign_match :
      (Text → Bool)
      → (MatchValue → Value)
      → (Option Value → Match → Value)
      → Option Match
      → Option Text
      → Values Value
      → Values Value × Bool
  unfolding value_at put_value is_consumed
  assign_match is_one plain resolve_json none next values = (values, false)
  assign_match is_one plain resolve_json (some m) next values =
      if is_given m.json_name
      then (put_value m.arg (resolve_json (value_at m.arg values) m) values, false)
      else (put_value m.arg (plain m.found) values, is_consumed is_one m.found next)

  -- The loop over the arguments.
  unfoldable pub parse :
      (Text → Bool)
      → (MatchValue → Value)
      → (Option Value → Match → Value)
      → List CliArgument
      → List Text
      → Bool
      → Values Value
      → Values Value
  unfolding first_match assign_match
  parse is_one plain resolve_json valid [] skip values = values
  parse is_one plain resolve_json valid (arg ∷ args) skip values =
      let next = first_of args in
      let done =
        if skip
        then (values, false)
        else assign_match is_one plain resolve_json (first_match valid arg next) next values in
      parse is_one plain resolve_json valid args done.1 done.0
