-- ===== src/Arguments/Defs.antt =====
-- `CLIArgument` and the loop of `parse` in utils/argumentParser.js. `resolveJson`, and the test whether a
-- text is 1 as a number, are parameters.
use zlux_server_framework.Base.{
  ℕ, zero, suc, ◌+◌, ◌-◌, Bool, true, false, ◌&&◌, Option, none, some, [], ◌∷◌, ◌++◌, ltb, nat_eq,
  length, if◌then◌else◌,
}
use zlux_server_framework.Base.Text.{Text, text, has_prefix}

pub data ArgType : Type 0 where
  flag value json : ArgType

pub record CliArgument : Type 0 where
  pub long_name : Text
  pub short_name : Text
  pub type : ArgType

pub data MatchValue : Type 0 where
  yes absent : MatchValue
  given : Text → MatchValue

pub record Match : Type 0 where
  pub arg : Text
  pub found : MatchValue
  pub json_name : Text

-- `string.substr(n)`
unfoldable pub drop_chars : ℕ → Text → Text
drop_chars zero t = t
drop_chars (suc n) [] = []
drop_chars (suc n) (c ∷ t) = drop_chars n t

unfoldable pub take_chars : ℕ → Text → Text
take_chars zero t = []
take_chars (suc n) [] = []
take_chars (suc n) (c ∷ t) = c ∷ take_chars n t

-- `string.indexOf('=')`
unfoldable pub index_of_equals : Text → Option ℕ
index_of_equals [] = none
index_of_equals (c ∷ t) =
    let rest = index_of_equals t in
    if nat_eq c b'=' then some 0 else (elim rest [ none ↦ none | some i ↦ some (i + 1) ])

abbrev pub value_of : Option Text → MatchValue
value_of none = absent
value_of (some t) = given t

abbrev pub starts_with_equals : Text → Bool
starts_with_equals [] = false
starts_with_equals (c ∷ t) = nat_eq c b'='

-- The part behind the prefix of an argument of type JSON: up to its `=`, as the source counts it.
unfoldable pub match_json : Text → Text → Text → Option Text → Match
unfolding index_of_equals drop_chars take_chars
match_json prefix name string next = elim (index_of_equals string) [
  | some index ↦ record {
    arg = name;
    found = given (drop_chars (index + 1) string);
    json_name = take_chars (index - 2) (drop_chars (length prefix) string);
  }
  | none ↦ record {
    arg = name;
    found = value_of next;
    json_name = drop_chars (length prefix) string;
  }
]

-- `=` and a value, or nothing, behind the prefix.
unfoldable pub match_value : Text → Text → Text → Option Text → Option Match
unfolding drop_chars
match_value prefix name string next =
    let behind = drop_chars (length prefix) string in
    if ltb (length prefix) (length string) && starts_with_equals behind
    then some (record {
      arg = name;
      found = given (drop_chars (length prefix + 1) string);
      json_name = [];
    })
    else if nat_eq (length string) (length prefix)
    then some (record { arg = name; found = value_of next; json_name = [] })
    else none

-- What follows a prefix that the string starts with.
unfoldable pub match_prefix : ArgType → Text → Text → Text → Option Text → Option Match
unfolding match_json match_value
match_prefix flag prefix name string next =
    some (record { arg = name; found = yes; json_name = [] })
match_prefix json prefix name string next =
    if ltb (length prefix) (length string)
    then some (match_json prefix name string next)
    else match_value prefix name string next
match_prefix value prefix name string next = match_value prefix name string next

abbrev pub is_given : Text → Bool
is_given [] = false
is_given (c ∷ t) = true

-- A name that is empty has no prefix. The short prefix is tried only if the long one does not fit.
unfoldable pub get_match : CliArgument → Text → Option Text → Option Match
unfolding match_prefix has_prefix
get_match a string next =
    let name = if is_given a.long_name then a.long_name else a.short_name in
    let long_match = text "--" ++ a.long_name in
    let short_match = text "-" ++ a.short_name in
    if is_given a.long_name && has_prefix long_match string
    then match_prefix a.type long_match name string next
    else if is_given a.short_name && has_prefix short_match string
    then match_prefix a.type short_match name string next
    else none
