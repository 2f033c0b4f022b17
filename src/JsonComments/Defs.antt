-- ===== src/JsonComments/Defs.antt =====
-- `readJSONStringWithComments` of lib/jsonUtils.js. `JSON.parse` is a parameter.
use zlux_server_framework.Base.{
  ℕ, Bool, true, false, ◌&&◌, ◌||◌, not, Option, none, some, List, [], ◌∷◌, ◌++◌, nat_eq,
  if◌then◌else◌,
}
use zlux_server_framework.Base.Outcome.{Outcome}
use zlux_server_framework.Base.Text.{Text, split_on}

-- The variables of the loop over a line: `quoteType`, which is there when `inQuote` holds, and
-- `ignoreNext`.
pub record Scan : Type 0 where
  pub quote_type : Option ℕ
  pub ignore_next : Bool

abbrev pub in_quote : Scan → Bool
in_quote s = elim s.quote_type [ none ↦ false | some q ↦ true ]

abbrev pub is_quote : ℕ → Bool
is_quote c = nat_eq c b'"' || nat_eq c b'\''

-- A quote character opens a quotation, closes the one it has opened, or stands in another one.
unfoldable pub toggle : Option ℕ → ℕ → Option ℕ
toggle none c = some c
toggle (some q) c = if nat_eq q c then none else some q

-- The end of the loop's body: `if (ignoreNext) ignoreNext = false`
unfoldable pub end_of_body : Scan → Scan
end_of_body s = if s.ignore_next then record s { ignore_next = false } else s

-- The loop's body, but for the test on `//`. On an ignored quote it ends early, by `continue`.
unfoldable pub step : Scan → ℕ → Scan
unfolding toggle end_of_body
step s c =
    if is_quote c
    then (if s.ignore_next
        then record s { ignore_next = false }
        else end_of_body (record s { quote_type = toggle s.quote_type c }))
    else if in_quote s && nat_eq c b'\\'
    then end_of_body (record s { ignore_next = true })
    else end_of_body s

-- `!inQuote && c === '/' && line[i+1] === '/'`. The loop stops before the last character.
unfoldable pub opens_comment : Scan → ℕ → Text → Bool
opens_comment s c [] = false
opens_comment s c (d ∷ t) = not (in_quote s) && (nat_eq c b'/' && nat_eq d b'/')

-- What of the line stands in front of `slashSlashPos`.
unfoldable pub kept : Scan → Text → Text
unfolding opens_comment step
kept s [] = []
kept s (c ∷ t) = let rest = kept (step s c) t in if opens_comment s c t then [] else c ∷ rest

abbrev pub outside : Scan
outside = record { quote_type = none; ignore_next = false }

unfoldable pub strip_line : Text → Text
unfolding kept
strip_line line = kept outside line

unfoldable pub strip_lines : List Text → Text
unfolding strip_line
strip_lines [] = []
strip_lines (line ∷ lines) = strip_line line ++ (b'\n' ∷ strip_lines lines)

-- `cleanJSON`
unfoldable pub clean_json : Text → Text
unfolding strip_lines split_on
clean_json contents = strip_lines (split_on b'\n' contents)

unfoldable pub read_json_string_with_comments :
    {Json Error : Type 0} → (Text → Outcome Error Json) → Text → Outcome Error Json
unfolding clean_json
read_json_string_with_comments parse contents = parse (clean_json contents)
