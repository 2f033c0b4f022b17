-- ===== src/JsonStreamer/Escapes.antt =====
-- The strings that plugins/config/lib/jsonStreamer.js writes can be read back.
use mathlib.Core.Path.{subst}
use mathlib.Core.List.{append_assoc}
use zlux_server_framework.Base.{
  ℕ, Bool, true, false, Option, none, some, [], ◌∷◌, ◌++◌, ◌≡◌, ◌≤◌, ◌⊎◌, ◌||◌, All, refl, ap, ◌∙◌,
  arith, inl, inr, ltb, nat_eq, Bool-cases, if_ind, if◌then◌else◌,
}
use zlux_server_framework.Base.Text.{Text}
use zlux_server_framework.JsonStreamer.Defs.{
  special_char_count, escape_char, escape, escaped_string,
}

-- The character that an escape sequence of JSON stands for, by the character behind the backslash; there
-- are no others but those of a code behind `u`, which are not read here.
unfoldable pub unescape_char : ℕ → Option ℕ
unescape_char c =
    if nat_eq c b'"' || (nat_eq c b'\\' || nat_eq c b'/')
    then some c
    else if nat_eq c b'n'
    then some b'\n'
    else if nat_eq c b'r'
    then some b'\r'
    else if nat_eq c b't'
    then some 9
    else if nat_eq c b'b'
    then some 8
    else if nat_eq c b'f'
    then some 12
    else none

abbrev add_to : Option ℕ → Option (Text × Text) → Option (Text × Text)
add_to none read = none
add_to (some c) none = none
add_to (some c) (some (s, rest)) = some (c ∷ s, rest)

-- The characters of a quoted string up to its closing quote, and the rest, as JSON has it. After a
-- backslash, the next character is read as an escape sequence; a control character must not stand there
-- by itself.
unfoldable pub read_string : Bool → Text → Option (Text × Text)
unfolding unescape_char
read_string after [] = none
read_string true (c ∷ t) = add_to (unescape_char c) (read_string false t)
read_string false (c ∷ t) =
    let escaped = read_string true t in
    let plain = read_string false t in
    if nat_eq c b'"'
    then some ([], t)
    else if nat_eq c b'\\'
    then escaped
    else if ltb c 32
    then none
    else add_to (some c) plain

-- The only control characters are the two ends of lines.
abbrev pub IsWritable : Text → Type 0
IsWritable s = All (λ c. (32 ≤ c) ⊎ ((c ≡ b'\n') ⊎ (c ≡ b'\r'))) s

read_string-escape_char_printed :
    (c : ℕ) (t : Text)
    → 32 ≤ c
    → read_string false (escape_char c ++ t) ≡ add_to (some c) (read_string false t)
unfolding read_string escape_char unescape_char
read_string-escape_char_printed c t printed =
    let more : nat_eq c b'\n' ≡ false = ground (arith, printed) in
    let others : nat_eq c b'\r' ≡ false = ground (arith, printed) in
    let no_control : ltb c 32 ≡ false = ground (arith, printed) in
    elim (Bool-cases (nat_eq c b'"')) [
      | inl quote ↦ let same : b'"' ≡ c = ground (arith, quote) in rw (← same) refl
      | inr unquoted ↦ elim (Bool-cases (nat_eq c b'\\')) [
        | inl backslash ↦ let same : b'\\' ≡ c = ground (arith, backslash) in rw (← same) refl
        | inr plain ↦
            rw (more, others, unquoted, plain) (rw (read_string, unquoted, plain, no_control) refl)
      ]
    ]

read_string-escape_char :
    (c : ℕ) (t : Text)
    → (32 ≤ c) ⊎ ((c ≡ b'\n') ⊎ (c ≡ b'\r'))
    → read_string false (escape_char c ++ t) ≡ add_to (some c) (read_string false t)
unfolding read_string escape_char unescape_char
read_string-escape_char c t (inl printed) = read_string-escape_char_printed c t printed
read_string-escape_char c t (inr (inl newline)) = rw newline refl
read_string-escape_char c t (inr (inr return)) = rw return refl

read_string-escape :
    (s rest : Text) → IsWritable s → read_string false (escape s ++ b'"' ∷ rest) ≡ some (s, rest)
unfolding escape read_string
read_string-escape [] rest h = refl
read_string-escape (c ∷ s) rest (h, hs) =
    rw (append_assoc (escape_char c) (escape s) (b'"' ∷ rest)) (
      read_string-escape_char c (escape s ++ b'"' ∷ rest) h
      ∙ ap (add_to (some c)) (read_string-escape s rest hs))

escape_of_plain : (s : Text) → special_char_count s ≡ 0 → escape s ≡ s
unfolding escape special_char_count escape_char
escape_of_plain [] h = refl
escape_of_plain (c ∷ s) h = ground (arith, h, escape_of_plain s (ground (arith, h)))

-- What is written for a string, between its quotes, is read back by a reader of JSON as that string,
-- whether it has special characters or not, and the reader stops at the closing quote. The string has no
-- control characters but the two ends of lines: the others are written as they are, which is no JSON.
pub read_string-escaped_string :
    (s rest : Text)
    → IsWritable s
    → read_string false (escaped_string s ++ b'"' ∷ rest) ≡ some (s, rest)
unfolding escaped_string
read_string-escaped_string s rest h =
    if_ind (λ t. read_string false (t ++ b'"' ∷ rest) ≡ some (s, rest))
      (ltb 0 (special_char_count s)) (λ special. read_string-escape s rest h)
      (λ plain.
        subst (λ t. read_string false (t ++ b'"' ∷ rest) ≡ some (s, rest))
          (escape_of_plain s (ground (arith, plain))) (read_string-escape s rest h))
