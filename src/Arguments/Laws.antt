-- ===== src/Arguments/Laws.antt =====
-- What the arguments of utils/argumentParser.js match.
use zlux_server_framework.Base.{
  ℕ, suc, ◌+◌, true, Option, some, [], ◌∷◌, ◌++◌, ◌≡◌, refl, arith, ap, ◌∙◌, ltb, length,
  length-append,
}
use zlux_server_framework.Base.Text.{Text, text, has_prefix}
use zlux_server_framework.Arguments.Defs.{
  value, CliArgument, given, drop_chars, match_value, match_prefix, get_match,
}

has_prefix-append : (s t : Text) → has_prefix s (s ++ t) ≡ true
unfolding has_prefix
has_prefix-append [] t = refl
has_prefix-append (c ∷ s) t = ground (arith, has_prefix-append s t)

drop_chars-append : (s t : Text) → drop_chars (length s) (s ++ t) ≡ t
unfolding drop_chars
drop_chars-append [] t = refl
drop_chars-append (c ∷ s) t = drop_chars-append s t

drop_chars_further : (s t : Text) (c : ℕ) → drop_chars (length s + 1) (s ++ c ∷ t) ≡ t
unfolding drop_chars
drop_chars_further [] t c = refl
drop_chars_further (d ∷ s) t c =
    let level : suc (length s) + 1 ≡ suc (length s + 1) = omega arith in
    ap (λ n. drop_chars n (d ∷ (s ++ c ∷ t))) level ∙ drop_chars_further s t c

match_value-append :
    (prefix name v : Text) (next : Option Text)
    → match_value prefix name (prefix ++ b'=' ∷ v) next
      ≡ some (record { arg = name; found = given v; json_name = [] })
unfolding match_value
match_value-append prefix name v next =
    let longer : ltb (length prefix) (length (prefix ++ b'=' ∷ v)) ≡ true =
      ground (arith, length-append prefix (b'=' ∷ v)) in
    rw (longer, drop_chars-append prefix (b'=' ∷ v), drop_chars_further prefix v b'=') refl

-- `--name=text` gives the argument of that long name the text, whatever follows it on the line and
-- whatever the text is.
pub get_match_of_long :
    (a : CliArgument) (c : ℕ) (name v : Text) (next : Option Text)
    → a.long_name ≡ c ∷ name
    → a.type ≡ value
    → get_match a (text "--" ++ (c ∷ name) ++ b'=' ∷ v) next
      ≡ some (record { arg = c ∷ name; found = given v; json_name = [] })
unfolding get_match match_prefix
get_match_of_long a c name v next long is_value =
    rw (long, is_value, has_prefix-append (text "--" ++ (c ∷ name)) (b'=' ∷ v))
      (match_value-append (text "--" ++ (c ∷ name)) (c ∷ name) v next)
