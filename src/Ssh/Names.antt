-- ===== src/Ssh/Names.antt =====
-- Lists of names in messages of plugins/terminal-proxy/lib/ssh.js, joined by commas and split again.
use Prim.Native.Nat.{◌%◌}
use zlux_server_framework.Base.{
  ◌<◌, false, List, [], ◌∷◌, ◌++◌, ◌≡◌, refl, ap, ◌∙◌, arith, All, nat_eq,
}
use zlux_server_framework.Base.Text.{Text, text, join_with, split_on, add_to_first}
use zlux_server_framework.Ssh.Pdu.{ascii}

-- Some names, each of ASCII characters and without a comma.
abbrev pub AreNames : List Text → Type 0
AreNames [] = ⊥
AreNames (name ∷ list) =
    All (λ name'. All (λ c. (c < 128) × (nat_eq c b',' ≡ false)) name') (name ∷ list)

ascii-same : (s : Text) → All (λ c. (c < 128) × (nat_eq c b',' ≡ false)) s → ascii s ≡ s
unfolding ascii
ascii-same [] h = refl
ascii-same (c ∷ s) (h, rest) =
    let same : c % 128 ≡ c = omega (arith, h.0) in
    ap (λ d. d ∷ ascii s) same ∙ ap (λ t. c ∷ t) (ascii-same s rest)

split_on-name :
    (name : Text)
    → All (λ c. (c < 128) × (nat_eq c b',' ≡ false)) name
    → split_on b',' name ≡ name ∷ []
unfolding split_on add_to_first
split_on-name [] h = refl
split_on-name (c ∷ name) (h, rest) = rw (h.1, split_on-name name rest) refl

split_on-first :
    (name rest : Text)
    → All (λ c. (c < 128) × (nat_eq c b',' ≡ false)) name
    → split_on b',' (name ++ b',' ∷ rest) ≡ name ∷ split_on b',' rest
unfolding split_on add_to_first
split_on-first [] s h = refl
split_on-first (c ∷ name) s (h, rest) = rw (h.1, split_on-first name s rest) refl

ascii-append : (s t : Text) → ascii (s ++ t) ≡ ascii s ++ ascii t
unfolding ascii
ascii-append [] t = refl
ascii-append (c ∷ s) t = ap (λ l. c % 128 ∷ l) (ascii-append s t)

pub names_back :
    (list : List Text) → AreNames list → split_on b',' (ascii (join_with (text ",") list)) ≡ list
unfolding join_with ascii
names_back [] h = absurd h
names_back (name ∷ []) (h, hs) = rw (ascii-same name h) (split_on-name name h)
names_back (name ∷ next ∷ list) (h, hs) =
    let rest = join_with (text ",") (next ∷ list) in
    ap (split_on b',')
      (ascii-append name (b',' ∷ rest) ∙ ap (λ l. l ++ ascii (b',' ∷ rest)) (ascii-same name h))
    ∙ (ascii_comma ∙ ap (λ l. name ∷ l) (names_back (next ∷ list) hs))
  where
    ascii_comma :
        split_on b',' (name ++ ascii (b',' ∷ join_with (text ",") (next ∷ list)))
        ≡ name ∷ split_on b',' (ascii (join_with (text ",") (next ∷ list)))
    ascii_comma = split_on-first name (ascii (join_with (text ",") (next ∷ list))) h
