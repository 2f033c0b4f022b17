-- ===== src/JsonComments/Laws.antt =====
-- What `readJSONStringWithComments` of lib/jsonUtils.js keeps of a line and of a text.
use mathlib.Core.List.{append_assoc, append-nil}
use zlux_server_framework.Base.{
  ℕ, true, false, ◌&&◌, Option, none, some, List, [], ◌∷◌, ◌++◌, ◌≡◌, refl, sym, ap, ◌∙◌, arith,
  inl, inr, nat_eq, All, Bool-cases, if_ind, if◌then◌else◌,
}
use zlux_server_framework.Base.Text.{Text, split_on, add_to_first}
use zlux_server_framework.JsonComments.Defs.{
  Scan, in_quote, is_quote, toggle, end_of_body, step, opens_comment, kept, outside, strip_line,
  strip_lines, clean_json,
}

abbrev pub ignoring_none : Option ℕ → Scan
ignoring_none q = record { quote_type = q; ignore_next = false }

abbrev pub next_quote : Option ℕ → ℕ → Option ℕ
unfolding toggle
next_quote q c = if is_quote c then toggle q c else q

-- The body of the loop on a state that ignores nothing.
step-ignoring_none :
    (q : Option ℕ) (c : ℕ) → step (ignoring_none q) c ≡ ignoring_none (next_quote q c)
unfolding step end_of_body toggle
step-ignoring_none q c =
    if_ind (λ s. s ≡ ignoring_none (next_quote q c)) (is_quote c) (λ quote. rw quote refl)
      (λ other. rw other (
        if_ind (λ s. s ≡ ignoring_none q) (in_quote (ignoring_none q) && nat_eq c b'\\')
          (λ back. refl) (λ front. refl)))

pub next_quote_of_quote : (c : ℕ) → is_quote c ≡ true → next_quote none c ≡ some c
unfolding next_quote toggle
next_quote_of_quote c is = rw is refl

pub next_quote_of_other : (q : Option ℕ) (c : ℕ) → is_quote c ≡ false → next_quote q c ≡ q
unfolding next_quote toggle
next_quote_of_other q c is = rw is refl

pub kept-cons :
    (q : Option ℕ) (c : ℕ) (t : Text)
    → opens_comment (ignoring_none q) c t ≡ false
    → kept (ignoring_none q) (c ∷ t) ≡ c ∷ kept (ignoring_none (next_quote q c)) t
unfolding kept
kept-cons q c t shut = rw (shut, step-ignoring_none q c) refl

pub opens-quoted : (q c : ℕ) (t : Text) → opens_comment (ignoring_none (some q)) c t ≡ false
unfolding opens_comment
opens-quoted q c [] = refl
opens-quoted q c (d ∷ t) = refl

pub opens_of_first :
    (q : Option ℕ) (c : ℕ) (t : Text)
    → nat_eq c b'/' ≡ false
    → opens_comment (ignoring_none q) c t ≡ false
unfolding opens_comment
opens_of_first q c [] h = refl
opens_of_first q c (d ∷ t) h = ground (arith, h)

pub opens_of_second :
    (q : Option ℕ) (c d : ℕ) (t : Text)
    → nat_eq d b'/' ≡ false
    → opens_comment (ignoring_none q) c (d ∷ t) ≡ false
unfolding opens_comment
opens_of_second q c d t h = ground (arith, h)

-- No `//` and no slash at the end stands outside a quotation, and each quotation is closed. A quotation
-- ends at the next character that is its quote character, escaped or not; it holds none.
pub data Code : Text → Type 0 where
  end : Code []
  plain : (c : ℕ) (t : Text) → is_quote c ≡ false → nat_eq c b'/' ≡ false → Code t → Code (c ∷ t)
  slash : (d : ℕ) (t : Text) → nat_eq d b'/' ≡ false → Code (d ∷ t) → Code (b'/' ∷ d ∷ t)
  quoted :
      (q : ℕ) (body t : Text)
      → is_quote q ≡ true
      → All (λ c. nat_eq q c ≡ false) body
      → Code t
      → Code (q ∷ (body ++ q ∷ t))

pub next_quote-same : (q c : ℕ) → nat_eq q c ≡ false → next_quote (some q) c ≡ some q
unfolding toggle
next_quote-same q c h = ground (arith, h)

pub next_quote-shut : (q : ℕ) → is_quote q ≡ true → next_quote (some q) q ≡ none
unfolding toggle
next_quote-shut q h = ground (arith, h)

kept-quotation :
    (q : ℕ) (body t : Text)
    → is_quote q ≡ true
    → All (λ c. nat_eq q c ≡ false) body
    → kept (ignoring_none (some q)) (body ++ q ∷ t) ≡ body ++ q ∷ kept outside t
kept-quotation q [] t is h =
    kept-cons (some q) q t (opens-quoted q q t)
    ∙ ap (λ o. q ∷ kept (ignoring_none o) t) (next_quote-shut q is)
kept-quotation q (b ∷ body) t is h =
    kept-cons (some q) b (body ++ q ∷ t) (opens-quoted q b (body ++ q ∷ t))
    ∙ (ap (λ o. b ∷ kept (ignoring_none o) (body ++ q ∷ t)) (next_quote-same q b h.0)
        ∙ ap (λ l. b ∷ l) (kept-quotation q body t is h.1))

-- What follows a piece of code is scanned as if it stood at the start of the line.
kept-Code : (s : Text) (t : Text) → Code s → kept outside (s ++ t) ≡ s ++ kept outside t
unfolding toggle
kept-Code s t (Code.end) = refl
kept-Code s t (Code.plain c s' not_quote not_slash more) =
    kept-cons none c (s' ++ t) (opens_of_first none c (s' ++ t) not_slash)
    ∙ (ap (λ b. c ∷ kept (ignoring_none (if b then some c else none)) (s' ++ t)) not_quote
        ∙ ap (λ l. c ∷ l) (kept-Code s' t more))
kept-Code s t (Code.slash d s' not_slash more) =
    kept-cons none b'/' (d ∷ (s' ++ t)) (opens_of_second none b'/' d (s' ++ t) not_slash)
    ∙ ap (λ l. b'/' ∷ l) (kept-Code (d ∷ s') t more)
kept-Code s t (Code.quoted q body s' is body_free more) =
    rw (append_assoc body (q ∷ s') t, append_assoc body (q ∷ s') (kept outside t))
      (kept-cons none q (body ++ q ∷ (s' ++ t))
          (opens_of_first none q (body ++ q ∷ (s' ++ t)) (ground (arith, is)))
        ∙ (ap (λ b. q ∷ kept (ignoring_none (if b then some q else none)) (body ++ q ∷ (s' ++ t)))
              is
            ∙ (ap (λ l. q ∷ l) (kept-quotation q body (s' ++ t) is body_free)
                ∙ ap (λ l. q ∷ (body ++ q ∷ l)) (kept-Code s' t more))))

-- A comment behind a piece of code is cut off, and the code is kept as it is, with the `//` in its
-- quotations. In the code no `//` and no slash at the end stands outside a quotation, and each quotation
-- is closed and holds no quote character of its own kind, not even an escaped one.
pub strip_line-Code :
    (code comment : Text) → Code code → strip_line (code ++ (b'/' ∷ b'/' ∷ comment)) ≡ code
unfolding strip_line kept opens_comment
strip_line-Code code comment is = kept-Code code (b'/' ∷ b'/' ∷ comment) is ∙ append-nil code

pub strip_line_of_Code : (code : Text) → Code code → strip_line code ≡ code
unfolding strip_line kept
strip_line_of_Code code is =
    ap (kept outside) (sym (append-nil code)) ∙ (kept-Code code [] is ∙ append-nil code)

-- The lines, each with its end.
abbrev pub ended : List Text → Text
ended [] = []
ended (line ∷ lines) = line ++ (b'\n' ∷ ended lines)

strip_lines-Code : (lines : List Text) → All Code lines → strip_lines lines ≡ ended lines
unfolding strip_lines
strip_lines-Code [] is = refl
strip_lines-Code (line ∷ lines) is =
    rw (strip_line_of_Code line is.0, strip_lines-Code lines is.1) refl

split_on-cons :
    (sep : ℕ) (t : Text) → (line : Text) × ((lines : List Text) × (split_on sep t ≡ line ∷ lines))
unfolding split_on add_to_first
split_on-cons sep [] = ([], ([], refl))
split_on-cons sep (c ∷ t) =
    let (line, (lines, e)) = split_on-cons sep t in
    elim (Bool-cases (nat_eq c sep)) [
      | inl new ↦ ([], (split_on sep t, (rw new refl)))
      | inr old ↦ (c ∷ line, (lines, (rw (old, e) refl)))
    ]

ended-split_on : (t : Text) → ended (split_on b'\n' t) ≡ t ++ b'\n' ∷ []
unfolding split_on add_to_first
ended-split_on [] = refl
ended-split_on (c ∷ t) =
    let (line, (lines, e)) = split_on-cons b'\n' t in
    let rest = ended-split_on t in
    elim (Bool-cases (nat_eq c b'\n')) [
      | inl new ↦ ground (arith, new, rest)
      | inr old ↦ rw (old, e) (ap (λ l. c ∷ l) (ap ended (sym e) ∙ rest))
    ]

-- A text is handed to the parser as it is, with one more newline at its end, if in each of its lines no
-- `//` and no slash at the end stands outside a quotation, and each quotation is closed on its line and
-- holds no quote character of its own kind, not even an escaped one.
pub clean_json-Code :
    (contents : Text)
    → All Code (split_on b'\n' contents)
    → clean_json contents ≡ contents ++ b'\n' ∷ []
unfolding clean_json
clean_json-Code contents is =
    strip_lines-Code (split_on b'\n' contents) is ∙ ended-split_on contents
