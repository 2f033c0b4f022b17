-- ===== src/JsonComments/Cuts.antt =====
-- Where `readJSONStringWithComments` of lib/jsonUtils.js cuts a line, whatever the line is.
use mathlib.Core.Path.{subst}
use zlux_server_framework.Base.{
  ℕ, true, false, Option, none, some, [], ◌∷◌, ◌++◌, ◌≡◌, sym, ap, ◌∙◌, arith, inl, inr, nat_eq,
  All, Bool-cases,
}
use zlux_server_framework.Base.Text.{Text}
use zlux_server_framework.JsonComments.Defs.{is_quote, opens_comment, kept, strip_line}
use zlux_server_framework.JsonComments.Laws.{
  ignoring_none, kept-cons, opens-quoted, opens_of_first, opens_of_second, next_quote-same,
  next_quote-shut, next_quote_of_quote, next_quote_of_other,
}

-- A line and what is left of it. A quotation goes from a quote character to the next one of its kind,
-- escaped or not, and is left as it is; one that is not closed goes to the end of the line. The first
-- `//` outside the quotations is cut off with all that follows. A slash alone is left.
pub data Cut : Text → Text → Type 0 where
  end : Cut [] []
  last_slash : Cut (b'/' ∷ []) (b'/' ∷ [])
  comment : (t : Text) → Cut (b'/' ∷ b'/' ∷ t) []
  plain :
      (c : ℕ) (t front : Text)
      → is_quote c ≡ false
      → nat_eq c b'/' ≡ false
      → Cut t front
      → Cut (c ∷ t) (c ∷ front)
  slash :
      (d : ℕ) (t front : Text)
      → nat_eq d b'/' ≡ false
      → Cut (d ∷ t) front
      → Cut (b'/' ∷ d ∷ t) (b'/' ∷ front)
  open_quotation :
      (q : ℕ) (body : Text)
      → is_quote q ≡ true
      → All (λ c. nat_eq q c ≡ false) body
      → Cut (q ∷ body) (q ∷ body)
  quotation :
      (q : ℕ) (body t front : Text)
      → is_quote q ≡ true
      → All (λ c. nat_eq q c ≡ false) body
      → Cut t front
      → Cut (q ∷ (body ++ q ∷ t)) (q ∷ (body ++ q ∷ front))

-- What follows the quote character `q` that opens a quotation, and what is left of that.
data InQuotation (q : ℕ) : Text → Text → Type 0 where
  not_closed : (body : Text) → All (λ c. nat_eq q c ≡ false) body → InQuotation q body body
  closed :
      (body t front : Text)
      → All (λ c. nat_eq q c ≡ false) body
      → Cut t front
      → InQuotation q (body ++ q ∷ t) (body ++ q ∷ front)

InQuotation-cons :
    (q c : ℕ) (t front : Text)
    → nat_eq q c ≡ false
    → InQuotation q t front
    → InQuotation q (c ∷ t) (c ∷ front)
InQuotation-cons q c t front e (InQuotation.not_closed body h) =
    InQuotation.not_closed (c ∷ body) (e, h)
InQuotation-cons q c t front e (InQuotation.closed body t' front' h more) =
    InQuotation.closed (c ∷ body) t' front' (e, h) more

quotation_of :
    (q : ℕ) (t front : Text) → is_quote q ≡ true → InQuotation q t front → Cut (q ∷ t) (q ∷ front)
quotation_of q t front is (InQuotation.not_closed body h) = Cut.open_quotation q body is h
quotation_of q t front is (InQuotation.closed body t' front' h more) =
    Cut.quotation q body t' front' is h more

-- What the scanner leaves, outside a quotation and in one.
abbrev Left : Option ℕ → Text → Type 0
Left none t = Cut t (kept (ignoring_none none) t)
Left (some q) t = is_quote q ≡ true → InQuotation q t (kept (ignoring_none (some q)) t)

scan_behind_slash : (t : Text) → Left none t → Left none (b'/' ∷ t)
unfolding kept opens_comment
scan_behind_slash [] more = Cut.last_slash
scan_behind_slash (d ∷ t) more = elim (Bool-cases (nat_eq d b'/')) [
  | inl second ↦ let same : b'/' ≡ d = ground (arith, second) in rw (← same) (Cut.comment t)
  | inr other ↦
      subst (Cut (b'/' ∷ d ∷ t))
        (sym (kept-cons none b'/' (d ∷ t) (opens_of_second none b'/' d t other)))
        (Cut.slash d t _ other more)
]

scan_in_quotation : (q c : ℕ) (t : Text) → ((o : Option ℕ) → Left o t) → Left (some q) (c ∷ t)
scan_in_quotation q c t more is =
    let scanned = kept-cons (some q) c t (opens-quoted q c t) in
    elim (Bool-cases (nat_eq q c)) [
      | inl shuts ↦
          let same : q ≡ c = ground (arith, shuts) in
          subst (λ d. InQuotation q (d ∷ t) (kept (ignoring_none (some q)) (d ∷ t))) same
            (subst (InQuotation q (q ∷ t))
              (sym (
                kept-cons (some q) q t (opens-quoted q q t)
                ∙ ap (λ o. q ∷ kept (ignoring_none o) t) (next_quote-shut q is)))
              (InQuotation.closed [] t _ tt (more none)))
      | inr inside ↦
          subst (InQuotation q (c ∷ t))
            (sym (scanned ∙ ap (λ o. c ∷ kept (ignoring_none o) t) (next_quote-same q c inside)))
            (InQuotation-cons q c t _ inside (more (some q) is))
    ]

scan_outside : (c : ℕ) (t : Text) → ((o : Option ℕ) → Left o t) → Left none (c ∷ t)
scan_outside c t more = elim (Bool-cases (nat_eq c b'/')) [
  | inl first ↦
      let same : b'/' ≡ c = ground (arith, first) in
      subst (λ d. Left none (d ∷ t)) same (scan_behind_slash t (more none))
  | inr other ↦
      let scanned = kept-cons none c t (opens_of_first none c t other) in
      elim (Bool-cases (is_quote c)) [
        | inl quote ↦
            subst (Cut (c ∷ t))
              (sym (scanned ∙ ap (λ o. c ∷ kept (ignoring_none o) t) (next_quote_of_quote c quote)))
              (quotation_of c t _ quote (more (some c) quote))
        | inr unquoted ↦
            subst (Cut (c ∷ t))
              (sym (
                scanned
                ∙ ap (λ o. c ∷ kept (ignoring_none o) t) (next_quote_of_other none c unquoted)))
              (Cut.plain c t _ unquoted other (more none))
      ]
]

left : (t : Text) (o : Option ℕ) → Left o t
unfolding kept
left [] none = Cut.end
left [] (some q) = λ is. InQuotation.not_closed [] tt
left (c ∷ t) none = scan_outside c t (left t)
left (c ∷ t) (some q) = scan_in_quotation q c t (left t)

-- Whatever the line is, it is kept up to the first `//` that stands outside a quotation, and as a whole
-- if there is none. A quotation goes from a quote character to the next one of its kind, escaped or not,
-- or to the end of the line if there is none.
pub strip_line-Cut : (line : Text) → Cut line (strip_line line)
unfolding strip_line
strip_line-Cut line = left line none
