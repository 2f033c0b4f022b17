-- ===== src/SafProfile/Bounds.antt =====
-- The length of the profile names of plugins/sso-auth/lib/safprofile.js.
use mathlib.Core.Path.{subst}
use zlux_server_framework.Base.{
  ℕ, ◌+◌, ◌-◌, ◌≤◌, ◌<◌, Option, List, [], ◌∷◌, ◌++◌, ◌≡◌, ◌⊎◌, refl, sym, ap, arith, inl, inr, ltb,
  leb, length, length-append, if◌then◌else◌, Bool-cases, Option-cases,
}
use zlux_server_framework.Base.Outcome.{ok, raised, >>=-eq-ok}
use zlux_server_framework.Base.Text.{Text, split_on, join_with, upper}
use zlux_server_framework.SafProfile.Defs.{
  profile_name_len, negative, at_most, room_behind, parts_up_to_total_length, Parms, too_long, Kind,
  core, base_name, append_parts, with_sub_url, make_profile_name, core_parms, plugin_parms,
  is_plugin_url, make_profile_name_for_request, dot,
}

-- The length of the parts, each with one separator.
abbrev pub total : List Text → ℕ
total [] = 0
total (p ∷ parts) = length p + 1 + total parts

-- The parts that are used and those that are left, within a limit of `m` from `n` on.
pub record Longest (parts used : List Text) (n m : ℕ) : Type 0 where
  pub rest : List Text
  pub split : parts ≡ used ++ rest
  pub fits : (used ≡ []) ⊎ (n + total used ≤ m + 1)
  pub next : (p : Text) (more : List Text) → rest ≡ p ∷ more → m < n + total used + length p

-- `partsUpToTotalLength` takes the longest list of leading parts that fits: the parts are what it takes
-- and a rest, what it takes has with its separators a length within the limit, and with the next part
-- the limit would be exceeded.
pub parts_up_to_total_length-Longest :
    (parts : List Text) (m n : ℕ) → Longest parts (parts_up_to_total_length parts (at_most m) n) n m
unfolding parts_up_to_total_length
parts_up_to_total_length-Longest [] m n = record {
  rest = [];
  split = refl;
  fits = inl refl;
  next = λ p more e. cc;
}
parts_up_to_total_length-Longest (p ∷ parts) m n = elim (Bool-cases (ltb m (n + length p))) [
  | inl over ↦
      rw (over, parts_up_to_total_length)
        (record {
          rest = p ∷ parts;
          split = refl;
          fits = inl refl;
          next = λ q more e. ground (arith, over);
        })
  | inr fine ↦
      let h = parts_up_to_total_length-Longest parts m (n + length p + 1) in
      let used = parts_up_to_total_length parts (at_most m) (n + length p + 1) in
      rw (fine, parts_up_to_total_length)
        (record {
          rest = h.rest;
          split = ap (λ (l : List Text). p ∷ l) h.split;
          fits = inr (elim h.fits [
            | inl none_used ↦ ground (arith, fine, ap total none_used)
            | inr le ↦ omega arith
          ]);
          next = λ q more e. omega (arith, h.next q more e);
        })
]

length-join :
    (p : Text) (parts : List Text) → length (join_with dot (p ∷ parts)) + 1 ≡ total (p ∷ parts)
unfolding join_with
length-join p [] = omega arith
length-join p (q ∷ parts) = omega (
  arith,
  length-join q parts,
  length-append p (dot ++ join_with dot (q ∷ parts)),
  length-append dot (join_with dot (q ∷ parts)),
)

length-with_sub_url :
    (name : Text) (sub_url : List Text)
    → length name ≤ profile_name_len
    → length (with_sub_url name sub_url) ≤ profile_name_len
unfolding with_sub_url append_parts parts_up_to_total_length
length-with_sub_url name sub_url fits = elim (Bool-cases (leb (length name + 1) profile_name_len)) [
  | inr full ↦
      let e : room_behind (length name) ≡ negative = unfold room_behind in ground (arith, full) in
      rw e
        (subst (λ l. length (append_parts name l) ≤ profile_name_len) (sym (nothing sub_url)) fits)
  | inl room ↦
      let m = profile_name_len - (length name + 1) in
      let e : room_behind (length name) ≡ at_most m = unfold room_behind in ground (arith, room) in
      rw e (
        bound m (parts_up_to_total_length sub_url (at_most m) 0)
          (parts_up_to_total_length-Longest sub_url m 0).fits (ground (arith, room)))
]
  where
    nothing : (l : List Text) → parts_up_to_total_length l negative 0 ≡ []
    nothing [] = refl
    nothing (p ∷ l) = refl

    bound :
        (m : ℕ) (used : List Text)
        → (used ≡ []) ⊎ (0 + total used ≤ m + 1)
        → length name + 1 + m ≤ profile_name_len
        → length (append_parts name used) ≤ profile_name_len
    bound m [] h le = fits
    bound m (p ∷ used) h le = ground (
      arith,
      length-join p used,
      length-append name (dot ++ join_with dot (p ∷ used)),
      length-append dot (join_with dot (p ∷ used)),
    )

-- A profile name is never longer than 246 characters, whatever the type and the fields.
pub length-make_profile_name :
    (kind : Kind) (parms : Parms) (name : Text)
    → make_profile_name kind parms ≡ ok name
    → length name ≤ profile_name_len
unfolding make_profile_name
length-make_profile_name kind parms name e =
    let (base, found, rest) =
      >>=-eq-ok (base_name kind parms)
        (λ b.
          if ltb profile_name_len (length b)
          then raised too_long
          else ok (with_sub_url b parms.sub_url))
        e in
    elim (Bool-cases (ltb profile_name_len (length base))) [
      | inl long ↦ absurd (ground (arith, rest))
      | inr short ↦
          let same : with_sub_url base parms.sub_url ≡ name = ground (arith, rest) in
          rw (← same) (length-with_sub_url base parms.sub_url (ground (arith, short)))
    ]

-- The name that is made for a request, where one is made, has at most 246 characters, whatever the URL,
-- its decoding, the method and the instance are.
pub length-make_profile_name_for_request :
    (decode_uri : Text → Option Text) (url : Text) (verb instance_of : Option Text) (name : Text)
    → make_profile_name_for_request decode_uri url verb instance_of ≡ ok name
    → length name ≤ profile_name_len
unfolding make_profile_name_for_request
length-make_profile_name_for_request decode_uri url verb instance_of name e =
    elim (Option-cases (decode_uri url)) [
      | inl bad ↦ absurd (ground (arith, bad))
      | inr (decoded, good) ↦ elim (Bool-cases (is_plugin_url decoded)) [
        | inl plugin ↦
            let made = plugin_parms (split_on b'/' (upper decoded)) verb instance_of in
            length-make_profile_name made.0 made.1 name (ground (arith, good, plugin))
        | inr other ↦
            length-make_profile_name core (core_parms decoded verb instance_of) name
              (ground (arith, good, other))
      ]
    ]
