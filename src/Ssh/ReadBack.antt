-- ===== src/Ssh/ReadBack.antt =====
-- The fields of a message of plugins/terminal-proxy/lib/ssh.js are read back from its bytes.
use mathlib.Core.List.{append_assoc}
use zlux_server_framework.Base.{
  ℕ, ◌+◌, Option, some, List, [], ◌∷◌, ◌++◌, ◌≡◌, refl, sym, ap, ◌∙◌, arith, length, length-append,
  false, ◌<◌, nat_eq, All, map, if◌then◌else◌,
}
use zlux_server_framework.Base.Outcome.{Outcome, ok, ◌>>=◌, >>=-eq-ok, ok_or}
use zlux_server_framework.Base.Text.{Text, text, join_with}
use zlux_server_framework.Ssh.Bytes.{
  Bytes, Fault, drop_bytes, write_int32_be, read_uint32_be, drop_bytes-append, drop_bytes_twice,
  alloc_copy-append, read_uint32_be-write_int32_be,
}
use zlux_server_framework.Ssh.Pdu.{
  Pdu, rest_of, advance, read_byte, read_int, read_sized_data, read_name_list, read_bytes,
  overwrite,
}
use zlux_server_framework.Ssh.Utf8.{bytes_from, IsAscii, bytes_from-IsAscii, written_in-IsAscii}
use zlux_server_framework.Ssh.Names.{AreNames, names_back}
use zlux_server_framework.Ssh.Fields.{
  Field, number, no_number, names, buffer, boolean, var_data, string, sized, or_no_bytes,
  field_bytes, generate_ssh_v2_pdu_bytes,
}

-- What a reader gets of a field.
pub data Got : Type 0 where
  got_int : ℕ → Got
  got_byte : Option ℕ → Got
  got_bytes : Bytes → Got
  got_names : List Text → Got

-- The read that belongs to a field, as the handlers of messages make it; a buffer is read into one of
-- its length.
unfoldable pub read_as : Field → Pdu → Outcome Fault (Got × Pdu)
unfolding read_byte read_int read_sized_data read_name_list read_bytes
read_as (number n) p = read_int p >>= λ r. ok (got_int r.0, r.1)
read_as no_number p = read_int p >>= λ r. ok (got_int r.0, r.1)
read_as (names list) p = read_name_list p >>= λ r. ok (got_names r.0, r.1)
read_as (buffer bs) p = ok (got_bytes (read_bytes bs p).0, (read_bytes bs p).1)
read_as (boolean b) p = ok (got_byte (read_byte p).0, (read_byte p).1)
read_as (var_data content) p = read_sized_data p >>= λ r. ok (got_bytes r.0, r.1)
read_as (string s) p = read_sized_data p >>= λ r. ok (got_bytes r.0, r.1)

abbrev pub value_of : Field → Got
value_of (number n) = got_int n
value_of no_number = got_int 0
value_of (names list) = got_names list
value_of (buffer bs) = got_bytes bs
value_of (boolean b) = got_byte (some (if b then 1 else 0))
value_of (var_data content) = got_bytes (or_no_bytes content)
value_of (string s) = got_bytes s

abbrev pub IsReadable : Field → Type 0
IsReadable (names list) = AreNames list
IsReadable (string s) = IsAscii s
IsReadable _ = Unit

advance-rest_of :
    (front back : Bytes) (p : Pdu)
    → rest_of p ≡ front ++ back
    → rest_of (advance (length front) p) ≡ back
advance-rest_of front back p at =
    drop_bytes_twice p.offset (length front) p.payload
    ∙ (ap (drop_bytes (length front)) at ∙ drop_bytes-append front back)

sized_lem :
    (bs front back : Bytes) (p : Pdu)
    → sized bs ≡ ok front
    → rest_of p ≡ front ++ back
    → (read_uint32_be (rest_of p) ≡ ok (length bs))
      × (drop_bytes (p.offset + 4) p.payload ≡ bs ++ back)
      × (length front ≡ length bs + 4)
unfolding sized
sized_lem bs front back p e at =
    let (size, written, whole) = >>=-eq-ok (write_int32_be (length bs)) (λ s. ok (s ++ bs)) e in
    let front_is : size ++ bs ≡ front = ap (ok_or []) whole in
    let rest_is : rest_of p ≡ size ++ (bs ++ back) =
      at ∙ (ap (λ l. l ++ back) (sym front_is) ∙ append_assoc size bs back) in
    let (value, four) = read_uint32_be-write_int32_be (length bs) size (bs ++ back) written in
    (
      ap read_uint32_be rest_is ∙ value,
      drop_bytes_twice p.offset 4 p.payload
          ∙ (ap (drop_bytes 4) rest_is
              ∙ (ap (λ k. drop_bytes k (size ++ (bs ++ back))) (sym four)
                  ∙ drop_bytes-append size (bs ++ back))),
      ap length (sym front_is) ∙ (length-append size bs ∙ omega (arith, four)),
    )

read_sized_data-sized :
    (bs front back : Bytes) (p : Pdu)
    → sized bs ≡ ok front
    → rest_of p ≡ front ++ back
    → read_sized_data p ≡ ok (bs, advance (length front) p)
unfolding read_sized_data
read_sized_data-sized bs front back p e at =
    let (size, content, total) = sized_lem bs front back p e at in
    rw (read_sized_data, size, content)
      (ap (λ b. ok (b, advance (length bs + 4) p)) (alloc_copy-append bs back)
        ∙ ap (λ n. ok (bs, advance n p)) (sym total))

read_int-written :
    (n : ℕ) (front back : Bytes) (p : Pdu)
    → write_int32_be n ≡ ok front
    → rest_of p ≡ front ++ back
    → read_int p ≡ ok (n, advance (length front) p)
unfolding read_int
read_int-written n front back p e at =
    let (value, four) = read_uint32_be-write_int32_be n front back e in
    rw (read_int, ap read_uint32_be at ∙ value) (ap (λ k. ok (n, advance k p)) (sym four))

read_name_list-sized :
    (list : List Text) (front back : Bytes) (p : Pdu)
    → AreNames list
    → sized (join_with (text ",") list) ≡ ok front
    → rest_of p ≡ front ++ back
    → read_name_list p ≡ ok (list, advance (length front) p)
unfolding read_name_list
read_name_list-sized list front back p plain e at =
    let joined = join_with (text ",") list in
    let (size, content, total) = sized_lem joined front back p e at in
    rw (read_name_list, size, content, alloc_copy-append joined back, names_back list plain)
      (ap (λ n. ok (list, advance n p)) (sym total))

overwrite-same : (bs back : Bytes) → overwrite bs (bs ++ back) ≡ bs
unfolding overwrite
overwrite-same [] back = refl
overwrite-same (b ∷ bs) back = ap (λ l. b ∷ l) (overwrite-same bs back)

map-bytes_from : (list : List Text) → All IsAscii list → map bytes_from list ≡ list
map-bytes_from [] h = refl
map-bytes_from (name ∷ list) (h, hs) =
    rw (bytes_from-IsAscii name h) (ap (λ l. name ∷ l) (map-bytes_from list hs))

low_in_one : (s : Text) → All (λ c. (c < 128) × (nat_eq c b',' ≡ false)) s → IsAscii s
low_in_one [] h = tt
low_in_one (c ∷ s) (h, hs) = (h.0, low_in_one s hs)

low_in_each :
    (list : List Text)
    → All (λ name. All (λ c. (c < 128) × (nat_eq c b',' ≡ false)) name) list
    → All IsAscii list
low_in_each [] h = tt
low_in_each (name ∷ list) (h, hs) = (low_in_one name h, low_in_each list hs)

AreNames-IsAscii : (list : List Text) → AreNames list → All IsAscii list
AreNames-IsAscii [] h = absurd h
AreNames-IsAscii (name ∷ list) h = low_in_each (name ∷ list) h

-- The read of one field, in front of whatever follows it.
read_as-field_bytes :
    (f : Field) (front back : Bytes) (p : Pdu)
    → IsReadable f
    → field_bytes f ≡ ok front
    → rest_of p ≡ front ++ back
    → read_as f p ≡ ok (value_of f, advance (length front) p)
unfolding read_as field_bytes read_bytes read_byte
read_as-field_bytes (number n) front back p h e at = rw (read_int-written n front back p e at) refl
read_as-field_bytes no_number front back p h e at = rw (read_int-written 0 front back p e at) refl
read_as-field_bytes (names list) front back p h e at =
    let plain : map bytes_from list ≡ list = map-bytes_from list (AreNames-IsAscii list h) in
    rw (read_name_list-sized list front back p h (rw plain at e) at) refl
read_as-field_bytes (buffer bs) front back p h e at =
    let same : bs ≡ front = ap (ok_or []) e in
    rw (read_bytes, at)
      (rw (← same) (ap (λ o. ok (got_bytes o, advance (length bs) p)) (overwrite-same bs back)))
read_as-field_bytes (boolean b) front back p h e at =
    let same : (if b then 1 else 0) ∷ [] ≡ front = ap (ok_or []) e in
    rw (read_byte, at) (rw (← same) refl)
read_as-field_bytes (var_data content) front back p h e at =
    rw (read_sized_data-sized (or_no_bytes content) front back p e at) refl
read_as-field_bytes (string s) front back p h e at =
    rw (read_sized_data-sized s front back p (rw (written_in-IsAscii s h) at e) at) refl

-- The reads of a whole message.
unfoldable pub read_all : List Field → Pdu → Outcome Fault (List Got × Pdu)
unfolding read_as
read_all [] p = ok ([], p)
read_all (f ∷ fs) p = do r ← read_as f p; rest ← read_all fs r.1; ok (r.0 ∷ rest.0, rest.1)

read_all-generated :
    (fs : List Field) (front back : Bytes) (p : Pdu)
    → All IsReadable fs
    → generate_ssh_v2_pdu_bytes fs ≡ ok front
    → rest_of p ≡ front ++ back
    → read_all fs p ≡ ok (map value_of fs, advance (length front) p)
unfolding read_all generate_ssh_v2_pdu_bytes
read_all-generated [] front back p h e at =
    let none_left : [] ≡ front = ap (ok_or []) e in
    let stays : p.offset ≡ p.offset + 0 = omega arith in
    rw (← none_left) (ap (λ n. ok ([], record p { offset = n })) stays)
read_all-generated (f ∷ fs) front back p h e at =
    let (b1, first, later) = >>=-eq-ok (field_bytes f) _ e in
    let (b2, second, last) = >>=-eq-ok (generate_ssh_v2_pdu_bytes fs) _ later in
    let whole : b1 ++ b2 ≡ front = ap (ok_or []) last in
    let at1 : rest_of p ≡ b1 ++ (b2 ++ back) =
      at ∙ (ap (λ l. l ++ back) (sym whole) ∙ append_assoc b1 b2 back) in
    let one = read_as-field_bytes f b1 (b2 ++ back) p h.0 first at1 in
    let others =
      read_all-generated fs b2 back (advance (length b1) p) h.1 second
        (advance-rest_of b1 (b2 ++ back) p at1) in
    let size : p.offset + length b1 + length b2 ≡ p.offset + length front =
      omega (arith, length-append b1 b2, ap length whole) in
    rw (one, others) (ap (λ n. ok (value_of f ∷ map value_of fs, record p { offset = n })) size)

-- Each field of a message is read back, in order, by the read that belongs to it: whatever stands behind
-- the message, the values are those that were written, and the offset stands behind the last one. The
-- lists of names have a name each, the names are without commas, and the names and the strings are of
-- ASCII characters: a string of others may be cut off.
pub read_all-generate_ssh_v2_pdu_bytes :
    (fs : List Field) (front back : Bytes)
    → All IsReadable fs
    → generate_ssh_v2_pdu_bytes fs ≡ ok front
    → read_all fs (record { payload = front ++ back; offset = 0 })
      ≡ ok (map value_of fs, record { payload = front ++ back; offset = length front })
unfolding drop_bytes
read_all-generate_ssh_v2_pdu_bytes fs front back h e =
    let size : 0 + length front ≡ length front = omega arith in
    read_all-generated fs front back (record { payload = front ++ back; offset = 0 }) h e refl
    ∙ ap (λ n. ok (map value_of fs, record { payload = front ++ back; offset = n })) size
