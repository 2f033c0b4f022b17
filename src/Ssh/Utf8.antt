-- ===== src/Ssh/Utf8.antt =====
-- How Node.js writes the UTF-16 units of a string as UTF-8: `Buffer.from(string)` and the `write` of a
-- string into a buffer, as plugins/terminal-proxy/lib/ssh.js uses them.
use Prim.Native.Nat.{◌/◌, ◌%◌}
use zlux_server_framework.Base.{
  ℕ, suc, ◌+◌, ◌-◌, ◌*◌, ◌<◌, Bool, true, false, Option, none, some, List, [], ◌∷◌, ◌++◌, ◌≡◌, refl,
  ap, ◌∙◌, arith, length, map, ltb, leb, ◌&&◌, All, if◌then◌else◌,
}
use zlux_server_framework.Base.Text.{Text}
use zlux_server_framework.Ssh.Bytes.{Bytes, alloc_copy}

-- The first unit of a pair, and the second one.
abbrev is_high : ℕ → Bool
is_high c = leb 0xD800 c && ltb c 0xDC00

abbrev is_low : ℕ → Bool
is_low c = leb 0xDC00 c && ltb c 0xE000

abbrev high_of : ℕ → Option ℕ
high_of c = if is_high c then some c else none

-- What is written for a unit of a pair that stands alone.
abbrev replacement : Bytes
replacement = 0xEF ∷ 0xBF ∷ 0xBD ∷ []

-- The character of one unit.
abbrev unit_bytes : ℕ → Bytes
unit_bytes c =
    if ltb c 128
    then c ∷ []
    else if ltb c 0x800
    then (192 + c / 64) ∷ (128 + c % 64) ∷ []
    else if is_low c
    then replacement
    else (224 + c / 4096) ∷ (128 + c / 64 % 64) ∷ (128 + c % 64) ∷ []

abbrev bytes_of_point : ℕ → Bytes
bytes_of_point p =
    (240 + p / 0x40000) ∷ (128 + p / 4096 % 64) ∷ (128 + p / 64 % 64) ∷ (128 + p % 64) ∷ []

-- The character of a pair of units.
abbrev pair_bytes : ℕ → ℕ → Bytes
pair_bytes h l = bytes_of_point (0x10000 + (h - 0xD800) * 0x400 + (l - 0xDC00))

-- The bytes of each character, behind the first unit of a pair, if there is one.
unfoldable pub characters : Option ℕ → Text → List Bytes
characters none [] = []
characters (some h) [] = replacement ∷ []
characters none (c ∷ t) =
    let rest = characters (high_of c) t in if is_high c then rest else unit_bytes c ∷ rest
characters (some h) (c ∷ t) =
    let rest = characters (high_of c) t in
    if is_low c
    then pair_bytes h c ∷ rest
    else replacement ∷ (if is_high c then rest else unit_bytes c ∷ rest)

unfoldable pub joined : List Bytes → Bytes
joined [] = []
joined (bs ∷ list) = bs ++ joined list

-- `Buffer.from(string)`
unfoldable pub bytes_from : Text → Bytes
unfolding characters joined
bytes_from s = joined (characters none s)

-- `write` into a buffer of `n` zeros: it stops at the first character that does not fit as a whole.
unfoldable pub fitting : ℕ → List Bytes → Bytes
unfolding alloc_copy
fitting n [] = alloc_copy n []
fitting n (bs ∷ list) =
    let rest = fitting (n - length bs) list in
    if leb (length bs) n then bs ++ rest else alloc_copy n []

unfoldable pub written_in : ℕ → Text → Bytes
unfolding characters fitting
written_in n s = fitting n (characters none s)

-- The characters are of ASCII.
abbrev pub IsAscii : Text → Type 0
IsAscii s = All (λ c. c < 128) s

characters_of_ascii : (s : Text) → IsAscii s → characters none s ≡ map (λ c. c ∷ []) s
unfolding characters
characters_of_ascii [] h = refl
characters_of_ascii (c ∷ s) (low, hs) =
    let test : ltb c 128 ≡ true = ground (arith, low) in
    let alone : leb 0xD800 c ≡ false = ground (arith, low) in
    rw (test, alone) (ap (λ l. (c ∷ []) ∷ l) (characters_of_ascii s hs))

joined-singletons : (s : Text) → joined (map (λ c. c ∷ []) s) ≡ s
unfolding joined
joined-singletons [] = refl
joined-singletons (c ∷ s) = ap (λ l. c ∷ l) (joined-singletons s)

fitting-singletons : (s : Text) → fitting (length s) (map (λ c. c ∷ []) s) ≡ s
unfolding fitting
fitting-singletons [] = refl
fitting-singletons (c ∷ s) =
    let room : leb 1 (suc (length s)) ≡ true = ground arith in
    let less : suc (length s) - 1 ≡ length s = omega arith in
    rw (room, less) (ap (λ l. c ∷ l) (fitting-singletons s))

pub bytes_from-IsAscii : (s : Text) → IsAscii s → bytes_from s ≡ s
unfolding bytes_from
bytes_from-IsAscii s h = ap joined (characters_of_ascii s h) ∙ joined-singletons s

pub written_in-IsAscii : (s : Text) → IsAscii s → written_in (length s) s ≡ s
unfolding written_in
written_in-IsAscii s h = ap (fitting (length s)) (characters_of_ascii s h) ∙ fitting-singletons s
