-- ===== src/Ssh/Bytes.antt =====
-- Buffers of plugins/terminal-proxy/lib/ssh.js as lists of bytes, and 32-bit numbers in them.
use Prim.Native.Nat.{◌/◌, ◌%◌}
use zlux_server_framework.Base.{
  ℕ, zero, suc, ◌+◌, ◌*◌, List, [], ◌∷◌, ◌++◌, ◌≡◌, refl, sym, ap, ◌∙◌, inl, inr, Bool-cases, arith,
  ltb, length, if◌then◌else◌,
}
use zlux_server_framework.Base.Outcome.{Outcome, ok, raised, ok_or}

abbrev pub Bytes : Type 0
Bytes = List ℕ

-- What Node throws: a position or a number out of range, or a property of undefined that is read.
pub data Fault : Type 0 where
  out_of_range no_property : Fault

-- `buffer.slice(n)`
unfoldable pub drop_bytes : ℕ → Bytes → Bytes
drop_bytes zero bs = bs
drop_bytes (suc n) [] = []
drop_bytes (suc n) (b ∷ bs) = drop_bytes n bs

-- `Buffer.alloc(n)`, and a copy into it of what fits of some bytes.
unfoldable pub alloc_copy : ℕ → Bytes → Bytes
alloc_copy zero bs = []
alloc_copy (suc n) [] = 0 ∷ alloc_copy n []
alloc_copy (suc n) (b ∷ bs) = b ∷ alloc_copy n bs

-- `writeInt32BE` of a number that is not negative.
unfoldable pub write_int32_be : ℕ → Outcome Fault Bytes
write_int32_be n =
    if ltb n 2147483648
    then ok (n / 16777216 ∷ n / 65536 % 256 ∷ n / 256 % 256 ∷ n % 256 ∷ [])
    else raised out_of_range

-- `readUInt32BE` at the start of some bytes
unfoldable pub read_uint32_be : Bytes → Outcome Fault ℕ
read_uint32_be (a ∷ b ∷ c ∷ d ∷ bs) = ok (((a * 256 + b) * 256 + c) * 256 + d)
read_uint32_be _ = raised out_of_range

pub drop_bytes-append : (s t : Bytes) → drop_bytes (length s) (s ++ t) ≡ t
unfolding drop_bytes
drop_bytes-append [] t = refl
drop_bytes-append (b ∷ s) t = drop_bytes-append s t

drop_bytes-nil : (n : ℕ) → drop_bytes n [] ≡ []
unfolding drop_bytes
drop_bytes-nil zero = refl
drop_bytes-nil (suc n) = refl

pub drop_bytes_twice :
    (m n : ℕ) (bs : Bytes) → drop_bytes (m + n) bs ≡ drop_bytes n (drop_bytes m bs)
unfolding drop_bytes
drop_bytes_twice zero n bs = let same : 0 + n ≡ n = omega arith in ap (λ k. drop_bytes k bs) same
drop_bytes_twice (suc m) n [] = drop_bytes-nil (suc m + n) ∙ sym (drop_bytes-nil n)
drop_bytes_twice (suc m) n (b ∷ bs) =
    let same : suc m + n ≡ suc (m + n) = omega arith in
    ap (λ k. drop_bytes k (b ∷ bs)) same ∙ drop_bytes_twice m n bs

pub alloc_copy-append : (s t : Bytes) → alloc_copy (length s) (s ++ t) ≡ s
unfolding alloc_copy
alloc_copy-append [] t = refl
alloc_copy-append (b ∷ s) t = ap (λ l. b ∷ l) (alloc_copy-append s t)

pub length-alloc_copy : (n : ℕ) (bs : Bytes) → length (alloc_copy n bs) ≡ n
unfolding alloc_copy
length-alloc_copy zero bs = refl
length-alloc_copy (suc n) [] = omega (arith, length-alloc_copy n [])
length-alloc_copy (suc n) (b ∷ bs) = omega (arith, length-alloc_copy n bs)

abbrev four_bytes : ℕ → Bytes
four_bytes n = n / 16777216 ∷ n / 65536 % 256 ∷ n / 256 % 256 ∷ n % 256 ∷ []

read_uint32_be-four_bytes : (n : ℕ) (rest : Bytes) → read_uint32_be (four_bytes n ++ rest) ≡ ok n
unfolding read_uint32_be
read_uint32_be-four_bytes n rest =
    let same : ((n / 16777216 * 256 + n / 65536 % 256) * 256 + n / 256 % 256) * 256 + n % 256 ≡ n =
      omega arith in
    ap ok same

-- The four bytes of a number are read back as that number.
pub read_uint32_be-write_int32_be :
    (n : ℕ) (h rest : Bytes)
    → write_int32_be n ≡ ok h
    → (read_uint32_be (h ++ rest) ≡ ok n) × (length h ≡ 4)
unfolding write_int32_be
read_uint32_be-write_int32_be n h rest e = elim (Bool-cases (ltb n 2147483648)) [
  | inl fits ↦
      let same : four_bytes n ≡ h = ap (ok_or []) (rw fits at e) in
      rw (← same) (read_uint32_be-four_bytes n rest, refl)
  | inr big ↦ absurd (never (rw big at e))
]
  where
    never : {A : Type 0} {a : A} {f : Fault} → raised f ≡ ok a → ⊥
    never h = cc
