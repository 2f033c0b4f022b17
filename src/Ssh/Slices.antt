-- ===== src/Ssh/Slices.antt =====
-- Parts of buffers of plugins/terminal-proxy/lib/ssh.js.
use zlux_server_framework.Base.{
  ℕ, zero, suc, ◌+◌, ◌≤◌, true, [], ◌∷◌, ◌++◌, ◌≡◌, refl, sym, ap, ◌∙◌, arith, length,
}
use zlux_server_framework.Base.Text.{same_text}
use zlux_server_framework.Ssh.Bytes.{
  Bytes, drop_bytes, alloc_copy, read_uint32_be, drop_bytes-append, drop_bytes_twice,
  length-alloc_copy,
}
use zlux_server_framework.Ssh.Packet.{first_bytes}

pub first_bytes_within :
    (n : ℕ) (s t : Bytes) → n ≤ length s → first_bytes n (s ++ t) ≡ first_bytes n s
unfolding first_bytes
first_bytes_within zero s t h = refl
first_bytes_within (suc n) [] t h = absurd (omega (arith, h))
first_bytes_within (suc n) (b ∷ s) t h =
    ap (λ l. b ∷ l) (first_bytes_within n s t (omega (arith, h)))

pub drop_bytes_within :
    (n : ℕ) (s t : Bytes) → n ≤ length s → drop_bytes n (s ++ t) ≡ drop_bytes n s ++ t
unfolding drop_bytes
drop_bytes_within zero s t h = refl
drop_bytes_within (suc n) [] t h = absurd (omega (arith, h))
drop_bytes_within (suc n) (b ∷ s) t h = drop_bytes_within n s t (omega (arith, h))

pub first_bytes-drop_bytes : (n : ℕ) (s : Bytes) → first_bytes n s ++ drop_bytes n s ≡ s
unfolding first_bytes drop_bytes
first_bytes-drop_bytes zero s = refl
first_bytes-drop_bytes (suc n) [] = refl
first_bytes-drop_bytes (suc n) (b ∷ s) = ap (λ l. b ∷ l) (first_bytes-drop_bytes n s)

pub length-first_bytes : (n : ℕ) (s : Bytes) → n ≤ length s → length (first_bytes n s) ≡ n
unfolding first_bytes
length-first_bytes zero s h = refl
length-first_bytes (suc n) [] h = absurd (omega (arith, h))
length-first_bytes (suc n) (b ∷ s) h = omega (arith, length-first_bytes n s (omega (arith, h)))

pub length-drop_bytes : (n : ℕ) (s : Bytes) → n ≤ length s → length (drop_bytes n s) + n ≡ length s
unfolding drop_bytes
length-drop_bytes zero s h = omega arith
length-drop_bytes (suc n) [] h = absurd (omega (arith, h))
length-drop_bytes (suc n) (b ∷ s) h = omega (arith, length-drop_bytes n s (omega (arith, h)))

pub same_text-same : (s : Bytes) → same_text s s ≡ true
unfolding same_text
same_text-same [] = refl
same_text-same (b ∷ s) = ground (arith, same_text-same s)

pub first_bytes-append : (s t : Bytes) → first_bytes (length s) (s ++ t) ≡ s
unfolding first_bytes
first_bytes-append [] t = refl
first_bytes-append (b ∷ s) t = ap (λ l. b ∷ l) (first_bytes-append s t)

pub read_uint32_be_within :
    (s t : Bytes) → 4 ≤ length s → read_uint32_be (s ++ t) ≡ read_uint32_be s
unfolding read_uint32_be
read_uint32_be_within [] t h = absurd (omega (arith, h))
read_uint32_be_within (a ∷ []) t h = absurd (omega (arith, h))
read_uint32_be_within (a ∷ b ∷ []) t h = absurd (omega (arith, h))
read_uint32_be_within (a ∷ b ∷ c ∷ []) t h = absurd (omega (arith, h))
read_uint32_be_within (a ∷ b ∷ c ∷ d ∷ s) t h = refl

-- What stands behind two stretches of bytes.
pub drop_bytes-append_two :
    (s t rest : Bytes) → drop_bytes (length s + length t) (s ++ (t ++ rest)) ≡ rest
drop_bytes-append_two s t rest =
    drop_bytes_twice (length s) (length t) (s ++ (t ++ rest))
    ∙ ap (drop_bytes (length t)) (drop_bytes-append s (t ++ rest))
    ∙ drop_bytes-append t rest

-- Behind the zeros that stand for what was read before.
pub drop_bytes-alloc_copy : (n : ℕ) (rest : Bytes) → drop_bytes n (alloc_copy n [] ++ rest) ≡ rest
drop_bytes-alloc_copy n rest =
    ap (λ k. drop_bytes k (alloc_copy n [] ++ rest)) (sym (length-alloc_copy n []))
    ∙ drop_bytes-append (alloc_copy n []) rest
