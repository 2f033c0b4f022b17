-- ===== src/Ssh/Algorithms/Answer.antt =====
-- When `makeKeyExchangeResponse` of plugins/terminal-proxy/lib/ssh.js answers, and with what.
use mathlib.Core.List.{Memᴰ}
use mathlib.Core.Path.{subst}
use zlux_server_framework.Base.{
  ℕ, zero, suc, String, Bool, true, false, Option, none, some, List, [], ◌∷◌, ◌≡◌, ◌⊎◌, ◌↔◌, refl,
  sym, ap, ◌∙◌, arith, inl, inr, nat_eq, Option-cases, if_ind, if◌then◌else◌,
}
use zlux_server_framework.Base.Outcome.{Outcome}
use zlux_server_framework.Ssh.Bytes.{Bytes, Fault}
use zlux_server_framework.Ssh.Algorithms.Chosen.{
  NothingShared, Agreement, get_agreeable_algorithms-NothingShared,
  get_agreeable_algorithms-Agreement,
}
use zlux_server_framework.Ssh.Algorithms.{
  Slot, key_exchange, server_host_key, client_to_server_encryption, server_to_client_encryption,
  client_to_server_mac, server_to_client_mac, client_to_server_compression,
  server_to_client_compression, get_agreeable_algorithms, Agreed, place, agree_on, slots, supported,
  negotiate, make_key_exchange_response,
}

abbrev pick : ℕ → List Slot → Slot
pick n [] = key_exchange
pick zero (s ∷ l) = s
pick (suc n) (s ∷ l) = pick n l

abbrev slot_at : ℕ → Slot
slot_at n = pick n slots

slot_at-place : (s : Slot) → slot_at (place s) ≡ s
slot_at-place key_exchange = refl
slot_at-place server_host_key = refl
slot_at-place client_to_server_encryption = refl
slot_at-place server_to_client_encryption = refl
slot_at-place client_to_server_mac = refl
slot_at-place server_to_client_mac = refl
slot_at-place client_to_server_compression = refl
slot_at-place server_to_client_compression = refl

place_injective : (s t : Slot) → nat_eq (place s) (place t) ≡ true → s ≡ t
place_injective s t e =
    let same : place s ≡ place t = ground (arith, e) in
    sym (slot_at-place s) ∙ (ap slot_at same ∙ slot_at-place t)

every_slot : (s : Slot) → Memᴰ s slots
every_slot key_exchange = Memᴰ.head refl
every_slot server_host_key = Memᴰ.tail (Memᴰ.head refl)
every_slot client_to_server_encryption = Memᴰ.tail (Memᴰ.tail (Memᴰ.head refl))
every_slot server_to_client_encryption = Memᴰ.tail (Memᴰ.tail (Memᴰ.tail (Memᴰ.head refl)))
every_slot client_to_server_mac = Memᴰ.tail (Memᴰ.tail (Memᴰ.tail (Memᴰ.tail (Memᴰ.head refl))))
every_slot server_to_client_mac =
    Memᴰ.tail (Memᴰ.tail (Memᴰ.tail (Memᴰ.tail (Memᴰ.tail (Memᴰ.head refl)))))
every_slot client_to_server_compression =
    Memᴰ.tail (Memᴰ.tail (Memᴰ.tail (Memᴰ.tail (Memᴰ.tail (Memᴰ.tail (Memᴰ.head refl))))))
every_slot server_to_client_compression =
    Memᴰ.tail
      (Memᴰ.tail (Memᴰ.tail (Memᴰ.tail (Memᴰ.tail (Memᴰ.tail (Memᴰ.tail (Memᴰ.head refl)))))))

not_none : {A : Type 0} (b : Bool) (x : A) → b ≡ true → (if b then some x else none) ≡ none → ⊥
not_none true x h e = cc
not_none false x h e = cc

refused_none : {A : Type 0} (b : Bool) (x : A) → b ≡ false → (if b then some x else none) ≡ none
refused_none true x h = cc
refused_none false x h = refl

not_some :
    {A : Type 0} (b : Bool) (x : A) {y : A} → b ≡ false → (if b then some x else none) ≡ some y → ⊥
not_some true x h e = cc
not_some false x h e = cc

module _ (offers : Slot → Option (List String)) where
  abbrev agreement : Slot → Option (List String)
  agreement slot = get_agreeable_algorithms (supported slot) (offers slot)

  agree_on_keeps :
      (slot other : Slot) (list : List String) (agreed : Agreed)
      → agreement slot ≡ some list
      → (slot ≡ other) ⊎ (agreed other ≡ agreement other)
      → agree_on slot list agreed other ≡ agreement other
  unfolding agree_on
  agree_on_keeps slot other list agreed e known =
      if_ind (λ l. l ≡ agreement other) (nat_eq (place slot) (place other))
        (λ same. sym e ∙ ap agreement (place_injective slot other same))
        (λ differ. elim known [
          | inl same ↦ absurd (differs (ap place same) differ)
          | inr was ↦ was
        ])
    where
      differs : {m n : ℕ} → m ≡ n → nat_eq m n ≡ false → ⊥
      differs same apart = ground (arith, same, apart)

  -- What the negotiation of some slots comes to: it ends at one without an agreement, or each slot has
  -- its agreement.
  negotiated :
      (rest : List Slot) (agreed : Agreed)
      → (((negotiate rest offers agreed).1 ≡ false) × ((slot : Slot) × (agreement slot ≡ none)))
        ⊎ (((negotiate rest offers agreed).1 ≡ true)
            × ((other : Slot)
                → Memᴰ other rest ⊎ (agreed other ≡ agreement other)
                → (negotiate rest offers agreed).0 other ≡ agreement other))
  unfolding negotiate
  negotiated [] agreed =
      inr (refl, λ other known. elim known [ inl m ↦ elim m [ ] | inr was ↦ was ])
  negotiated (slot ∷ rest) agreed = elim (Option-cases (agreement slot)) [
    | inl failed ↦ rw (failed, negotiate) (inl (refl, (slot, failed)))
    | inr (list, found) ↦ (elim (negotiated rest (agree_on slot list agreed)) [
      | inl (refused, why) ↦ rw (found, negotiate) (inl (refused, why))
      | inr (done, all) ↦
          rw (found, negotiate)
            (inr (
              done,
              λ other known. all other (elim known [
                | inl (Memᴰ.head same) ↦
                    inr (agree_on_keeps slot other list agreed found (inl (sym same)))
                | inl (Memᴰ.tail m) ↦ inl m
                | inr was ↦ inr (agree_on_keeps slot other list agreed found (inr was))
              ]),
            ))
    ])
  ]

  negotiate_refuses :
      (rest : List Slot) (agreed : Agreed) (slot : Slot)
      → Memᴰ slot rest
      → agreement slot ≡ none
      → (negotiate rest offers agreed).1 ≡ false
  unfolding negotiate
  negotiate_refuses [] agreed slot m failed = elim m [ ]
  negotiate_refuses (s ∷ rest) agreed slot (Memᴰ.head same) failed =
      let fails : agreement s ≡ none = ap agreement (sym same) ∙ failed in
      rw (fails, negotiate) refl
  negotiate_refuses (s ∷ rest) agreed slot (Memᴰ.tail m) failed =
      elim (Option-cases (agreement s)) [
        | inl fails ↦ rw (fails, negotiate) refl
        | inr (list, found) ↦
            rw (found, negotiate) (negotiate_refuses rest (agree_on s list agreed) slot m failed)
      ]

  -- The answer to a KEXINIT message is undefined exactly if for some slot the server has offered a list
  -- that has none of the client's algorithms.
  pub make_key_exchange_response-none :
      (cookie : Bytes) (agreed : Agreed)
      → (make_key_exchange_response cookie offers agreed).1 ≡ none
        ↔ ((slot : Slot) × NothingShared (supported slot) (offers slot))
  unfolding make_key_exchange_response
  make_key_exchange_response-none cookie agreed = (
    λ e. elim (negotiated slots agreed) [
      | inl (refused, (slot, failed)) ↦
          (slot, (get_agreeable_algorithms-NothingShared (supported slot) (offers slot)).0 failed)
      | inr (done, all) ↦ absurd (not_none _ _ done e)
    ],
    λ (slot, refusal). refused_none _ _ (
        negotiate_refuses slots agreed slot (every_slot slot)
          ((get_agreeable_algorithms-NothingShared (supported slot) (offers slot)).1 refusal)),
  )

  -- If there is an answer, then each slot of the session holds the client's whole list if the server has
  -- sent no list, and else exactly the client's algorithms that the server has too, in the client's
  -- order: there is at least one, and the first is the first of the client's that the server has.
  pub make_key_exchange_response-Agreement :
      (cookie : Bytes) (agreed : Agreed) (payload : Outcome Fault Bytes) (slot : Slot)
      → (make_key_exchange_response cookie offers agreed).1 ≡ some payload
      → Agreement
          (supported slot)
          (offers slot)
          ((make_key_exchange_response cookie offers agreed).0 slot)
  unfolding make_key_exchange_response
  make_key_exchange_response-Agreement cookie agreed payload slot e =
      elim (negotiated slots agreed) [
        | inl (refused, why) ↦ absurd (not_some _ _ refused e)
        | inr (done, all) ↦ (elim (Option-cases (agreement slot)) [
          | inl failed ↦
              absurd (both_ways done (negotiate_refuses slots agreed slot (every_slot slot) failed))
          | inr (list, found) ↦
              subst (Agreement (supported slot) (offers slot))
                (sym (all slot (inl (every_slot slot)) ∙ found))
                (get_agreeable_algorithms-Agreement (supported slot) (offers slot) list found)
        ])
      ]
    where
      both_ways : {b : Bool} → b ≡ true → b ≡ false → ⊥
      both_ways t f = cc
