-- ===== src/Ssh/Algorithms/Chosen.antt =====
-- Which algorithms are chosen in plugins/terminal-proxy/lib/ssh.js.
use mathlib.Core.Path.{subst}
use zlux_server_framework.Base.{
  String, true, false, none, some, List, [], ◌∷◌, ◌≡◌, ◌↔◌, refl, sym, ap, inl, inr, member, All,
  Bool-cases, if_ind, Option,
}
use zlux_server_framework.Ssh.Algorithms.{agreeable, unless_empty, get_agreeable_algorithms}

-- The first algorithm of the client's list that the server has too.
pub data First (server : List String) : List String → String → Type 0 where
  here : (a : String) (rest : List String) → member a server ≡ true → First server (a ∷ rest) a
  later :
      (a b : String) (rest : List String)
      → member b server ≡ false
      → First server rest a
      → First server (b ∷ rest) a

agreeable-First :
    (client server : List String) (a : String) (rest : List String)
    → agreeable client server ≡ a ∷ rest
    → First server client a
unfolding agreeable
agreeable-First [] server a rest e = cc
agreeable-First (c ∷ client) server a rest e = elim (Bool-cases (member c server)) [
  | inl has ↦
      let same : c ≡ a = ap (first_or a) (rw has at e) in
      subst (First server (c ∷ client)) same (First.here c client has)
  | inr not_there ↦
      First.later a c client not_there (agreeable-First client server a rest (rw not_there at e))
]
  where
    first_or : String → List String → String
    first_or d [] = d
    first_or d (x ∷ l) = x

-- The client's algorithms without those that the server does not have, in the client's order.
pub data Shared (server : List String) : List String → List String → Type 0 where
  done : Shared server [] []
  kept :
      (a : String) (client list : List String)
      → member a server ≡ true
      → Shared server client list
      → Shared server (a ∷ client) (a ∷ list)
  left_out :
      (a : String) (client list : List String)
      → member a server ≡ false
      → Shared server client list
      → Shared server (a ∷ client) list

agreeable-Shared : (client server : List String) → Shared server client (agreeable client server)
unfolding agreeable
agreeable-Shared [] server = Shared.done
agreeable-Shared (c ∷ client) server =
    if_ind (Shared server (c ∷ client)) (member c server)
      (λ has. Shared.kept c client _ has (agreeable-Shared client server))
      (λ lacks. Shared.left_out c client _ lacks (agreeable-Shared client server))

-- What is chosen, the head of the agreeable algorithms, is the first of the client's algorithms that the
-- server has too.
pub get_agreeable_algorithms-First :
    (client server : List String) (a : String) (rest : List String)
    → get_agreeable_algorithms client (some server) ≡ some (a ∷ rest)
    → First server client a
unfolding get_agreeable_algorithms
get_agreeable_algorithms-First client server a rest e =
    agreeable-First client server a rest (unwrap (agreeable client server) e)
  where
    unwrap : (l : List String) → unless_empty l ≡ some (a ∷ rest) → l ≡ a ∷ rest
    unwrap [] h = cc
    unwrap (b ∷ l) h = cc

abbrev HasNone : List String → List String → Type 0
HasNone server client = All (λ a. member a server ≡ false) client

agreeable-HasNone :
    (client server : List String) → agreeable client server ≡ [] → HasNone server client
unfolding agreeable
agreeable-HasNone [] server e = tt
agreeable-HasNone (c ∷ client) server e = elim (Bool-cases (member c server)) [
  | inl has ↦ absurd (never (rw has at e))
  | inr not_there ↦ (not_there, agreeable-HasNone client server (rw not_there at e))
]
  where
    never : {l : List String} → c ∷ l ≡ [] → ⊥
    never h = cc

HasNone-agreeable :
    (client server : List String) → HasNone server client → agreeable client server ≡ []
unfolding agreeable
HasNone-agreeable [] server h = refl
HasNone-agreeable (c ∷ client) server (h, hs) = rw h (HasNone-agreeable client server hs)

-- The agreement fails exactly if the server has none of the client's algorithms.
pub get_agreeable_algorithms-none :
    (client server : List String)
    → get_agreeable_algorithms client (some server) ≡ none
      ↔ All (λ a. member a server ≡ false) client
unfolding get_agreeable_algorithms
get_agreeable_algorithms-none client server = (
  λ e. agreeable-HasNone client server (emptied (agreeable client server) e),
  λ h. ap unless_empty (HasNone-agreeable client server h),
)
  where
    emptied : (l : List String) → unless_empty l ≡ none → l ≡ []
    emptied [] h = refl
    emptied (b ∷ l) h = cc

-- A list of the server that has none of the client's algorithms.
abbrev pub NothingShared : List String → Option (List String) → Type 0
NothingShared client offer =
    (server : List String) × ((offer ≡ some server) × All (λ a. member a server ≡ false) client)

-- What a slot holds after an agreement: the whole list of the client if the server has none, else
-- exactly the client's algorithms that the server has too, the first of them at its head.
pub record Agreement (client : List String) (offer held : Option (List String)) : Type 0 where
  pub whole : offer ≡ none → held ≡ some client
  pub common :
      (server : List String)
      → offer ≡ some server
      → (a : String) × ((rest : List String) × ((held ≡ some (a ∷ rest))
            × (First server client a × Shared server client (a ∷ rest))))

some_injective : {A : Type 0} {x y : A} → some x ≡ some y → x ≡ y
some_injective {x} e = ap (some_or x) e
  where
    some_or : {A : Type 0} → A → Option A → A
    some_or d none = d
    some_or d (some z) = z

none_not_some : {A : Type 0} {x : A} → none ≡ some x → ⊥
none_not_some h = cc

-- A list that is not empty, by its head and the rest.
unless_empty_parts :
    (l list : List String)
    → unless_empty l ≡ some list
    → (a : String) × ((rest : List String) × ((l ≡ a ∷ rest) × (list ≡ a ∷ rest)))
unless_empty_parts [] list h = absurd (none_not_some h)
unless_empty_parts (a ∷ l) list h = (a, (l, (refl, sym (some_injective h))))

pub get_agreeable_algorithms-NothingShared :
    (client : List String) (offer : Option (List String))
    → get_agreeable_algorithms client offer ≡ none ↔ NothingShared client offer
unfolding get_agreeable_algorithms
get_agreeable_algorithms-NothingShared client none =
    (λ e. absurd (none_not_some (sym e)), λ (server, (e, h)). absurd (none_not_some e))
get_agreeable_algorithms-NothingShared client (some server) =
    let iff = get_agreeable_algorithms-none client server in
    (
      λ e. (server, (refl, iff.0 e)),
      λ (other, (e, h)).
          iff.1 (subst (λ l. All (λ a. member a l ≡ false) client) (sym (some_injective e)) h),
    )

pub get_agreeable_algorithms-Agreement :
    (client : List String) (offer : Option (List String)) (list : List String)
    → get_agreeable_algorithms client offer ≡ some list
    → Agreement client offer (some list)
unfolding get_agreeable_algorithms
get_agreeable_algorithms-Agreement client none list e = record {
  whole = λ h. sym e;
  common = λ server h. absurd (none_not_some h);
}
get_agreeable_algorithms-Agreement client (some server) list e =
    let (a, (rest, (parts, is))) = unless_empty_parts (agreeable client server) list e in
    let shared : Shared server client (a ∷ rest) =
      subst (Shared server client) parts (agreeable-Shared client server) in
    record {
      whole = λ h. absurd (none_not_some (sym h));
      common = λ other h.
          subst
            (λ l.
              (x : String) × ((xs : List String) × ((some list ≡ some (x ∷ xs))
                  × (First l client x × Shared l client (x ∷ xs)))))
            (some_injective h)
            (a, (rest, (ap some is, (agreeable-First client server a rest parts, shared))));
    }
