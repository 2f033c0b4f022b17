-- ===== src/WebAuth/Status.antt =====
-- The status of an `AuthResponse` of lib/webauth.js.
use zlux_server_framework.Base.{
  String, Bool, true, false, none, some, List, [], ◌∷◌, ◌==◌, ◌≡◌, ◌↔◌, refl, sym, ap, ◌∙◌, inl,
  inr, arith, Bool-cases, if_ind, eq_iff, eq_refl,
}
use zlux_server_framework.Base.Assoc.{Assoc, lookup, assign, lookup-assign}
use zlux_server_framework.WebAuth.Defs.{
  Cookie, HandlerResult, AuthHandler, CategoryResult, AuthResponse, new_response, auth_categories,
  add_to_categories, add_handler_result, each_done, update_status, add_handler_results, Millis,
}
use zlux_server_framework.WebAuth.Summary.{
  Given, concerned, served, known, reached, summary-add_handler_results,
}

-- No category is entered twice.
UniqueKeys : Assoc CategoryResult → Type 0
UniqueKeys [] = Unit
UniqueKeys ((name, r) ∷ categories) = (lookup name categories ≡ none) × UniqueKeys categories

assign-UniqueKeys :
    (name : String) (r : CategoryResult) (categories : Assoc CategoryResult)
    → UniqueKeys categories
    → UniqueKeys (assign name r categories)
unfolding assign UniqueKeys lookup
assign-UniqueKeys name r [] h = (refl, tt)
assign-UniqueKeys name r ((n, old) ∷ categories) (h, hs) =
    if_ind UniqueKeys (n == name) (λ same. (h, hs))
      (λ apart. (
        lookup-assign name n r categories
            ∙ if_ind (λ o. o ≡ none) (name == n)
                (λ same. absurd (ground (arith, eq_iff name n, eq_iff n name, same, apart)))
                (λ _. h),
        assign-UniqueKeys name r categories hs,
      ))

add_to_categories-UniqueKeys :
    (plugin_id : String) (result : HandlerResult) (names : List String)
    (categories : Assoc CategoryResult)
    → UniqueKeys categories
    → UniqueKeys (add_to_categories plugin_id result names categories)
unfolding add_to_categories
add_to_categories-UniqueKeys plugin_id result [] categories h = h
add_to_categories-UniqueKeys plugin_id result (name ∷ names) categories h =
    add_to_categories-UniqueKeys plugin_id result names _ (assign-UniqueKeys name _ categories h)

add_handler_results-UniqueKeys :
    (given : Given) (r : AuthResponse)
    → UniqueKeys r.categories
    → UniqueKeys (add_handler_results r given).categories
unfolding add_handler_results add_handler_result
add_handler_results-UniqueKeys [] r h = h
add_handler_results-UniqueKeys ((handler, result, cookies) ∷ given) r h =
    add_handler_results-UniqueKeys given (add_handler_result r result handler cookies)
      (add_to_categories-UniqueKeys handler.plugin_id _ (auth_categories handler) r.categories h)

-- The loop over the categories: each one that is there has been reached.
EachReached : Assoc CategoryResult → Type 0
EachReached categories =
    (category : String)
    → known (lookup category categories) ≡ true
    → reached (lookup category categories) ≡ true

of_first :
    (name : String) (r : CategoryResult) (categories : Assoc CategoryResult)
    → (known (lookup name ((name, r) ∷ categories)) ≡ true
        → reached (lookup name ((name, r) ∷ categories)) ≡ true)
    → r.all_done ≡ true
unfolding lookup
of_first name r categories f =
    let found : lookup name ((name, r) ∷ categories) ≡ some r = rw (eq_refl name) refl in
    sym (ap reached found) ∙ f (ap known found)

of_others :
    (name : String) (r : CategoryResult) (categories : Assoc CategoryResult)
    → lookup name categories ≡ none
    → (category : String)
    → (known (lookup category ((name, r) ∷ categories)) ≡ true
        → reached (lookup category ((name, r) ∷ categories)) ≡ true)
    → known (lookup category categories) ≡ true
    → reached (lookup category categories) ≡ true
unfolding lookup
of_others name r categories missing category f k = elim (Bool-cases (name == category)) [
  | inl same ↦
      let same' : name ≡ category = ground (arith, eq_iff name category, same) in
      absurd (never (ap (λ n. known (lookup n categories)) (sym same') ∙ ap known missing) k)
  | inr apart ↦
      let next : lookup category ((name, r) ∷ categories) ≡ lookup category categories =
        rw apart refl in
      sym (ap reached next) ∙ f (ap known next ∙ k)
]
  where
    never : {b : Bool} → b ≡ false → b ≡ true → ⊥
    never g g' = cc

each_done-EachReached :
    (categories : Assoc CategoryResult)
    → UniqueKeys categories
    → each_done true categories ≡ true ↔ EachReached categories
unfolding each_done EachReached UniqueKeys lookup
each_done-EachReached [] h = (λ e category k. cc, λ f. refl)
each_done-EachReached ((name, r) ∷ categories) (h, hs) =
    let (onward, back) = each_done-EachReached categories hs in
    (
      λ e category k.
          let done : r.all_done ≡ true = ground (arith, e) in
          let others : each_done true categories ≡ true = ground (arith, e) in
          elim (Bool-cases (name == category)) [
            | inl same ↦ rw same done
            | inr apart ↦ rw apart (onward others category (rw apart at k))
          ],
      λ f.
          let done : r.all_done ≡ true = of_first name r categories (f name) in
          let others : each_done true categories ≡ true =
            back (λ category k. of_others name r categories h category (f category) k) in
          ground (arith, done, others),
    )

each_done-Some :
    (categories : Assoc CategoryResult)
    → UniqueKeys categories
    → each_done false categories ≡ true ↔ (
        ((category : String) × (known (lookup category categories) ≡ true))
        × EachReached categories)
unfolding lookup each_done EachReached
each_done-Some [] h = (λ e. absurd (never e), λ (some_one, f). absurd (never some_one.1))
  where
    never : false ≡ true → ⊥
    never e = cc
each_done-Some ((name, r) ∷ categories) h =
    let (onward, back) = each_done-EachReached ((name, r) ∷ categories) h in
    let found : lookup name ((name, r) ∷ categories) ≡ some r = rw (eq_refl name) refl in
    (λ e. ((name, ap known found), onward e), λ (some_one, f). back f)

pub update_status-add_handler_results :
    (given : List (AuthHandler × HandlerResult × List Cookie)) (default_expiration : Millis)
    → (update_status default_expiration (add_handler_results new_response given)).done ≡ true ↔ (
        ((category : String) × (concerned category given ≡ true))
        × ((category : String) → concerned category given ≡ true → served category given ≡ true))
unfolding update_status EachReached lookup UniqueKeys
update_status-add_handler_results given default_expiration =
    let categories = (add_handler_results new_response given).categories in
    let summary = λ (category : String). summary-add_handler_results category given new_response in
    let unique = add_handler_results-UniqueKeys given new_response unique_none in
    let (onward, back) = each_done-Some categories unique in
    (
      λ e.
          let (some_one, each) = onward e in
          (
            (some_one.0, sym (summary some_one.0).0 ∙ some_one.1),
            λ category c. sym (summary category).1 ∙ each category ((summary category).0 ∙ c),
          ),
      λ (some_one, each). back (
        (some_one.0, (summary some_one.0).0 ∙ some_one.1),
        λ category k. (summary category).1 ∙ each category (sym (summary category).0 ∙ k),
      ),
    )
  where
    unique_none : UniqueKeys []
    unique_none = tt
