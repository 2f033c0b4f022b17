-- ===== src/WebAuth/Summary.antt =====
-- What the summary of `AuthResponse` of lib/webauth.js says of the plugins' results.
use zlux_server_framework.Base.{
  String, Bool, true, false, ◌&&◌, ◌||◌, Option, none, some, List, [], ◌∷◌, ◌==◌, ◌≡◌, refl, ap,
  ◌∙◌, arith, member, if_ind, eq_iff,
}
use zlux_server_framework.Base.Assoc.{Assoc, lookup, assign, lookup-assign}
use zlux_server_framework.WebAuth.Defs.{
  Cookie, HandlerResult, AuthHandler, CategoryResult, AuthResponse, auth_categories, get_or_init,
  add_to_category, add_to_categories, with_expiry, add_handler_result, add_handler_results,
}

abbrev pub Given : Type 0
Given = List (AuthHandler × HandlerResult × List Cookie)

-- Whether some handler has the category, and whether one that has it has succeeded.
abbrev pub concerned : String → Given → Bool
concerned category [] = false
concerned category ((handler, result, cookies) ∷ given) =
    member category (auth_categories handler) || concerned category given

abbrev pub served : String → Given → Bool
served category [] = false
served category ((handler, result, cookies) ∷ given) =
    (member category (auth_categories handler) && result.done) || served category given

abbrev pub known : Option CategoryResult → Bool
known none = false
known (some r) = true

abbrev pub reached : Option CategoryResult → Bool
reached none = false
reached (some r) = r.all_done

known-assign :
    (category name : String) (r : CategoryResult) (categories : Assoc CategoryResult)
    → known (lookup category (assign name r categories))
      ≡ (known (lookup category categories) || category == name)
known-assign category name r categories =
    ap known (lookup-assign name category r categories)
    ∙ if_ind (λ o. known o ≡ (known (lookup category categories) || category == name))
        (name == category)
        (λ same. ground (arith, eq_iff name category, eq_iff category name, same))
        (λ apart. ground (arith, eq_iff name category, eq_iff category name, apart))

reached-add_to_category :
    (plugin_id : String) (result : HandlerResult) (o : Option CategoryResult)
    → (add_to_category plugin_id result (get_or_init o)).all_done ≡ (reached o || result.done)
unfolding add_to_category
reached-add_to_category plugin_id result none = ground arith
reached-add_to_category plugin_id result (some r) = ground arith

reached-assign :
    (category name plugin_id : String) (result : HandlerResult) (categories : Assoc CategoryResult)
    → reached (
        lookup category (
          assign name
            (add_to_category plugin_id result (get_or_init (lookup name categories)))
            categories))
      ≡ (reached (lookup category categories) || (category == name && result.done))
reached-assign category name plugin_id result categories =
    let r = add_to_category plugin_id result (get_or_init (lookup name categories)) in
    ap reached (lookup-assign name category r categories)
    ∙ if_ind
        (λ o.
          reached o ≡ (reached (lookup category categories) || (category == name && result.done)))
        (name == category)
        (λ same.
          let here : true ≡ (category == name) =
            ground (arith, eq_iff name category, eq_iff category name, same) in
          let same' : name ≡ category = ground (arith, eq_iff name category, same) in
          reached-add_to_category plugin_id result (lookup name categories)
          ∙ ap (λ n. reached (lookup n categories) || result.done) same'
          ∙ ap (λ b. reached (lookup category categories) || (b && result.done)) here)
        (λ apart. ground (arith, eq_iff name category, eq_iff category name, apart))

known-add_to_categories :
    (category plugin_id : String) (result : HandlerResult) (names : List String)
    (categories : Assoc CategoryResult)
    → known (lookup category (add_to_categories plugin_id result names categories))
      ≡ (known (lookup category categories) || member category names)
unfolding add_to_categories
known-add_to_categories category plugin_id result [] categories = ground arith
known-add_to_categories category plugin_id result (name ∷ names) categories =
    let next =
      assign name (add_to_category plugin_id result (get_or_init (lookup name categories)))
        categories in
    ground (
      arith,
      known-add_to_categories category plugin_id result names next,
      known-assign category name
          (add_to_category plugin_id result (get_or_init (lookup name categories))) categories,
    )

reached-add_to_categories :
    (category plugin_id : String) (result : HandlerResult) (names : List String)
    (categories : Assoc CategoryResult)
    → reached (lookup category (add_to_categories plugin_id result names categories))
      ≡ (reached (lookup category categories) || (member category names && result.done))
unfolding add_to_categories
reached-add_to_categories category plugin_id result [] categories = ground arith
reached-add_to_categories category plugin_id result (name ∷ names) categories =
    let next =
      assign name (add_to_category plugin_id result (get_or_init (lookup name categories)))
        categories in
    ground (
      arith,
      reached-add_to_categories category plugin_id result names next,
      reached-assign category name plugin_id result categories,
    )

done-with_expiry :
    (handler : AuthHandler) (result : HandlerResult)
    → (with_expiry handler result).done ≡ result.done
unfolding with_expiry
done-with_expiry handler result =
    if_ind (λ (r : HandlerResult). r.done ≡ result.done) _ (λ _. refl) (λ _. refl)

-- The two sides of a category after some results: whether it is there, and what it says.
pub summary-add_handler_results :
    (category : String) (given : Given) (r : AuthResponse)
    → (known (lookup category (add_handler_results r given).categories)
        ≡ (known (lookup category r.categories) || concerned category given))
      × (reached (lookup category (add_handler_results r given).categories)
          ≡ (reached (lookup category r.categories) || served category given))
unfolding add_handler_results add_handler_result
summary-add_handler_results category [] r = (ground arith, ground arith)
summary-add_handler_results category ((handler, result, cookies) ∷ given) r =
    let result' = with_expiry handler result in
    let next = add_handler_result r result handler cookies in
    let (known_is, reached_is) = summary-add_handler_results category given next in
    (
      ground (
        arith,
        known_is,
        known-add_to_categories category handler.plugin_id result' (auth_categories handler)
            r.categories,
      ),
      ground (
        arith,
        reached_is,
        done-with_expiry handler result,
        reached-add_to_categories category handler.plugin_id result' (auth_categories handler)
            r.categories,
      ),
    )
