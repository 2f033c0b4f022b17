-- ===== src/WebAuth/Tests.antt =====
-- Tests and examples for lib/webauth.js.
use zlux_server_framework.Base.{
  ℕ, ◌+◌, String, Bool, true, false, none, some, List, [], ◌∷◌, ◌≡◌, refl,
}
use zlux_server_framework.WebAuth.Defs.{
  Millis, no_millis, never_expires, millis, Cookie, HandlerResult, AuthHandler, new_response,
  update_status, add_handler_results,
}
use zlux_server_framework.WebAuth.Login.{
  Action, LoginPlugin, failed_with, authenticate_or_refresh, Results,
}
use zlux_server_framework.WebAuth.Granted.{authenticate_or_refresh-served}
use zlux_server_framework.WebAuth.Summary.{concerned, served}

abbrev saf : AuthHandler
saf = record {
  plugin_id = "saf";
  get_categories = none;
  authentication_categories = none;
  authentication_category = "zss";
  session_expiration_ms = millis 500;
}

abbrev sso : AuthHandler
sso = record saf { plugin_id = "sso"; get_categories = some ("apiml" ∷ "zss" ∷ []) }

abbrev succeeded : Millis → HandlerResult
succeeded expms = record { done = true; authenticated = false; expms = expms; reason = none }

abbrev failed : HandlerResult
failed = record { done = false; authenticated = false; expms = no_millis; reason = none }

-- One plugin of the category zss fails, the other one succeeds.
abbrev two_results : List (AuthHandler × HandlerResult × List Cookie)
two_results = (saf, failed, []) ∷ (sso, succeeded (millis 100), []) ∷ []

update_status-two_results :
    (update_status never_expires (add_handler_results new_response two_results)).done ≡ true
unfolding update_status add_handler_results
update_status-two_results = refl

-- A session that never expires does not count in the overall expiry beside one that does.
overall_expiry-never_expires :
    (add_handler_results new_response
      ((saf, succeeded never_expires, []) ∷ (sso, succeeded (millis 100), []) ∷ [])).expms
    ≡ millis 100
unfolding add_handler_results
overall_expiry-never_expires = refl

-- A plugin that knows one user, whose session is the number of logins.
abbrev counting : AuthHandler → Bool → LoginPlugin ℕ
counting handler good = record {
  handler = handler;
  capabilities = none;
  get_status = λ n. some (failed_with none);
  authenticate = λ n. (some (record (failed_with none) { success = good }), n + 1);
  refresh_status = λ n. (none, n);
}

abbrev one_good : List (LoginPlugin ℕ)
one_good = counting saf false ∷ counting sso true ∷ []

authenticate_or_refresh-one_good :
    authenticate_or_refresh 0 Action.authenticating false never_expires [] one_good
    ≡ (("sso", 1) ∷ [], 200)
unfolding authenticate_or_refresh
authenticate_or_refresh-one_good = refl

authenticate_or_refresh-served_example :
    (given : List (AuthHandler × HandlerResult × List Cookie)) × Results 0 Action.authenticating
      false [] one_good given
      (("sso", 1) ∷ [])
    × ((category : String) × (concerned category given ≡ true))
    × ((category : String) → concerned category given ≡ true → served category given ≡ true)
authenticate_or_refresh-served_example =
    authenticate_or_refresh-served 0 Action.authenticating false never_expires [] (("sso", 1) ∷ [])
      one_good authenticate_or_refresh-one_good
