-- ===== src/WebAuth/Granted.antt =====
-- Who is let in by lib/webauth.js.
use mathlib.Core.Path.{subst}
use zlux_server_framework.Base.{
  ℕ, String, Bool, true, ◌||◌, Option, none, some, List, [], ◌∷◌, ◌≡◌, sym, ap, ◌∙◌, inl, inr,
  arith, Option-cases,
}
use zlux_server_framework.Base.Assoc.{Assoc, lookup}
use zlux_server_framework.WebAuth.Defs.{
  Millis, Cookie, HandlerResult, AuthHandler, AuthResponse, new_response, add_handler_result,
  add_handler_results, update_status,
}
use zlux_server_framework.WebAuth.Summary.{concerned, served}
use zlux_server_framework.WebAuth.Status.{update_status-add_handler_results}
use zlux_server_framework.WebAuth.Login.{
  Action, LoginPlugin, handler_result, or_new, result_of, keep_session, log_in, status_code,
  authenticate_or_refresh, Results,
}

module _ {Session : Type 0} (new_session : Session) (action : Action) (timed_out : Bool) where
  or_response : AuthResponse → Option AuthResponse → AuthResponse
  or_response d none = d
  or_response d (some r) = r

  never :
      {ss sessions' : Assoc Session} {final : AuthResponse}
      → ◌≡◌ {A = Assoc Session × Option AuthResponse} (ss, none) (sessions', some final)
      → ⊥
  never f = nothing (ap (λ x. x.1) f)
    where
      nothing : {r : AuthResponse} → none ≡ some r → ⊥
      nothing g = cc

  log_in-Results :
      (sessions sessions' : Assoc Session) (response final : AuthResponse)
      (plugins : List (LoginPlugin Session))
      → log_in new_session action timed_out sessions response plugins ≡ (sessions', some final)
      → (given : List (AuthHandler × HandlerResult × List Cookie)) × Results new_session action
          timed_out sessions plugins given sessions'
        × (final ≡ add_handler_results response given)
  unfolding log_in add_handler_results or_response
  log_in-Results sessions sessions' response final [] e = (
    [],
    subst (Results new_session action timed_out sessions [] []) (ap (λ x. x.0) e)
        (Results.no_more sessions),
    sym (ap (λ x. or_response response x.1) e),
  )
  log_in-Results sessions sessions' response final (plugin ∷ plugins) e =
      let id = plugin.handler.plugin_id in
      let session = or_new new_session (lookup id sessions) in
      elim (Option-cases (plugin.get_status session)) [
        | inl threw ↦ absurd (never (rw (threw) at e))
        | inr (status, told) ↦
            let outcome = result_of new_session action timed_out plugin session in
            elim (Option-cases outcome.0) [
              | inl threw ↦ absurd (never (rw (told, threw) at e))
              | inr (r, gave) ↦
                  let (given, results, same) =
                    log_in-Results
                      (keep_session new_session (status.authenticated || r.success) id outcome.1
                        sessions)
                      sessions'
                      (add_handler_result response (handler_result r) plugin.handler r.cookies)
                      final plugins (rw (told, gave) at e) in
                  (
                    (plugin.handler, handler_result r, r.cookies) ∷ given,
                    Results.one_more sessions sessions' plugin plugins status r outcome.1 given told
                        (ap (λ o. (o, outcome.1)) gave) results,
                    same,
                  )
            ]
      ]

  status_code-done : (r : AuthResponse) → status_code new_session r ≡ 200 → r.done ≡ true
  unfolding status_code
  status_code-done r e = ground (arith, e)

  -- A login or a refresh is only answered with 200 if each plugin has given its result, one after the other,
  -- in the session that the ones before it have left, some plugin has a category and, for each category
  -- that some plugin has, one of the plugins that have it has succeeded.
  pub authenticate_or_refresh-served :
      (session_timeout : Millis) (sessions sessions' : Assoc Session)
      (plugins : List (LoginPlugin Session))
      → authenticate_or_refresh new_session action timed_out session_timeout sessions plugins
        ≡ (sessions', 200)
      → (given : List (AuthHandler × HandlerResult × List Cookie)) × Results new_session action
          timed_out sessions plugins given sessions'
        × ((category : String) × (concerned category given ≡ true))
        × ((category : String) → concerned category given ≡ true → served category given ≡ true)
  unfolding authenticate_or_refresh
  authenticate_or_refresh-served session_timeout sessions sessions' plugins e =
      let l = log_in new_session action timed_out sessions new_response plugins in
      elim (Option-cases l.1) [
        | inl threw ↦
            absurd (not_granted (ap (answer session_timeout) (sym threw) ∙ ap (λ x. x.1) e))
        | inr (final, found) ↦
            let (given, results, same) =
              log_in-Results sessions l.0 new_response final plugins (ap (λ o. (l.0, o)) found) in
            let granted : status_code new_session (update_status session_timeout final) ≡ 200 =
              ap (answer session_timeout) (sym found) ∙ ap (λ x. x.1) e in
            let done : (update_status session_timeout (add_handler_results new_response given)).done
                ≡ true =
              ap (λ r. (update_status session_timeout r).done) (sym same)
              ∙ status_code-done (update_status session_timeout final) granted in
            let (some_one, each) =
              (update_status-add_handler_results given session_timeout).0 done in
            (
              given,
              subst (Results new_session action timed_out sessions plugins given) (ap (λ x. x.0) e)
                  results,
              some_one,
              each,
            )
      ]
    where
      answer : Millis → Option AuthResponse → ℕ
      answer t o = elim o [ none ↦ 500 | some r ↦ status_code new_session (update_status t r) ]

      not_granted : ◌≡◌ {A = ℕ} 500 200 → ⊥
      not_granted f = omega (arith, f)
