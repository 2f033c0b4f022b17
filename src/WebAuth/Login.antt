-- ===== src/WebAuth/Login.antt =====
-- Login and refresh in lib/webauth.js: `_authenticateOrRefresh`. The functions of the plugins are a
-- parameter: each may throw, and may change the session that it is given.
use zlux_server_framework.Base.{
  ℕ, String, Bool, true, false, not, ◌&&◌, ◌||◌, Option, none, some, List, [], ◌∷◌, ◌≡◌, opt_eq,
  if◌then◌else◌,
}
use zlux_server_framework.Base.Assoc.{Assoc, lookup, assign}
use zlux_server_framework.WebAuth.Defs.{
  Millis, Cookie, HandlerResult, AuthHandler, CategoryResult, AuthResponse, new_response,
  add_handler_result, update_status,
}

abbrev pub zlux_session_expire : String
zlux_session_expire = "ZLUXSessionExp"

pub data Action : Type 0 where
  authenticating refreshing : Action

-- What a plugin's function gives.
pub record LoginResult : Type 0 where
  pub success : Bool
  pub authenticated : Bool
  pub expms : Millis
  pub reason : Option String
  pub cookies : List Cookie

-- The capabilities are whether the plugin can refresh and whether it can tell its status; it may lack
-- the function that tells them.
pub record LoginPlugin (Session : Type 0) : Type 0 where
  pub handler : AuthHandler
  pub capabilities : Option (Bool × Bool)
  pub get_status : Session → Option LoginResult
  pub authenticate : Session → Option LoginResult × Session
  pub refresh_status : Session → Option LoginResult × Session

abbrev pub failed_with : Option String → LoginResult
failed_with reason = record {
  success = false;
  authenticated = false;
  expms = Millis.no_millis;
  reason = reason;
  cookies = [];
}

abbrev pub handler_result : LoginResult → HandlerResult
handler_result r = record {
  done = r.success;
  authenticated = r.authenticated;
  expms = r.expms;
  reason = r.reason;
}

module _ {Session : Type 0} (new_session : Session) where
  abbrev pub can_refresh : LoginPlugin Session → Bool
  can_refresh plugin = elim plugin.capabilities [ none ↦ false | some c ↦ c.0 ]

  abbrev pub can_get_status : LoginPlugin Session → Bool
  can_get_status plugin = elim plugin.capabilities [ none ↦ false | some c ↦ c.1 ]

  -- Without a refresh, a plugin that is still authenticated has succeeded.
  abbrev pub status_or_authenticate : LoginPlugin Session → Session → Option LoginResult × Session
  status_or_authenticate plugin session = elim (plugin.get_status session) [
    | none ↦ (none, session)
    | some status ↦
        if status.authenticated
        then (some (record status { success = true; authenticated = false }), session)
        else plugin.authenticate session
  ]

  -- The result of a plugin.
  unfoldable pub result_of :
      Action → Bool → LoginPlugin Session → Session → Option LoginResult × Session
  result_of authenticating timed_out plugin session = plugin.authenticate session
  result_of refreshing timed_out plugin session =
      if timed_out
      then (some (failed_with (some zlux_session_expire)), session)
      else if can_refresh plugin
      then plugin.refresh_status session
      else if can_get_status plugin
      then status_or_authenticate plugin session
      else (some (record (failed_with none) { success = true }), session)

  unfoldable pub or_new : Option Session → Session
  or_new none = new_session
  or_new (some session) = session

  -- A session that was there has been changed in place; a new one is kept if it is told to be.
  unfoldable pub keep_session : Bool → String → Session → Assoc Session → Assoc Session
  unfolding lookup assign
  keep_session told plugin_id session sessions = elim (lookup plugin_id sessions) [
    | some old ↦ assign plugin_id session sessions
    | none ↦ if told then assign plugin_id session sessions else sessions
  ]

  -- The loop over the plugins; no response if something has thrown.
  unfoldable pub log_in :
      Action
      → Bool
      → Assoc Session
      → AuthResponse
      → List (LoginPlugin Session)
      → Assoc Session × Option AuthResponse
  unfolding or_new result_of keep_session add_handler_result lookup
  log_in action timed_out sessions response [] = (sessions, some response)
  log_in action timed_out sessions response (plugin ∷ plugins) =
      let id = plugin.handler.plugin_id in
      let session = or_new (lookup id sessions) in
      elim (plugin.get_status session) [
        | none ↦ (sessions, none)
        | some status ↦
            let (outcome, session') = result_of action timed_out plugin session in
            elim outcome [
              | none ↦ (keep_session false id session' sessions, none)
              | some r ↦
                  log_in action timed_out
                    (keep_session (status.authenticated || r.success) id session' sessions)
                    (add_handler_result response (handler_result r) plugin.handler r.cookies)
                    plugins
            ]
      ]

  abbrev pub any_expired : Assoc HandlerResult → Bool
  any_expired [] = false
  any_expired ((id, result) ∷ results) =
      opt_eq result.reason (some "Expired Password") || any_expired results

  -- Whether a category that has failed has a plugin with an expired password.
  unfoldable pub has_expired : Assoc CategoryResult → Bool
  has_expired [] = false
  has_expired ((name, category_result) ∷ categories) =
      (not category_result.all_done && any_expired category_result.plugins)
      || has_expired categories

  unfoldable pub status_code : AuthResponse → ℕ
  unfolding has_expired
  status_code response =
      if has_expired response.categories then 428 else if response.done then 200 else 401

  unfoldable pub authenticate_or_refresh :
      Action → Bool → Millis → Assoc Session → List (LoginPlugin Session) → Assoc Session × ℕ
  unfolding log_in status_code update_status
  authenticate_or_refresh action timed_out session_timeout sessions plugins =
      let (sessions', response) = log_in action timed_out sessions new_response plugins in
      (
        sessions',
        elim response [ none ↦ 500 | some r ↦ status_code (update_status session_timeout r) ],
      )

  -- The plugins have given these results, one after the other.
  pub data Results (action : Action) (timed_out : Bool)
      : Assoc Session
        → List (LoginPlugin Session)
        → List (AuthHandler × HandlerResult × List Cookie)
        → Assoc Session
        → Type 0 where
    no_more : (sessions : Assoc Session) → Results action timed_out sessions [] [] sessions
    one_more :
        (sessions sessions' : Assoc Session) (plugin : LoginPlugin Session)
        (plugins : List (LoginPlugin Session)) (status r : LoginResult) (session' : Session)
        (given : List (AuthHandler × HandlerResult × List Cookie))
        → plugin.get_status (or_new (lookup plugin.handler.plugin_id sessions)) ≡ some status
        → result_of action timed_out plugin (or_new (lookup plugin.handler.plugin_id sessions))
          ≡ (some r, session')
        → Results action timed_out
            (keep_session
              (status.authenticated || r.success)
              plugin.handler.plugin_id
              session'
              sessions)
            plugins
            given
            sessions'
        → Results action timed_out sessions
            (plugin ∷ plugins)
            ((plugin.handler, handler_result r, r.cookies) ∷ given)
            sessions'
