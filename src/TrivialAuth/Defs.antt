-- ===== src/TrivialAuth/Defs.antt =====
-- The methods of plugins/trivial-auth/lib/trivialAuth.js on one session.
use zlux_server_framework.Base.{
  String, Bool, true, false, ◌==◌, Option, none, some, List, [], ◌∷◌, truthy, if◌then◌else◌,
}

-- `sessionState`
pub record SessionState : Type 0 where
  pub username : Option String
  pub authenticated : Bool

-- What `authenticate` reads of a request: the user name of the body, and the token's cookie.
pub record Request : Type 0 where
  pub body_username : Option String
  pub token : Option String

pub record Status : Type 0 where
  pub status_username : Option String
  pub is_authenticated : Bool

unfoldable pub get_status : SessionState → Status
get_status s = record { status_username = s.username; is_authenticated = truthy s.username }

-- What the user id of a token is: none if `getUserId` throws, and else the name, which may be undefined.
abbrev pub GetUserId : Type 0
GetUserId = String → Option (Option String)

unfoldable pub authenticate_token : GetUserId → Option String → SessionState → SessionState × Bool
authenticate_token get_user_id none s = (s, false)
authenticate_token get_user_id (some token) s =
    if token == "" then (s, false) else (elim (get_user_id token) [
      | none ↦ (s, false)
      | some user ↦ (record { username = user; authenticated = true }, true)
    ])

unfoldable pub authenticate : GetUserId → Request → SessionState → SessionState × Bool
unfolding authenticate_token
authenticate get_user_id request s =
    if truthy request.body_username
    then (record { username = request.body_username; authenticated = true }, true)
    else authenticate_token get_user_id request.token s

unfoldable pub refresh_status : SessionState → SessionState × Bool
refresh_status s = (record s { authenticated = truthy s.username }, truthy s.username)

-- The user name that is written on the request, and the two flags of the answer, which are equal.
unfoldable pub authorized : SessionState → Option String × Bool
authorized s = if truthy s.username then (s.username, true) else (none, false)

pub data Visit : Type 0 where
  login : Request → Visit
  refresh : Visit

unfoldable pub visit_session : GetUserId → Visit → SessionState → SessionState
unfolding authenticate refresh_status
visit_session get_user_id (login request) s = (authenticate get_user_id request s).0
visit_session get_user_id refresh s = (refresh_status s).0

unfoldable pub visits : GetUserId → List Visit → SessionState → SessionState
unfolding visit_session
visits get_user_id [] s = s
visits get_user_id (v ∷ vs) s = visits get_user_id vs (visit_session get_user_id v s)

abbrev pub new_session : SessionState
new_session = record { username = none; authenticated = false }
