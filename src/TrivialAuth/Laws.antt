-- ===== src/TrivialAuth/Laws.antt =====
-- Who is let in by plugins/trivial-auth/lib/trivialAuth.js.
use zlux_server_framework.Base.{
  String, true, false, ◌==◌, Option, none, some, List, [], ◌∷◌, ◌≡◌, refl, ap, ◌∙◌, inl, inr,
  truthy, Bool-cases, Option-cases, if◌then◌else◌,
}
use zlux_server_framework.TrivialAuth.Defs.{
  SessionState, Request, GetUserId, authenticate_token, authenticate, refresh_status, authorized,
  get_status, Visit, login, refresh, visit_session, visits, new_session,
}

-- The user that a request names, if it names one: in its body, or else by a token that can be read.
unfoldable pub user_of : GetUserId → Request → Option (Option String)
user_of get_user_id request =
    if truthy request.body_username then some request.body_username else (elim request.token [
      | none ↦ none
      | some token ↦ if token == "" then none else get_user_id token
    ])

abbrev pub or_before : Option String → Option (Option String) → Option String
or_before before none = before
or_before before (some user) = user

-- The user of the last request that names one, or the one that was there before.
abbrev pub last_user : GetUserId → List Visit → Option String → Option String
last_user get_user_id [] before = before
last_user get_user_id (login request ∷ vs) before =
    last_user get_user_id vs (or_before before (user_of get_user_id request))
last_user get_user_id (refresh ∷ vs) before = last_user get_user_id vs before

username-authenticate_token :
    (get_user_id : GetUserId) (token : Option String) (s : SessionState)
    → (authenticate_token get_user_id token s).0.username
      ≡ or_before s.username
          (elim token [ none ↦ none | some t ↦ if t == "" then none else get_user_id t ])
unfolding authenticate_token
username-authenticate_token get_user_id none s = refl
username-authenticate_token get_user_id (some t) s = elim (Bool-cases (t == "")) [
  | inl blank ↦ rw blank refl
  | inr there ↦ elim (Option-cases (get_user_id t)) [
    | inl bad ↦ rw (there, bad) refl
    | inr (user, good) ↦ rw (there, good) refl
  ]
]

username-authenticate :
    (get_user_id : GetUserId) (request : Request) (s : SessionState)
    → (authenticate get_user_id request s).0.username
      ≡ or_before s.username (user_of get_user_id request)
unfolding authenticate user_of
username-authenticate get_user_id request s = elim (Bool-cases (truthy request.body_username)) [
  | inl named ↦ rw named refl
  | inr unnamed ↦ rw unnamed (username-authenticate_token get_user_id request.token s)
]

username-visits :
    (get_user_id : GetUserId) (vs : List Visit) (s : SessionState)
    → (visits get_user_id vs s).username ≡ last_user get_user_id vs s.username
unfolding visits visit_session refresh_status
username-visits get_user_id [] s = refl
username-visits get_user_id (refresh ∷ vs) s =
    username-visits get_user_id vs (visit_session get_user_id refresh s)
username-visits get_user_id (login request ∷ vs) s =
    username-visits get_user_id vs (visit_session get_user_id (login request) s)
    ∙ ap (last_user get_user_id vs) (username-authenticate get_user_id request s)

-- After any logins and refreshes of a new session, a service call is let in exactly if the last login
-- that named a user, in its body or by a token that can be read, gave a name that is not empty, and then
-- as that user; the status says the same.
pub authorized-visits :
    (get_user_id : GetUserId) (vs : List Visit)
    → (authorized (visits get_user_id vs new_session) ≡ (
        if truthy (last_user get_user_id vs none)
        then (last_user get_user_id vs none, true)
        else (none, false)))
      × ((get_status (visits get_user_id vs new_session)).is_authenticated
          ≡ truthy (last_user get_user_id vs none))
unfolding authorized get_status
authorized-visits get_user_id vs =
    let same = username-visits get_user_id vs new_session in
    (ap (λ (u : Option String). if truthy u then (u, true) else (none, false)) same, ap truthy same)
