-- ===== src/WebAuth/Defs.antt =====
-- `AuthResponse` of lib/webauth.js: the results of the authentication plugins, by category, and the
-- summary of them. The results of the plugins' own functions are data.
use zlux_server_framework.Base.{
  ℕ, String, Bool, true, false, not, ◌&&◌, ◌||◌, Option, none, some, List, [], ◌∷◌, ◌++◌, ltb,
  truthy, if◌then◌else◌,
}
use zlux_server_framework.Base.Assoc.{Assoc, lookup, assign}

-- A number of milliseconds: undefined, -1, which is for no expiry, or a number that is not negative.
pub data Millis : Type 0 where
  no_millis never_expires : Millis
  millis : ℕ → Millis

abbrev pub is_some_time : Millis → Bool
is_some_time no_millis = false
is_some_time never_expires = true
is_some_time (millis n) = ltb 0 n

-- `a > b`
abbrev pub longer : Millis → Millis → Bool
longer (millis a) (millis b) = ltb b a
longer (millis a) never_expires = true
longer _ _ = false

-- A cookie may lack its name or its value.
pub record Cookie : Type 0 where
  pub name : Option String
  pub value : Option String

-- What a plugin's function has given: the key field of the response, `success` or `authenticated`, and
-- `authenticated` itself.
pub record HandlerResult : Type 0 where
  pub done : Bool
  pub authenticated : Bool
  pub expms : Millis
  pub reason : Option String

-- What a plugin says of itself.
pub record AuthHandler : Type 0 where
  pub plugin_id : String
  pub get_categories : Option (List String)
  pub authentication_categories : Option (List String)
  pub authentication_category : String
  pub session_expiration_ms : Millis

pub record CategoryResult : Type 0 where
  pub all_done : Bool
  pub plugins : Assoc HandlerResult

pub record AuthResponse : Type 0 where
  pub categories : Assoc CategoryResult
  pub expms : Millis
  pub done : Bool
  pub set_cookies : List Cookie

abbrev pub new_response : AuthResponse
new_response = record { categories = []; expms = no_millis; done = false; set_cookies = [] }

unfoldable pub auth_categories : AuthHandler → List String
auth_categories handler = elim handler.get_categories [
  | some categories ↦ categories
  | none ↦ elim handler.authentication_categories [
    | some categories ↦ categories
    | none ↦ handler.authentication_category ∷ []
  ]
]

-- `getOrInit` with an empty result.
abbrev pub get_or_init : Option CategoryResult → CategoryResult
get_or_init none = record { all_done = false; plugins = [] }
get_or_init (some result) = result

-- The result of a plugin under one category.
unfoldable pub add_to_category : String → HandlerResult → CategoryResult → CategoryResult
unfolding assign
add_to_category plugin_id result category_result = record category_result {
  all_done = if result.done then true else category_result.all_done;
  plugins = assign plugin_id result category_result.plugins;
}

unfoldable pub add_to_categories :
    String → HandlerResult → List String → Assoc CategoryResult → Assoc CategoryResult
unfolding add_to_category lookup assign
add_to_categories plugin_id result [] categories = categories
add_to_categories plugin_id result (category ∷ others) categories =
    add_to_categories plugin_id result others (
      assign category (add_to_category plugin_id result (get_or_init (lookup category categories)))
        categories)

-- The expiry of a result, which may be what the handler says of its sessions. The categories hold the same
-- object, so that they see it as well.
unfoldable pub with_expiry : AuthHandler → HandlerResult → HandlerResult
with_expiry handler result =
    if result.authenticated && not (is_some_time result.expms)
    then record result { expms = handler.session_expiration_ms }
    else result

unfoldable pub overall_expiry : Millis → Millis → Millis
overall_expiry before latest =
    if not (is_some_time before) || (is_some_time latest && longer latest before)
    then latest
    else before

unfoldable pub is_cookie : Cookie → Bool
is_cookie cookie = truthy cookie.name && truthy cookie.value

unfoldable pub cookies_of : List Cookie → List Cookie
unfolding is_cookie
cookies_of [] = []
cookies_of (cookie ∷ cookies) =
    let others = cookies_of cookies in if is_cookie cookie then cookie ∷ others else others

unfoldable pub add_handler_result :
    AuthResponse → HandlerResult → AuthHandler → List Cookie → AuthResponse
unfolding with_expiry auth_categories add_to_categories overall_expiry cookies_of
add_handler_result r result handler cookies =
    let result' = with_expiry handler result in
    record r {
      categories =
          add_to_categories handler.plugin_id result' (auth_categories handler) r.categories;
      expms = overall_expiry r.expms result'.expms;
      set_cookies = r.set_cookies ++ cookies_of cookies;
    }

-- The loop over the categories, with the result so far.
unfoldable pub each_done : Bool → Assoc CategoryResult → Bool
each_done so_far [] = so_far
each_done so_far ((name, category_result) ∷ categories) =
    let later = each_done true categories in if category_result.all_done then later else false

abbrev pub default_expiry : Millis → Millis → Millis
default_expiry never_expires expms = expms
default_expiry default_expiration expms = if is_some_time expms then expms else default_expiration

unfoldable pub update_status : Millis → AuthResponse → AuthResponse
unfolding each_done
update_status default_expiration r = record r {
  expms = default_expiry default_expiration r.expms;
  done = each_done false r.categories;
}

-- The loop over the handlers, each with what it has given.
unfoldable pub add_handler_results :
    AuthResponse → List (AuthHandler × HandlerResult × List Cookie) → AuthResponse
unfolding add_handler_result
add_handler_results r [] = r
add_handler_results r ((handler, result, cookies) ∷ given) =
    add_handler_results (add_handler_result r result handler cookies) given
