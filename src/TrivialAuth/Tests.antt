-- ===== src/TrivialAuth/Tests.antt =====
-- plugins/trivial-auth/lib/trivialAuth.js on small inputs.
use zlux_server_framework.Base.{none, some, List, [], ◌∷◌}
use zlux_server_framework.TrivialAuth.Defs.{GetUserId, Visit, login, refresh}

-- No token can be read.
abbrev no_tokens : GetUserId
no_tokens token = none

abbrev two_users : List Visit
two_users =
    login (record { body_username = some "ann"; token = none })
    ∷ refresh
    ∷ login (record { body_username = some "bob"; token = none })
    ∷ login (record { body_username = none; token = some "t" })
    ∷ []
