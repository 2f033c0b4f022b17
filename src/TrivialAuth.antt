-- ===== src/TrivialAuth.antt =====
-- plugins/trivial-auth/lib/trivialAuth.js: the authenticator that accepts every user name.
mod Defs
mod Laws
mod Tests
