-- ===== src/WebAuth.antt =====
-- The answers of several authentication plugins, lib/webauth.js.
mod Defs
mod Summary
mod Status
mod Login
mod Granted
mod Tests
