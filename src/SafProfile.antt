-- ===== src/SafProfile.antt =====
-- plugins/sso-auth/lib/safprofile.js: the name of the SAF profile that guards a request.
mod Defs
mod Bounds
mod Tests
