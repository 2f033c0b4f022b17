-- ===== src/AuthManager.antt =====
-- The authentication manager, lib/auth-manager.js.
mod Defs
mod Filled
mod Loading
mod Choice
mod Preferred
mod Tests
