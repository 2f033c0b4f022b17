-- ===== src/JsonStreamer.antt =====
-- plugins/config/lib/jsonStreamer.js: JSON written piece by piece.
mod Defs
mod Escapes
mod Nesting
mod Tests
