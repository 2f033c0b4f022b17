-- ===== src/JsonComments.antt =====
-- lib/jsonUtils.js: JSON with comments to the end of the line.
mod Defs
mod Laws
mod Cuts
mod Tests
