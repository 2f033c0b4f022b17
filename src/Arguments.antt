-- ===== src/Arguments.antt =====
-- utils/argumentParser.js: the arguments of the command line.
mod Defs
mod Parse
mod Laws
mod Tests
