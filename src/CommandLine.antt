-- ===== src/CommandLine.antt =====
-- The parsing of the command's arguments as examples/add-runner.js bundles it: the modules 8098
-- (command-line-args), 5344 and 6512 (ts-command-line-args) of the bundle.
mod Tests
pub mod Syntax
pub mod Definitions
pub mod Parser
pub mod Output
pub mod Booleans
pub mod Parse
