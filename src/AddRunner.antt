-- ===== src/AddRunner.antt =====
-- The add-runner command (add-runner/src): its modules.
mod Tests
pub mod Options
pub mod Config
pub mod Encoding
pub mod Resources
pub mod Runner
pub mod Pipeline
