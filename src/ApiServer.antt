-- ===== src/ApiServer.antt =====
-- The metrics API server (apiserver/pkg): its modules.
mod Tests
pub mod World
pub mod Scaling
pub mod State
pub mod Client
pub mod GithubClient
pub mod Config
pub mod Workflows
pub mod Labeling
pub mod Host
pub mod Provider
