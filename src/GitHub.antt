-- ===== src/GitHub.antt =====
-- How the shipped command calls GitHub (examples/add-runner.js): hooks around a request, the
-- authorization of a token, and the request that an endpoint and its parameters make.
mod Tests
pub mod Hooks
pub mod Auth
pub mod Percent
pub mod Template
pub mod Variables
pub mod Endpoint
pub mod Requests
pub mod Client
pub mod Merge
pub mod Routes
