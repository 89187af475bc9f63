-- ===== src/ApiServer/Tests.antt =====
-- Witnesses and tests of the metrics API server, and the data that they share.
mod Data
mod Scaling
mod State
mod Client
mod Answers
mod Host
