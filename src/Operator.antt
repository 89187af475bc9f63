-- ===== src/Operator.antt =====
-- The operator (operator): its modules.
pub mod Resource
pub mod Generator
pub mod StatefulSet
pub mod ScaledObject
pub mod SecretsHash
mod Tests
