-- ===== src/Planning.antt =====
-- The planning runs of backend/app/services/planning.
pub mod States
pub mod Tables
pub mod Repository
pub mod Engine
pub mod Executor
