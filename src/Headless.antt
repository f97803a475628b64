-- ===== src/Headless.antt =====
-- The headless orchestrator of scripts/headless_orchestrator.
pub mod Tasks
pub mod Ledger
pub mod Controller
