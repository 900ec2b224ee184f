-- ===== src/Normalization.antt =====
-- apps/worker/src/providers/normalization-execution-coordinator.ts: the attempts of a normalization
-- at AI providers, with their authorizations, fallbacks and outcomes.
pub mod Failures
pub mod Dependencies
pub mod Coordinator
pub mod Lifecycle
mod Attempts
mod Begins
mod Rounds
pub mod Protocol
pub mod Progress
pub mod Termination
pub mod MoreRounds
