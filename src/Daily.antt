-- ===== src/Daily.antt =====
-- apps/worker/src/jobs/daily-research.ts: a daily run reads what it needs in pages, plans, enqueues a
-- job for each selected candidate, and keeps a checkpoint of how far it has come.
pub mod Pages
pub mod Checkpoints
pub mod Advances
pub mod Freshness
pub mod Fanout
pub mod Runs
pub mod Coverage
pub mod Outcomes
pub mod Endings
pub mod Continued
pub mod Endpoints
pub mod Children
