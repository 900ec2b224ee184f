-- ===== src/Shared.antt =====
-- packages/shared/src: the names that the packages share.
pub mod Endpoints
pub mod Ai
pub mod Numbers
