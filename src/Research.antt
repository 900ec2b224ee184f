-- ===== src/Research.antt =====
-- packages/research-engine/src: the families of products and the scores of markets.
pub mod Families
pub mod MicroNiches
pub mod Score
pub mod Verdicts
