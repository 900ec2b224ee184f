-- ===== src/Rules.antt =====
-- packages/research-engine/src/rules: the rules on opportunities.
pub mod Lexicons
pub mod Opportunities
pub mod Passes
