-- ===== src/Business.antt =====
-- packages/shared/src/research-business.ts and research-business-assessment.ts: the evidence that a
-- candidate can be bought and sold, and the stage it puts the candidate at. Amounts are numbers of an
-- interface; `Date.parse` is a parameter, `none` for NaN.
pub mod Evidence
pub mod Costs
pub mod Assessment
pub mod Admission
pub mod Latest
