-- ===== src/Tests.antt =====
-- Tests by evaluation, and the theorems at concrete inputs.
mod Budgets
mod Plans
mod Routes
mod Candidates
mod Queues
mod Workers
mod PaidCalls
mod PermitRuns
mod Markets
mod Probes
mod Normalizations
mod Days
mod Repairs
mod Children
mod Csv
mod Keywords
mod Niches
