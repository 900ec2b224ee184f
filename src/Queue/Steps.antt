-- ===== src/Queue/Steps.antt =====
-- The table of jobs under any sequence of calls by any workers, each with its own clock. A call
-- that fails leaves the table as it is.
pub mod Rows
pub mod Advance
pub mod Inserts
pub mod Consistent
pub mod Fencing
pub mod Claims
use amazon_research_agent.Base.{
  ℕ, String, Bool, true, false, not, ◌&&◌, ◌||◌, Option, none, some, List, [], ◌∷◌, map,
  if◌then◌else◌, any, str_eq,
}
use amazon_research_agent.Queue.{JobLeaseIdentity, JobRow, JobInsert}
use amazon_research_agent.Queue.Store.{
  insert, claim_jobs, heartbeat_job, checkpoint_job, complete_job, fail_job,
  terminalize_expired_exhausted_jobs,
}

pub data Step (J : Type 0) : Type 0 where
  inserting : String → ℕ → JobInsert J → Step J
  claiming : (String → Bool) → ℕ → String → ℕ → ℕ → Step J
  heartbeating : JobLeaseIdentity → ℕ → ℕ → Step J
  checkpointing : JobLeaseIdentity → Option J → ℕ → ℕ → Step J
  completing : JobLeaseIdentity → Option J → ℕ → Step J
  failing : JobLeaseIdentity → String → ℕ → Option J → ℕ → Step J
  terminalizing : ℕ → Step J

module _ {J : Type 0} (empty : J) (blank : String → Bool) (cut : String → String) where
  unfoldable pub apply : Step J → List (JobRow J) → List (JobRow J)
  apply (inserting new_id now input) jobs = (insert empty new_id now input jobs).0
  apply (claiming locked now worker limit seconds) jobs =
      (claim_jobs blank locked now worker limit seconds jobs).0
  apply (heartbeating lease seconds now) jobs = (heartbeat_job lease seconds now jobs).0
  apply (checkpointing lease checkpoint seconds now) jobs =
      (checkpoint_job empty lease checkpoint seconds now jobs).0
  apply (completing lease checkpoint now) jobs = (complete_job empty lease checkpoint now jobs).0
  apply (failing lease error_text retry_at checkpoint now) jobs =
      (fail_job cut lease error_text retry_at checkpoint now jobs).0
  apply (terminalizing now) jobs = (terminalize_expired_exhausted_jobs now jobs).0

  unfoldable pub run : List (Step J) → List (JobRow J) → List (JobRow J)
  run [] jobs = jobs
  run (step ∷ steps) jobs = run steps (apply step jobs)
