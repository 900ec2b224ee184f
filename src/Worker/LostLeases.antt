-- ===== src/Worker/LostLeases.antt =====
-- Lemmas on running a job by apps/worker/src/main.ts under a superseded lease.
use amazon_research_agent.Base.{
  ℕ, String, Bool, false, Option, none, some, List, [], ◌+◌, ◌≡◌, arith,
}
use amazon_research_agent.Base.Result.{ok, err}
use amazon_research_agent.Queue.{JobLeaseIdentity, JobRow, Job, QueueError, job_lease_lost}
use amazon_research_agent.Queue.Durable
use amazon_research_agent.Queue.Durable.Leases.{at, run-lease_lost}
use amazon_research_agent.Queue.Steps.{run}
use amazon_research_agent.Queue.Steps.Consistent.{IsConsistent}
use amazon_research_agent.Queue.Steps.Fencing.{IsSuperseded}
use amazon_research_agent.Worker.{
  WorkerError, from_queue, WorkerQueue, JobHandler, is_lease_lost, lease_lost, run_job, finish,
  recover, error_message, retry_delay_milliseconds, or_kept,
}

module _ {J U : Type 0} (to_json : U → Option (Option J)) (empty : J) (blank : String → Bool)
    (cut : String → String) where
  -- The durable queue, at the clock `now`, as the worker's queue.
  abbrev pub durable : ℕ → WorkerQueue (List (JobRow J)) U
  durable now = record {
    complete_job = λ lease checkpoint jobs.
        Durable.complete_job to_json blank (at to_json empty blank cut now) lease checkpoint jobs;
    fail_job = λ lease error_text retry_at checkpoint jobs.
        Durable.fail_job to_json blank (at to_json empty blank cut now) lease error_text retry_at
          checkpoint jobs;
  }

  lost :
      (lease : JobLeaseIdentity) (jobs : List (JobRow J)) (checkpoint : U) (json : Option J)
      (error_text : String) (retry_at now : ℕ)
      → IsConsistent jobs
      → IsSuperseded lease jobs
      → to_json checkpoint ≡ some json
      → (Durable.complete_job to_json blank (at to_json empty blank cut now) lease checkpoint jobs
          ≡ (jobs, err (job_lease_lost lease.job_id "complete")))
        × (Durable.fail_job to_json blank
              (at to_json empty blank cut now)
              lease
              error_text
              retry_at
              checkpoint
              jobs
            ≡ (jobs, err (job_lease_lost lease.job_id "fail")))
  unfolding run
  lost lease jobs checkpoint json error_text retry_at now h s j =
      run-lease_lost to_json empty blank cut lease [] jobs checkpoint json error_text retry_at now h
        s j

  module _ (message : QueueError → String) (redact_secrets : String → String)
      (unsupported : WorkerError) (handler : JobHandler (List (JobRow J)) U) (job : Job J)
      (checkpoint saved : U) (json : Option J) (now : ℕ) (jobs jobs' : List (JobRow J)) where
    -- When the handler returns, no heartbeat has failed and the job's lease is superseded in the
    -- consistent table that the handler left, the table stays as it is and the run ends as a lost
    -- lease, if the last checkpoint serializes.
    pub run_job-lost_completion :
        (value : Option U)
        → handler checkpoint jobs ≡ (jobs', saved, ok value)
        → IsConsistent jobs'
        → IsSuperseded job.lease_identity jobs'
        → to_json (or_kept value saved) ≡ some json
        → run_job message redact_secrets
            (durable now)
            (some handler)
            unsupported
            job
            checkpoint
            none
            now
            jobs
          ≡ (jobs', ok lease_lost)
    unfolding run_job finish recover
    run_job-lost_completion value h c s j =
        ground (arith, (lost job.lease_identity jobs' (or_kept value saved) json "" 0 now c s j).0)

    -- When the handler throws anything but a lost lease, no heartbeat has failed and the job's lease
    -- is superseded in the consistent table that the handler left, the table stays as it is and the
    -- lost lease is thrown out of the run, if the last checkpoint serializes and the job's attempts
    -- have a delay.
    pub run_job-lost_failure :
        (error : WorkerError) (delay : ℕ)
        → handler checkpoint jobs ≡ (jobs', saved, err error)
        → is_lease_lost error ≡ false
        → retry_delay_milliseconds job.row.attempts ≡ ok delay
        → IsConsistent jobs'
        → IsSuperseded job.lease_identity jobs'
        → to_json saved ≡ some json
        → run_job message redact_secrets
            (durable now)
            (some handler)
            unsupported
            job
            checkpoint
            none
            now
            jobs
          ≡ (jobs', err (from_queue (job_lease_lost job.lease_identity.job_id "fail")))
    unfolding run_job recover
    run_job-lost_failure error delay h l d c s j = ground (
      arith,
      (lost job.lease_identity jobs' saved json (error_message message redact_secrets error)
          (now + delay) now c s j).1,
    )
