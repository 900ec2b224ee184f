-- ===== src/Queue/Durable/Leases.antt =====
-- Lemmas on the operations of packages/queue/src/queue.ts under a lease.
use amazon_research_agent.Base.{
  ℕ, String, Bool, false, List, map, ◌≡◌, ap, ◌∙◌, arith, any, Option, some, if◌then◌else◌,
}
use amazon_research_agent.Base.Result.{ok, err}
use amazon_research_agent.Queue.{JobRow, JobLeaseIdentity, QueueRepository, job_lease_lost}
use amazon_research_agent.Queue.Store
use amazon_research_agent.Queue.Store.{update}
use amazon_research_agent.Queue.Changes.{held, finished, json_or}
use amazon_research_agent.Queue.Repository.{supabase_repository}
use amazon_research_agent.Queue.Durable.{complete_job, fail_job}
use amazon_research_agent.Queue.Steps.{Step, run}
use amazon_research_agent.Queue.Steps.Consistent.{IsConsistent}
use amazon_research_agent.Queue.Steps.Fencing.{IsSuperseded, run-fenced}

module _ {J U : Type 0} (to_json : U → Option (Option J)) (empty : J) (blank : String → Bool)
    (cut : String → String) where
  abbrev pub at : ℕ → QueueRepository (List (JobRow J)) J
  at now = supabase_repository empty blank cut now "" (λ _. false)

  complete_job-eq :
      (lease : JobLeaseIdentity) (checkpoint : U) (json : Option J) (now : ℕ)
      (jobs : List (JobRow J))
      → to_json checkpoint ≡ some json
      → complete_job to_json blank (at now) lease checkpoint jobs ≡ (
        (Store.complete_job empty lease json now jobs).0,
        if (Store.complete_job empty lease json now jobs).1
            then ok tt
            else err (job_lease_lost lease.job_id "complete"),
      )
  unfolding complete_job supabase_repository
  complete_job-eq lease checkpoint json now jobs j = ground arith

  fail_job-eq :
      (lease : JobLeaseIdentity) (error_text : String) (retry_at : ℕ) (checkpoint : U)
      (json : Option J) (now : ℕ) (jobs : List (JobRow J))
      → to_json checkpoint ≡ some json
      → fail_job to_json blank (at now) lease error_text retry_at checkpoint jobs ≡ (
        (Store.fail_job cut lease error_text retry_at json now jobs).0,
        if (Store.fail_job cut lease error_text retry_at json now jobs).1
            then ok tt
            else err (job_lease_lost lease.job_id "fail"),
      )
  unfolding fail_job supabase_repository
  fail_job-eq lease error_text retry_at checkpoint json now jobs j = ground arith

  -- Completing a job with a serializable checkpoint finishes every row that the lease holds, and
  -- leaves the others; it succeeds when there is such a row, and reports a lost lease otherwise.
  pub complete_job-outcome :
      (lease : JobLeaseIdentity) (checkpoint : U) (json : Option J) (now : ℕ)
      (jobs : List (JobRow J))
      → to_json checkpoint ≡ some json
      → complete_job to_json blank (at now) lease checkpoint jobs ≡ (
        map (λ j. if held lease now j then finished now (json_or json empty) j else j) jobs,
        if any (held lease now) jobs then ok tt else err (job_lease_lost lease.job_id "complete"),
      )
  unfolding Store.complete_job update
  complete_job-outcome lease checkpoint json now jobs j =
      complete_job-eq lease checkpoint json now jobs j

  -- When a job has been claimed again since a lease on it was granted, then after every sequence of
  -- calls the lease can neither complete nor fail the job, even with serializable checkpoints: the
  -- queue reports a lost lease, and the table stays as it is.
  pub run-lease_lost :
      (lease : JobLeaseIdentity) (steps : List (Step J)) (jobs : List (JobRow J)) (checkpoint : U)
      (json : Option J) (error_text : String) (retry_at now : ℕ)
      → IsConsistent jobs
      → IsSuperseded lease jobs
      → to_json checkpoint ≡ some json
      → (complete_job to_json blank (at now) lease checkpoint (run empty blank cut steps jobs)
          ≡ (run empty blank cut steps jobs, err (job_lease_lost lease.job_id "complete")))
        × (fail_job to_json blank
              (at now)
              lease
              error_text
              retry_at
              checkpoint
              (run empty blank cut steps jobs)
            ≡ (run empty blank cut steps jobs, err (job_lease_lost lease.job_id "fail")))
  run-lease_lost lease steps jobs checkpoint json error_text retry_at now h s j =
      let fenced = run-fenced lease empty blank cut steps jobs json error_text retry_at now h s in
      let after = run empty blank cut steps jobs in
      (
        complete_job-eq lease checkpoint json now after j
            ∙ ap (λ r. (r.0, if r.1 then ok tt else err (job_lease_lost lease.job_id "complete")))
                fenced.0,
        fail_job-eq lease error_text retry_at checkpoint json now after j
            ∙ ap (λ r. (r.0, if r.1 then ok tt else err (job_lease_lost lease.job_id "fail")))
                fenced.1,
      )
