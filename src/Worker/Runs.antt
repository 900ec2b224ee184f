-- ===== src/Worker/Runs.antt =====
-- Lemmas on running a job by apps/worker/src/main.ts, for any queue and any handler.
use amazon_research_agent.Base.{
  ℕ, String, false, Option, none, some, ◌+◌, ◌≡◌, arith, refl, ◌⊎◌, inl, inr,
}
use amazon_research_agent.Base.Result.{Result, ok, err}
use amazon_research_agent.Queue.{Job, QueueError}
use amazon_research_agent.Worker.{
  WorkerError, WorkerQueue, JobHandler, is_lease_lost, lease_lost, completed_job, or_kept, run_job,
  finish, recover, error_message, retry_delay_milliseconds,
}

Result-cases : {E A : Type 0} (r : Result E A) → ((a : A) × (r ≡ ok a)) ⊎ ((e : E) × (r ≡ err e))
Result-cases (ok a) = inl (a, refl)
Result-cases (err e) = inr (e, refl)

module _ {S U J : Type 0} (message : QueueError → String) (redact_secrets : String → String)
    (queue : WorkerQueue S U) (unsupported : WorkerError) (handler : JobHandler S U) (job : Job J)
    (checkpoint : U) (now : ℕ) (s s' : S) where
  -- When a heartbeat has failed, running a job neither completes nor fails it: the store is as the
  -- handler left it, and the run ends as a lost lease, whatever the handler returned or threw.
  pub run_job-heartbeat_failed :
      (failure : WorkerError)
      → run_job message redact_secrets queue
          (some handler)
          unsupported
          job
          checkpoint
          (some failure)
          now
          s
        ≡ ((handler checkpoint s).0, ok lease_lost)
  unfolding run_job finish recover
  run_job-heartbeat_failed failure = ground arith

  -- What a completed run has done: the handler has returned, and completing the job with its value, or
  -- with its last checkpoint, on the store that it left has succeeded.
  pub record IsCompletion : Type 0 where
    pub value : Option U
    pub has_returned : (handler checkpoint s).2 ≡ ok value
    pub has_completed :
        queue.complete_job job.lease_identity
          (or_kept value (handler checkpoint s).1)
          (handler checkpoint s).0
        ≡ (s', ok tt)

  -- A run that ends as completed had no failed heartbeat, its handler returned, and completing the job
  -- under its lease, with the handler's value or its last checkpoint, succeeded and gave the store.
  pub run_job-IsCompletion :
      (heartbeat_failure : Option WorkerError)
      → run_job message redact_secrets queue
          (some handler)
          unsupported
          job
          checkpoint
          heartbeat_failure
          now
          s
        ≡ (s', ok completed_job)
      → (heartbeat_failure ≡ none) × IsCompletion
  unfolding run_job finish recover
  run_job-IsCompletion heartbeat_failure h = elim (Result-cases (handler checkpoint s).2) [
    | inl (value, e) ↦
        (ground arith, record { value = value; has_returned = e; has_completed = ground arith })
    | inr (error, e) ↦ absurd (ground arith)
  ]

  -- What a failed run has done: failing the job with a redacted message, to be tried again after the
  -- delay of its attempts, has succeeded.
  pub record IsFailure : Type 0 where
    pub error : WorkerError
    pub delay : ℕ
    pub saved : U
    pub store : S
    pub not_lost : is_lease_lost error ≡ false
    pub has_delay : retry_delay_milliseconds job.row.attempts ≡ ok delay
    pub has_failed :
        queue.fail_job job.lease_identity
          (error_message message redact_secrets error)
          (now + delay)
          saved
          store
        ≡ (s', ok tt)
