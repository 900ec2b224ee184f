-- ===== src/Worker.antt =====
-- apps/worker/src/main.ts: how a worker runs one claimed job.
pub mod Runs
pub mod LostLeases
use amazon_research_agent.Base.{
  ℕ, String, Bool, true, false, not, ◌||◌, ◌&&◌, Option, none, some, List, [], ◌∷◌, ◌+◌, ◌-◌, zero,
  suc, if◌then◌else◌, ltb, ◌==◌,
}
use amazon_research_agent.Base.Result.{Result, ok, err}
use amazon_research_agent.Queue.{
  JobLeaseIdentity, JobRow, Job, QueueError, type_error, duplicate_job, job_lease_lost,
  queue_operation,
}

-- What a job may throw: an error of the queue, an error with a message, or another value.
pub data WorkerError : Type 0 where
  from_queue : QueueError → WorkerError
  with_message : String → WorkerError
  other_value : WorkerError
  range_error : WorkerError

abbrev pub is_lease_lost : WorkerError → Bool
is_lease_lost (from_queue (job_lease_lost id operation)) = true
is_lease_lost _ = false

-- The delays before another attempt, in milliseconds.
unfoldable pub retry_delays_ms : List ℕ
retry_delays_ms = 60000 ∷ 300000 ∷ 1800000 ∷ 7200000 ∷ []

-- The element at an index, and 0 after the last one.
abbrev pub element_or_zero : List ℕ → ℕ → ℕ
element_or_zero [] i = 0
element_or_zero (d ∷ ds) zero = d
element_or_zero (d ∷ ds) (suc i) = element_or_zero ds i

unfoldable pub retry_delay_milliseconds : ℕ → Result WorkerError ℕ
retry_delay_milliseconds attempt =
    if ltb attempt 1 then err range_error else ok (element_or_zero retry_delays_ms (attempt - 1))

-- The operations of the queue that running a job calls; a call may change the store.
pub record WorkerQueue (S U : Type 0) : Type 0 where
  pub complete_job : JobLeaseIdentity → U → S → S × Result QueueError Unit
  pub fail_job : JobLeaseIdentity → String → ℕ → U → S → S × Result QueueError Unit

-- A handler runs from a store and a checkpoint: it saves and sets checkpoints on the way, and
-- returns a value, nothing, or throws.
abbrev pub JobHandler : (S U : Type 0) → Type 0
JobHandler S U = U → S → S × U × Result WorkerError (Option U)

abbrev or_kept : {U : Type 0} → Option U → U → U
or_kept none checkpoint = checkpoint
or_kept (some result) checkpoint = result

pub data RunOutcome : Type 0 where
  completed_job lease_lost failed_job : RunOutcome

abbrev pub failed_heartbeat : Option WorkerError → Bool
failed_heartbeat none = false
failed_heartbeat (some e) = true

module _ (message : QueueError → String) (redact_secrets : String → String) where
  unfoldable pub error_message : WorkerError → String
  error_message (from_queue e) = redact_secrets (message e)
  error_message (with_message m) = redact_secrets m
  error_message other_value = "Unknown worker error"
  error_message range_error = redact_secrets "attempt must be at least 1"

  module _ {S U : Type 0} where
    -- The `catch` of `runJob`: `now` is the clock it reads, and `heartbeat_failed` tells whether a
    -- heartbeat has failed by then.
    unfoldable pub recover :
        WorkerQueue S U
        → {J : Type 0} → Job J
        → Bool
        → ℕ
        → WorkerError
        → U
        → S
        → S × Result WorkerError RunOutcome
    recover queue job heartbeat_failed now error checkpoint s =
        if is_lease_lost error || heartbeat_failed
        then (s, ok lease_lost)
        else elim (retry_delay_milliseconds job.row.attempts) [
          | err e ↦ (s, err e)
          | ok delay ↦
              let (s', failed) =
                queue.fail_job job.lease_identity (error_message error) (now + delay) checkpoint
                  s in
              elim failed [ err e ↦ (s', err (from_queue e)) | ok done ↦ (s', ok failed_job) ]
        ]

    -- After the handler has returned: a failed heartbeat is thrown, or the job is completed.
    unfoldable pub finish :
        WorkerQueue S U
        → {J : Type 0} → Job J
        → Option WorkerError
        → ℕ
        → U
        → S
        → S × Result WorkerError RunOutcome
    finish queue job (some failure) now checkpoint s =
        recover queue job true now failure checkpoint s
    finish queue job none now checkpoint s =
        let (s', done) = queue.complete_job job.lease_identity checkpoint s in
        elim done [
          | ok tt ↦ (s', ok completed_job)
          | err e ↦ recover queue job false now (from_queue e) checkpoint s'
        ]

    -- `heartbeat_failure` is what the timer has recorded when the handler ends; a job of a type
    -- without handler throws `unsupported`.
    unfoldable pub run_job :
        WorkerQueue S U
        → {J : Type 0} → Option (JobHandler S U)
        → WorkerError
        → Job J
        → U
        → Option WorkerError
        → ℕ
        → S
        → S × Result WorkerError RunOutcome
    run_job queue none unsupported job checkpoint heartbeat_failure now s =
        recover queue job (failed_heartbeat heartbeat_failure) now unsupported checkpoint s
    run_job queue (some handler) unsupported job checkpoint heartbeat_failure now s =
        let (s', saved, result) = handler checkpoint s in
        elim result [
          | ok value ↦ finish queue job heartbeat_failure now (or_kept value saved) s'
          | err e ↦ recover queue job (failed_heartbeat heartbeat_failure) now e saved s'
        ]
