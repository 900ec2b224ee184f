-- ===== src/Queue/Durable.antt =====
-- packages/queue/src/queue.ts, `DurableQueue`: the checks and the errors of the queue, over any
-- repository. `to_json` is what serialising and parsing a value gives, if anything.
pub mod Enqueue
pub mod Leases
use amazon_research_agent.Base.{
  ℕ, String, Bool, true, false, Option, none, some, List, if◌then◌else◌, str_eq,
}
use amazon_research_agent.Base.Int.{ℤ, pos}
use amazon_research_agent.Base.Result.{Result, ok, err}
use amazon_research_agent.Queue.{
  JobLeaseIdentity, Job, EnqueueJobInput, JobInsert, QueueError, type_error, duplicate_job,
  job_lease_lost, queue_operation, QueueRepository,
}

abbrev pub priority_or_default : Option ℤ → ℤ
priority_or_default none = pos 100
priority_or_default (some p) = p

-- A missing identifier, or an empty one.
abbrev pub existing_id : Result QueueError (Option String) → Result QueueError String
existing_id (err e) = err e
existing_id (ok none) = err (queue_operation "resolve duplicate job")
existing_id (ok (some id)) =
    if str_eq id "" then err (queue_operation "resolve duplicate job") else ok id

abbrev pub lease_result : String → String → Result QueueError Bool → Result QueueError Unit
lease_result job_id operation (err e) = err e
lease_result job_id operation (ok true) = ok tt
lease_result job_id operation (ok false) = err (job_lease_lost job_id operation)

module _ {S J U : Type 0} (to_json : U → Option (Option J)) (blank : String → Bool)
    (r : QueueRepository S J) where
  -- The identifier of an insertion, or of the job that is there already.
  abbrev resolve : String → S × Result QueueError String → S × Result QueueError String
  resolve key (s, ok id) = (s, ok id)
  resolve key (s, err (duplicate_job k)) = (s, existing_id (r.find_job_id_by_idempotency_key key s))
  resolve key (s, err e) = (s, err e)

  -- The priority is an integer and the date, if any, parses, by their types.
  unfoldable pub enqueue_job : EnqueueJobInput U → S → S × Result QueueError String
  enqueue_job input s =
      if blank input.idempotency_key
      then (s, err (type_error "idempotencyKey must not be empty"))
      else elim (to_json input.payload) [
        | none ↦ (s, err (type_error "Queue payload and checkpoint must be JSON serializable"))
        | some payload ↦ resolve input.idempotency_key (
            r.insert_job
              (record {
                kind = input.kind;
                payload = payload;
                idempotency_key = input.idempotency_key;
                priority = priority_or_default input.priority;
                available_at = input.available_at;
              })
              s)
      ]

  unfoldable pub claim_jobs : String → ℕ → ℕ → S → S × Result QueueError (List (Job J))
  claim_jobs worker limit seconds s =
      if blank worker
      then (s, err (type_error "workerId must not be empty"))
      else r.claim_jobs worker limit seconds s

  unfoldable pub complete_job : JobLeaseIdentity → U → S → S × Result QueueError Unit
  complete_job lease checkpoint s = elim (to_json checkpoint) [
    | none ↦ (s, err (type_error "Queue payload and checkpoint must be JSON serializable"))
    | some json ↦
        let (s', found) = r.complete_job lease json s in
        (s', lease_result lease.job_id "complete" found)
  ]

  unfoldable pub fail_job : JobLeaseIdentity → String → ℕ → U → S → S × Result QueueError Unit
  fail_job lease error_text retry_at checkpoint s = elim (to_json checkpoint) [
    | none ↦ (s, err (type_error "Queue payload and checkpoint must be JSON serializable"))
    | some json ↦
        let (s', found) = r.fail_job lease error_text retry_at json s in
        (s', lease_result lease.job_id "fail" found)
  ]

  unfoldable pub heartbeat_job : JobLeaseIdentity → ℕ → S → S × Result QueueError Unit
  heartbeat_job lease seconds s =
      let (s', found) = r.heartbeat_job lease seconds s in
      (s', lease_result lease.job_id "heartbeat" found)

  unfoldable pub checkpoint_job : JobLeaseIdentity → U → ℕ → S → S × Result QueueError Unit
  checkpoint_job lease checkpoint seconds s = elim (to_json checkpoint) [
    | none ↦ (s, err (type_error "Queue payload and checkpoint must be JSON serializable"))
    | some json ↦
        let (s', found) = r.checkpoint_job lease json seconds s in
        (s', lease_result lease.job_id "checkpoint" found)
  ]
