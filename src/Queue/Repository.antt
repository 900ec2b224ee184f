-- ===== src/Queue/Repository.antt =====
-- packages/queue/src/queue.ts, `SupabaseQueueRepository`: the calls on the database as calls of the
-- store, at one clock `now`, one new identifier and one set of rows locked elsewhere. An exception
-- of the database arrives as the error of the response; failures of the connection are not modelled.
use amazon_research_agent.Base.{
  ℕ, String, Bool, Option, none, some, List, [], ◌∷◌, map, if◌then◌else◌, str_eq,
}
use amazon_research_agent.Base.Result.{Result, ok, err}
use amazon_research_agent.Queue.{
  JobRow, Job, map_job, QueueError, duplicate_job, queue_operation, QueueRepository,
}
use amazon_research_agent.Queue.Store.{
  InsertOutcome, inserted, unique_violation, not_null_violation, insert, claim_jobs, heartbeat_job,
  checkpoint_job, complete_job, fail_job, terminalize_expired_exhausted_jobs,
}

-- The value of a response, whose error becomes the error of the operation.
abbrev from_response : {A : Type 0} → String → Option A → Result QueueError A
from_response operation none = err (queue_operation operation)
from_response operation (some a) = ok a

abbrev pub inserted_id : String → InsertOutcome → Result QueueError String
inserted_id key (inserted id) = ok id
inserted_id key unique_violation = err (duplicate_job key)
inserted_id key not_null_violation = err (queue_operation "enqueue job")

module _ {J : Type 0} where
  -- `idempotency_key` is unique.
  unfoldable pub find_id : String → List (JobRow J) → Option String
  find_id key [] = none
  find_id key (j ∷ js) =
      let rest = find_id key js in if str_eq j.idempotency_key key then some j.id else rest

  abbrev mapped : Option (List (JobRow J)) → Option (List (Job J))
  mapped none = none
  mapped (some rows) = some (map map_job rows)

  unfoldable pub supabase_repository :
      J
      → (String → Bool)
      → (String → String)
      → ℕ
      → String
      → (String → Bool)
      → QueueRepository (List (JobRow J)) J
  supabase_repository empty blank cut now new_id locked = record {
    insert_job = λ input jobs.
        let (jobs', outcome) = insert empty new_id now input jobs in
        (jobs', inserted_id input.idempotency_key outcome);
    find_job_id_by_idempotency_key = λ key jobs. ok (find_id key jobs);
    terminalize_expired_exhausted_jobs = λ jobs.
        let (jobs', count) = terminalize_expired_exhausted_jobs now jobs in (jobs', ok count);
    claim_jobs = λ worker limit seconds jobs.
        let (jobs', rows) = claim_jobs blank locked now worker limit seconds jobs in
        (jobs', from_response "claim jobs" (mapped rows));
    complete_job = λ lease checkpoint jobs.
        let (jobs', found) = complete_job empty lease checkpoint now jobs in (jobs', ok found);
    fail_job = λ lease error_text retry_at checkpoint jobs.
        let (jobs', found) = fail_job cut lease error_text retry_at checkpoint now jobs in
        (jobs', ok found);
    heartbeat_job = λ lease seconds jobs.
        let (jobs', found) = heartbeat_job lease seconds now jobs in
        (jobs', from_response "heartbeat job" found);
    checkpoint_job = λ lease checkpoint seconds jobs.
        let (jobs', found) = checkpoint_job empty lease checkpoint seconds now jobs in
        (jobs', from_response "checkpoint job" found);
  }
