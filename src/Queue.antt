-- ===== src/Queue.antt =====
-- packages/queue/src/queue.ts: jobs, leases and the errors of the durable job queue. Times are
-- milliseconds, and JSON is a parameter type, null the `none` of an option.
pub mod ProbePayload
pub mod Changes
pub mod Store
pub mod Repository
pub mod Durable
pub mod Steps
use amazon_research_agent.Base.{ℕ, String, Bool, Option, none, some, List}
use amazon_research_agent.Base.Int.{ℤ}
use amazon_research_agent.Base.Result.{Result}

pub data JobType : Type 0 where
  import_opportunity_csv normalize_opportunities test_ai_provider_connection : JobType
  probe_ai_provider_readiness market_probe deep_validation enrich_strong_potential : JobType
  daily_research send_digest : JobType

pub data JobStatus : Type 0 where
  queued running completed failed : JobStatus

pub record JobLeaseIdentity : Type 0 where
  pub job_id : String
  pub owner : String
  pub epoch : ℕ

-- A row of the table of jobs.
pub record JobRow (J : Type 0) : Type 0 where
  pub id : String
  pub kind : JobType
  pub payload : J
  pub status : JobStatus
  pub priority : ℤ
  pub available_at : ℕ
  pub leased_until : Option ℕ
  pub leased_by : Option String
  pub attempts : ℕ
  pub max_attempts : ℕ
  pub idempotency_key : String
  pub checkpoint : J
  pub last_error : Option String
  pub created_at : ℕ
  pub updated_at : ℕ

pub record Job (J : Type 0) : Type 0 where
  pub row : JobRow J
  pub lease_identity : JobLeaseIdentity

abbrev pub text_or_empty : Option String → String
text_or_empty none = ""
text_or_empty (some t) = t

unfoldable pub map_job : {J : Type 0} → JobRow J → Job J
map_job row = record {
  row = row;
  lease_identity = record {
    job_id = row.id;
    owner = text_or_empty row.leased_by;
    epoch = row.attempts;
  };
}

pub record EnqueueJobInput (U : Type 0) : Type 0 where
  pub kind : JobType
  pub payload : U
  pub idempotency_key : String
  pub priority : Option ℤ
  pub available_at : Option ℕ

pub record JobInsert (J : Type 0) : Type 0 where
  pub kind : JobType
  pub payload : Option J
  pub idempotency_key : String
  pub priority : ℤ
  pub available_at : Option ℕ

pub data QueueError : Type 0 where
  type_error : String → QueueError
  duplicate_job : String → QueueError
  job_lease_lost : String → String → QueueError
  queue_operation : String → QueueError

-- The interface that the queue is written against: each call may change the store, and throws or
-- returns.
pub record QueueRepository (S J : Type 0) : Type 0 where
  pub insert_job : JobInsert J → S → S × Result QueueError String
  pub find_job_id_by_idempotency_key : String → S → Result QueueError (Option String)
  pub terminalize_expired_exhausted_jobs : S → S × Result QueueError ℕ
  pub claim_jobs : String → ℕ → ℕ → S → S × Result QueueError (List (Job J))
  pub complete_job : JobLeaseIdentity → Option J → S → S × Result QueueError Bool
  pub fail_job : JobLeaseIdentity → String → ℕ → Option J → S → S × Result QueueError Bool
  pub heartbeat_job : JobLeaseIdentity → ℕ → S → S × Result QueueError Bool
  pub checkpoint_job : JobLeaseIdentity → Option J → ℕ → S → S × Result QueueError Bool
