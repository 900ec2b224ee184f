-- ===== src/Normalization/Dependencies.antt =====
-- What apps/worker/src/providers/normalization-execution-coordinator.ts takes from its surroundings:
-- its request, the repository of attempts, the targets and the permits, over the state of the world.
use amazon_research_agent.Base.{ℕ, String, Bool, Option, List}
use amazon_research_agent.Base.Actions
use amazon_research_agent.Queue.{JobLeaseIdentity}
use amazon_research_agent.Router.{ProviderCatalogEntry}
use amazon_research_agent.Normalization.Failures.{
  ThrownError, SubscriptionFailureClass, ProviderAttemptEventType, ConsumptionStatus,
}

pub data SubscriptionAdapter : Type 0 where
  codex grok : SubscriptionAdapter

pub data TargetState : Type 0 where
  reject needs_review ready_for_api_validation : TargetState

pub data NormalizationExecutionResult : Type 0 where
  finalized : TargetState → NormalizationExecutionResult
  deferred : NormalizationExecutionResult

pub record AnalysisLeaseIdentity : Type 0 where
  pub analysis_id : String
  pub owner : String
  pub epoch : ℕ

pub record NormalizationExecutionRequest : Type 0 where
  pub job_lease : JobLeaseIdentity
  pub analysis_lease : AnalysisLeaseIdentity
  pub candidate_id : String
  pub expected_candidate_state : String
  pub normalization_generation : ℕ
  pub locale : String
  pub prompt : String
  pub input_hash : String
  pub entries : List ProviderCatalogEntry

pub record Reconciliation : Type 0 where
  pub attempted_provider_ids : List String
  pub pending_winner_attempt_id : Option String
  pub fallback_parent_attempt_id : Option String

pub record NormalizationExecutionTarget : Type 0 where
  pub provider_id : String
  pub model_id : String
  pub adapter : Option SubscriptionAdapter
  pub expected_settings_revision : ℕ
  pub expected_auth_generation : ℕ
  pub expected_execution_fingerprint : String

-- What an authorization of an attempt says, besides the leases of the request.
pub record BeginAttempt : Type 0 where
  pub provider_id : String
  pub model_id : String
  pub expected_settings_revision : ℕ
  pub expected_auth_generation : ℕ
  pub expected_execution_fingerprint : String
  pub fallback_parent_attempt_id : Option String
  pub initial_paid_primary : Bool

-- What the result of an attempt says: the model's results carry their counts.
pub record AttemptReport : Type 0 where
  pub attempt_id : String
  pub event_type : ProviderAttemptEventType
  pub consumption_status : ConsumptionStatus
  pub result_class : String
  pub proof_category : Option String
  pub latency_ms : Option ℕ
  pub input_tokens : Option ℕ
  pub output_tokens : Option ℕ
  pub provider_request_count : ℕ
  pub output : Option String
  pub usage : Option String

-- A provider's result: its output and its usage, both also as JSON, and its latency, which is the
-- difference of two parsed times, at least 0.
pub record AiProviderResult : Type 0 where
  pub output : String
  pub usage : String
  pub latency_ms : ℕ
  pub input_tokens : Option ℕ
  pub output_tokens : Option ℕ
  pub request_count : ℕ

pub record StructuredRequest : Type 0 where
  pub model_id : String
  pub locale : String
  pub prompt : String
  pub input_hash : String

pub record RuntimeMutation : Type 0 where
  pub allow_fallback : Bool
  pub allow_replay : Bool

-- A claim of the finalization of a completed analysis: the new epoch, or nothing when committed.
pub record CompletedFinalizationRequest : Type 0 where
  pub job_lease : JobLeaseIdentity
  pub analysis_id : String
  pub analysis_lease_owner : String
  pub lease_seconds : ℕ
  pub candidate_id : String
  pub expected_candidate_state : String
  pub normalization_generation : ℕ

abbrev pub Call : Type 0 → Type 0 → Type 0
Call S A = Actions.Call S ThrownError A

-- The calls, over a world `S`. `aborted` is the reason of a signal that is aborted.
pub record Dependencies (S : Type 0) : Type 0 where
  pub aborted : S → Option ThrownError
  pub claim_completed_finalization : CompletedFinalizationRequest → Call S (Option ℕ)
  pub reconcile : JobLeaseIdentity → AnalysisLeaseIdentity → Call S Reconciliation
  pub resolve_target : String → String → Bool → Call S NormalizationExecutionTarget
  pub acquire : SubscriptionAdapter → Call S Unit
  pub release : SubscriptionAdapter → S → S
  pub begin : JobLeaseIdentity → AnalysisLeaseIdentity → BeginAttempt → Call S String
  pub execute : NormalizationExecutionTarget → String → StructuredRequest → Call S AiProviderResult
  pub append_outcome : JobLeaseIdentity → AnalysisLeaseIdentity → AttemptReport → Call S Unit
  pub apply_failure :
      JobLeaseIdentity
      → AnalysisLeaseIdentity
      → String
      → SubscriptionFailureClass
      → Call S RuntimeMutation
  pub finalize_analysis : JobLeaseIdentity → AnalysisLeaseIdentity → String → Call S Unit
  pub finalize_candidate :
      JobLeaseIdentity → AnalysisLeaseIdentity → String → String → ℕ → Call S TargetState
  pub defer_candidate : JobLeaseIdentity → String → String → String → ℕ → Call S Unit

-- What a run does, in order. `reconciled`, `acquired` and `authorized` follow a call that returned;
-- the others stand before their call.
pub data AttemptEvent : Type 0 where
  reconciled : Reconciliation → AttemptEvent
  resolving : String → String → Bool → AttemptEvent
  acquired released : SubscriptionAdapter → AttemptEvent
  beginning : BeginAttempt → AttemptEvent
  authorized : String → AttemptEvent
  executing : String → String → AttemptEvent
  appending : AttemptReport → AttemptEvent
  applying_failure : String → SubscriptionFailureClass → AttemptEvent
  finalizing_analysis : String → AttemptEvent
  finalizing_candidate deferring claiming : AttemptEvent

-- Code that does such things from a world, and returns or throws an `E`, and what it did.
abbrev pub Action : Type 0 → Type 0 → Type 0 → Type 0
Action S E A = Actions.Action AttemptEvent S E A

abbrev pub Ran : Type 0 → Type 0 → Type 0 → Type 0
Ran S E A = Actions.Ran AttemptEvent S E A
