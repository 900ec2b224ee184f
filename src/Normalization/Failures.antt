-- ===== src/Normalization/Failures.antt =====
-- The classes of failures of packages/shared/src/ai.ts, and how
-- apps/worker/src/providers/normalization-execution-coordinator.ts classifies what was thrown.
use amazon_research_agent.Base.{
  String, Bool, true, false, Option, none, some, List, [], ◌∷◌, str_eq, if◌then◌else◌,
}

pub data SubscriptionFailureClass : Type 0 where
  auth_expired credential_source_mismatch binary_identity_mismatch : SubscriptionFailureClass
  profile_mismatch containment_failure capability_failure : SubscriptionFailureClass
  capacity_exhausted rate_limited transient_network client_transient : SubscriptionFailureClass
  timeout cancelled_by_caller cancelled_by_job_lease_loss : SubscriptionFailureClass
  cancelled_by_shutdown unsafe_unknown schema_invalid_output : SubscriptionFailureClass
  business_validation_failure process_spawn_failure_pre_consumption : SubscriptionFailureClass

-- The text of a class.
unfoldable pub class_name : SubscriptionFailureClass → String
class_name auth_expired = "auth_expired"
class_name credential_source_mismatch = "credential_source_mismatch"
class_name binary_identity_mismatch = "binary_identity_mismatch"
class_name profile_mismatch = "profile_mismatch"
class_name containment_failure = "containment_failure"
class_name capability_failure = "capability_failure"
class_name capacity_exhausted = "capacity_exhausted"
class_name rate_limited = "rate_limited"
class_name transient_network = "transient_network"
class_name client_transient = "client_transient"
class_name timeout = "timeout"
class_name cancelled_by_caller = "cancelled_by_caller"
class_name cancelled_by_job_lease_loss = "cancelled_by_job_lease_loss"
class_name cancelled_by_shutdown = "cancelled_by_shutdown"
class_name unsafe_unknown = "unsafe_unknown"
class_name schema_invalid_output = "schema_invalid_output"
class_name business_validation_failure = "business_validation_failure"
class_name process_spawn_failure_pre_consumption = "process_spawn_failure_pre_consumption"

abbrev pub classes : List SubscriptionFailureClass
classes =
    auth_expired ∷ credential_source_mismatch ∷ binary_identity_mismatch ∷ profile_mismatch
    ∷ containment_failure ∷ capability_failure ∷ capacity_exhausted ∷ rate_limited
    ∷ transient_network ∷ client_transient ∷ timeout ∷ cancelled_by_caller
    ∷ cancelled_by_job_lease_loss ∷ cancelled_by_shutdown ∷ unsafe_unknown ∷ schema_invalid_output
    ∷ business_validation_failure ∷ process_spawn_failure_pre_consumption ∷ []

unfoldable pub find_class : List SubscriptionFailureClass → String → Option SubscriptionFailureClass
unfolding class_name
find_class [] text = none
find_class (c ∷ cs) text =
    let rest = find_class cs text in if str_eq (class_name c) text then some c else rest

-- `SubscriptionFailureClassSchema.safeParse`.
unfoldable pub parse_class : String → Option SubscriptionFailureClass
parse_class text = find_class classes text

-- What may be thrown: the error of a structured call, an error with a text in `failureClass`, the
-- `DOMException` of an abort, or anything else.
pub data ThrownError : Type 0 where
  invalid_structured_output abort_error : ThrownError
  with_failure_class with_message : String → ThrownError

unfoldable pub failure_class : ThrownError → SubscriptionFailureClass
failure_class invalid_structured_output = schema_invalid_output
failure_class (with_failure_class text) = elim (parse_class text) [
  | some parsed ↦ parsed
  | none ↦ unsafe_unknown
]
failure_class abort_error = cancelled_by_caller
failure_class (with_message text) = unsafe_unknown

pub data ProviderAttemptEventType : Type 0 where
  attempt_succeeded attempt_failed attempt_cancelled : ProviderAttemptEventType
  attempt_not_consumed : ProviderAttemptEventType

pub data ConsumptionStatus : Type 0 where
  consumed not_consumed unknown : ConsumptionStatus

pub record AttemptOutcome : Type 0 where
  pub failure : SubscriptionFailureClass
  pub event_type : ProviderAttemptEventType
  pub consumption_status : ConsumptionStatus
  pub result_class : String
  pub proof_category : Option String

abbrev pub is_spawn_failure : SubscriptionFailureClass → Bool
is_spawn_failure process_spawn_failure_pre_consumption = true
is_spawn_failure _ = false

abbrev pub is_cancellation : SubscriptionFailureClass → Bool
is_cancellation cancelled_by_caller = true
is_cancellation cancelled_by_job_lease_loss = true
is_cancellation cancelled_by_shutdown = true
is_cancellation _ = false

abbrev is_consumed : SubscriptionFailureClass → Bool
is_consumed schema_invalid_output = true
is_consumed business_validation_failure = true
is_consumed _ = false

unfoldable pub classified_outcome : SubscriptionFailureClass → AttemptOutcome
unfolding class_name
classified_outcome classified =
    if is_spawn_failure classified
    then record {
      failure = classified;
      event_type = attempt_not_consumed;
      consumption_status = not_consumed;
      result_class = "pre_spawn_failure";
      proof_category = some "sandbox_not_started";
    }
    else if is_cancellation classified
    then record {
      failure = classified;
      event_type = attempt_cancelled;
      consumption_status = unknown;
      result_class = class_name classified;
      proof_category = none;
    }
    else record {
      failure = classified;
      event_type = attempt_failed;
      consumption_status = if is_consumed classified then consumed else unknown;
      result_class = class_name classified;
      proof_category = none;
    }

unfoldable pub outcome_for : ThrownError → AttemptOutcome
unfolding failure_class classified_outcome
outcome_for error = classified_outcome (failure_class error)

-- The classes of `FALLBACK_FAILURES`.
abbrev pub is_fallback_failure : SubscriptionFailureClass → Bool
is_fallback_failure auth_expired = true
is_fallback_failure capacity_exhausted = true
is_fallback_failure rate_limited = true
is_fallback_failure transient_network = true
is_fallback_failure client_transient = true
is_fallback_failure timeout = true
is_fallback_failure _ = false
