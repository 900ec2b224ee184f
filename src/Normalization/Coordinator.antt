-- ===== src/Normalization/Coordinator.antt =====
-- The coordinator of apps/worker/src/providers/normalization-execution-coordinator.ts: routing,
-- authorization, execution, outcome and fallback, until an attempt wins or none is left.
use amazon_research_agent.Base.{
  ℕ, String, Bool, true, false, not, ◌&&◌, ◌||◌, Option, none, some, List, [], ◌∷◌, ◌++◌, map, any,
  filter, includes, is_empty, if◌then◌else◌, str_eq, zero, suc,
}
use amazon_research_agent.Base.Sets.{add_id, id_set}
use amazon_research_agent.Base.Result.{ok, err}
use amazon_research_agent.Shared.Ai.{
  AiRequest, AiModelDescriptor, niche_normalization, balanced, structured_json, is_payg,
}
use amazon_research_agent.Router.{ProviderCatalogEntry, route, defer, route_ai_request, has_role}
use amazon_research_agent.Normalization.Failures.{
  ThrownError, with_message, SubscriptionFailureClass, outcome_for, AttemptOutcome,
  attempt_succeeded, consumed, is_spawn_failure, is_cancellation, is_fallback_failure,
}
use amazon_research_agent.Base.Actions.{return, throw, ◌and_then◌, calling, noting, marking}
use amazon_research_agent.Normalization.Dependencies.{
  NormalizationExecutionRequest, NormalizationExecutionResult, finalized, deferred, TargetState,
  NormalizationExecutionTarget, CompletedFinalizationRequest, BeginAttempt, AttemptReport,
  AiProviderResult, StructuredRequest, Reconciliation, SubscriptionAdapter, AnalysisLeaseIdentity,
  Dependencies, Action, Ran, reconciled, resolving, acquired, released, beginning, authorized,
  executing, appending, applying_failure, finalizing_analysis, finalizing_candidate, deferring,
  claiming,
}
use Prim.Native.Nat.{Ordering}

abbrev pub is_none : {A : Type 0} → Option A → Bool
is_none none = true
is_none (some a) = false

abbrev pub is_true : Option Bool → Bool
is_true (some true) = true
is_true _ = false

-- The providers that the first attempt of all may pay for.
unfoldable pub is_paid_primary : ProviderCatalogEntry → Bool
is_paid_primary entry =
    entry.enabled
    && is_true entry.paid_primary
    && is_payg entry.provider.billing_type
    && has_role niche_normalization entry.roles

unfoldable pub paid_primary_ids : Bool → List ProviderCatalogEntry → List String
unfolding is_paid_primary
paid_primary_ids false entries = []
paid_primary_ids true entries = map (λ e. e.provider.id) (filter is_paid_primary entries)

module _ (trim : String → String) where
  -- The lists of the request after `AiRequestSchema.parse`, which trims their texts.
  unfoldable pub routing_request : List String → List String → AiRequest
  routing_request paid excluded = record {
    role = niche_normalization;
    router_mode = balanced;
    allow_paid_fallback = false;
    paid_primary_provider_ids = map trim paid;
    required_capabilities = structured_json ∷ [];
    primary_provider_id = none;
    exclude_provider_ids = map trim excluded;
  }

  -- A text that is empty after trimming is refused by that parser.
  unfoldable pub has_blank : List String → Bool
  has_blank ids = any (λ id. str_eq (trim id) "") ids

-- An error thrown in the `try`, with the attempt that was authorized before it.
abbrev pub Failure : Type 0
Failure = Option String × ThrownError

abbrev unauthorized : ThrownError → Failure
unauthorized e = (none, e)

abbrev within : String → ThrownError → Failure
within attempt e = (some attempt, e)

abbrev pub success_report : String → AiProviderResult → AttemptReport
success_report attempt result = record {
  attempt_id = attempt;
  event_type = attempt_succeeded;
  consumption_status = consumed;
  result_class = "success";
  proof_category = none;
  latency_ms = some result.latency_ms;
  input_tokens = result.input_tokens;
  output_tokens = result.output_tokens;
  provider_request_count = result.request_count;
  output = some result.output;
  usage = some result.usage;
}

abbrev pub failure_report : String → AttemptOutcome → AttemptReport
failure_report attempt outcome = record {
  attempt_id = attempt;
  event_type = outcome.event_type;
  consumption_status = outcome.consumption_status;
  result_class = outcome.result_class;
  proof_category = outcome.proof_category;
  latency_ms = none;
  input_tokens = none;
  output_tokens = none;
  provider_request_count = 1;
  output = none;
  usage = none;
}

abbrev pub structured_request :
    NormalizationExecutionRequest → NormalizationExecutionTarget → StructuredRequest
structured_request request target = record {
  model_id = target.model_id;
  locale = request.locale;
  prompt = request.prompt;
  input_hash = request.input_hash;
}

abbrev pub begin_attempt : NormalizationExecutionTarget → Option String → Bool → BeginAttempt
begin_attempt target parent initial_paid = record {
  provider_id = target.provider_id;
  model_id = target.model_id;
  expected_settings_revision = target.expected_settings_revision;
  expected_auth_generation = target.expected_auth_generation;
  expected_execution_fingerprint = target.expected_execution_fingerprint;
  fallback_parent_attempt_id = parent;
  initial_paid_primary = initial_paid;
}

module _ {S : Type 0} (deps : Dependencies S) where
  unfoldable pub throw_if_aborted : Action S ThrownError Unit
  throw_if_aborted s = elim (deps.aborted s) [
    | none ↦ ([], s, ok tt)
    | some reason ↦ ([], s, err reason)
  ]

  abbrev released_after : {E A : Type 0} → SubscriptionAdapter → Ran S E A → Ran S E A
  released_after adapter (events, s, result) =
      (events ++ released adapter ∷ [], deps.release adapter s, result)

  -- `withPermit`, whose `finally` gives the permit back, and `withOptionalPermit`.
  unfoldable pub with_optional_permit :
      {A : Type 0} → Option SubscriptionAdapter → Action S Failure A → Action S Failure A
  unfolding throw_if_aborted
  with_optional_permit none work = work
  with_optional_permit (some adapter) work =
      marking unauthorized (noting (λ _. acquired adapter ∷ []) (deps.acquire adapter))
      and_then λ _ s.
          released_after adapter ((marking unauthorized throw_if_aborted and_then λ _. work) s)

  module _ (request : NormalizationExecutionRequest) where
    -- The work under the permit: the attempt is authorized, then the provider runs.
    unfoldable pub authorize_and_execute :
        NormalizationExecutionTarget → BeginAttempt → Action S Failure (String × AiProviderResult)
    unfolding throw_if_aborted
    authorize_and_execute target input = marking unauthorized throw_if_aborted and_then λ _.
        marking unauthorized
          (calling (beginning input) (deps.begin request.job_lease request.analysis_lease input))
        and_then λ attempt.
            marking (within attempt) (
              (λ s. (authorized attempt ∷ [], s, ok tt)) and_then λ _.
              throw_if_aborted and_then λ _.
              calling (executing attempt target.provider_id)
                (deps.execute target attempt (structured_request request target)))
            and_then λ result. return (attempt, result)

    -- The `try`, up to the finalization of the winner, which it does not await.
    unfoldable pub try_target :
        NormalizationExecutionTarget → BeginAttempt → Action S Failure String
    unfolding with_optional_permit authorize_and_execute
    try_target target input =
        with_optional_permit target.adapter (authorize_and_execute target input) and_then λ won.
        marking (within won.0) (
          calling (appending (success_report won.0 won.1)) (
            deps.append_outcome request.job_lease request.analysis_lease
              (success_report won.0 won.1)))
        and_then λ _. return won.0

    unfoldable pub finalize_winner : String → Action S ThrownError NormalizationExecutionResult
    finalize_winner attempt =
        calling (finalizing_analysis attempt)
          (deps.finalize_analysis request.job_lease request.analysis_lease attempt)
        and_then λ _.
            calling finalizing_candidate (
              deps.finalize_candidate request.job_lease request.analysis_lease request.candidate_id
                request.expected_candidate_state request.normalization_generation)
            and_then λ state. return (finalized state)

    unfoldable pub defer_request : Action S ThrownError NormalizationExecutionResult
    defer_request =
        calling deferring (
          deps.defer_candidate request.job_lease request.analysis_lease.analysis_id
            request.candidate_id request.expected_candidate_state request.normalization_generation)
        and_then λ _. return deferred

    -- Whether another attempt may follow a failure, which the runtime of a subscription decides.
    unfoldable pub fallback_allowed :
        Option SubscriptionAdapter → String → SubscriptionFailureClass → Action S ThrownError Bool
    fallback_allowed adapter attempt failure =
        if is_spawn_failure failure then return true else elim adapter [
          | some _ ↦
              calling (applying_failure attempt failure)
                (deps.apply_failure request.job_lease request.analysis_lease attempt failure)
              and_then λ runtime. return (runtime.allow_fallback || runtime.allow_replay)
          | none ↦ return (is_fallback_failure failure)
        ]

    -- The `catch`: the attempt that another attempt may follow, and its class; or a throw.
    unfoldable pub settle_failure :
        Option SubscriptionAdapter
        → Failure
        → Action S ThrownError (String × SubscriptionFailureClass)
    unfolding fallback_allowed
    settle_failure adapter (none, error) = throw error
    settle_failure adapter (some attempt, error) =
        let outcome = outcome_for error in
        calling (appending (failure_report attempt outcome)) (
          deps.append_outcome request.job_lease request.analysis_lease
            (failure_report attempt outcome))
        and_then λ _.
            if is_cancellation outcome.failure
            then throw error
            else fallback_allowed adapter attempt outcome.failure and_then λ allowed.
                if allowed then return (attempt, outcome.failure) else throw error

-- How a round of the loop ends: with a result, or with a failure that another round may follow.
pub data Round : Type 0 where
  finished : NormalizationExecutionResult → Round
  retrying : String → SubscriptionFailureClass → String → Round

-- The providers of which no other attempt may be made after a failure.
unfoldable pub exclude_failed : List String → SubscriptionFailureClass → String → List String
unfolding add_id
exclude_failed excluded failure id =
    if is_spawn_failure failure then excluded else add_id excluded id

abbrev pub mismatch_message : String
mismatch_message = "Normalization execution target does not match the routed provider."

module _ {S : Type 0} (deps : Dependencies S) (request : NormalizationExecutionRequest) where
  -- The end of the `try` and the `catch`.
  abbrev pub after_try :
      NormalizationExecutionTarget → Ran S Failure String → Ran S ThrownError Round
  after_try target (events, s, ok attempt) =
      let (more, s', result) =
        (finalize_winner deps request attempt and_then λ r. return (finished r)) s in
      (events ++ more, s', result)
  after_try target (events, s, err failure) =
      let (more, s', result) =
        (settle_failure deps request target.adapter failure and_then λ (attempt, class).
        return (retrying attempt class target.provider_id))
          s in
      (events ++ more, s', result)

abbrev pub settled : {S A : Type 0} → Action S ThrownError A → Action S ThrownError (Option A)
settled m = m and_then λ a. return (some a)

module _ (trim : String → String) (locale_compare : String → String → Ordering) {S : Type 0}
    (deps : Dependencies S) (request : NormalizationExecutionRequest) where
  -- One attempt at the target of a decision.
  unfoldable pub attempt_target :
      List String → Option String → AiModelDescriptor → String → Action S ThrownError Round
  unfolding try_target settle_failure finalize_winner
  attempt_target paid parent model id =
      let initial_paid = includes paid id in
      calling (resolving id model.id initial_paid) (deps.resolve_target id model.id initial_paid)
      and_then λ target.
          if not (str_eq target.provider_id id && str_eq target.model_id model.id)
          then throw (with_message mismatch_message)
          else λ s.
              after_try deps request target
                (try_target deps request target (begin_attempt target parent initial_paid) s)

  -- A round of the loop.
  unfoldable pub round : List String → Option String → Bool → Action S ThrownError Round
  unfolding throw_if_aborted paid_primary_ids has_blank routing_request attempt_target defer_request
  round excluded parent paid_available =
      let paid = paid_primary_ids paid_available request.entries in
      throw_if_aborted deps and_then λ _.
      if has_blank trim (paid ++ excluded)
      then throw (with_message "invalid AI request")
      else elim (route_ai_request locale_compare (routing_request trim paid excluded)
          request.entries) [
            | defer checked ↦ defer_request deps request and_then λ r. return (finished r)
            | route provider id model ↦ attempt_target paid parent model id
          ]

  -- The loop, for a number of rounds: `none` when they are used up.
  unfoldable pub attempt_rounds :
      ℕ
      → List String
      → Option String
      → Bool
      → Action S ThrownError (Option NormalizationExecutionResult)
  unfolding round exclude_failed
  attempt_rounds zero excluded parent paid_available = return none
  attempt_rounds (suc n) excluded parent paid_available =
      round excluded parent paid_available and_then λ o. elim o [
        | finished result ↦ return (some result)
        | retrying attempt failure id ↦
            attempt_rounds n (exclude_failed excluded failure id) (some attempt) false
      ]

  unfoldable pub after_reconciliation :
      ℕ → Reconciliation → Action S ThrownError (Option NormalizationExecutionResult)
  unfolding finalize_winner defer_request attempt_rounds id_set
  after_reconciliation rounds r = elim r.pending_winner_attempt_id [
    | some winner ↦ settled (finalize_winner deps request winner)
    | none ↦
        let excluded = id_set [] r.attempted_provider_ids in
        let no_parent = is_none r.fallback_parent_attempt_id in
        if not (is_empty excluded) && no_parent
        then settled (defer_request deps request)
        else attempt_rounds rounds excluded r.fallback_parent_attempt_id
            (is_empty excluded && no_parent)
  ]

  unfoldable pub execute : ℕ → Action S ThrownError (Option NormalizationExecutionResult)
  unfolding after_reconciliation
  execute rounds =
      noting (λ r. reconciled r ∷ []) (deps.reconcile request.job_lease request.analysis_lease)
      and_then after_reconciliation rounds

-- The result of `finalizeCompleted`: nothing when another run has committed.
module _ {S : Type 0} (deps : Dependencies S) where
  unfoldable pub finalize_completed :
      CompletedFinalizationRequest → Action S ThrownError (Option TargetState)
  finalize_completed request =
      calling claiming (deps.claim_completed_finalization request) and_then λ claim. elim claim [
        | none ↦ return none
        | some epoch ↦
            let lease : AnalysisLeaseIdentity = record {
              analysis_id = request.analysis_id;
              owner = request.analysis_lease_owner;
              epoch = epoch;
            } in
            calling finalizing_candidate (
              deps.finalize_candidate request.job_lease lease request.candidate_id
                request.expected_candidate_state request.normalization_generation)
            and_then λ state. return (some state)
      ]
