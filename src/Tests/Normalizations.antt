-- ===== src/Tests/Normalizations.antt =====
-- Runs of apps/worker/src/providers/normalization-execution-coordinator.ts.
use amazon_research_agent.Base.{
  ℕ, String, true, false, none, some, [], ◌≡◌, ◌≢◌, refl, suc, zero, ◌≤◌, arith, includes,
}
use amazon_research_agent.Base.Result.{Result, ok, err}
use amazon_research_agent.Normalization.Failures.{
  ThrownError, with_failure_class, outcome_for, classified_outcome, failure_class, class_name,
  parse_class, find_class,
}
use amazon_research_agent.Normalization.Dependencies.{
  NormalizationExecutionRequest, Dependencies, AiProviderResult, codex, finalized, needs_review,
}
use amazon_research_agent.Base.Sets.{add_id, id_set}
use amazon_research_agent.Normalization.Coordinator.{
  execute, attempt_rounds, after_reconciliation, round, attempt_target, try_target,
  with_optional_permit, authorize_and_execute, settle_failure, fallback_allowed, finalize_winner,
  throw_if_aborted, exclude_failed, paid_primary_ids, is_paid_primary, routing_request, has_blank,
}
use amazon_research_agent.Normalization.Progress.{spawn_failures}
use amazon_research_agent.Normalization.Termination.{execute-terminates}
use amazon_research_agent.Router.{
  route_ai_request, collect, visit, model_candidates, candidate, billing_rank,
  supports_capabilities, excluded_provider_ids, permits_payg, compare_routes, compare_candidates,
}
use amazon_research_agent.Base.Order.{sort_by, insert_by}
use amazon_research_agent.Tests.Routes.{by_length, catalog}

-- The world counts the attempts. The first one meets a rate limit.
abbrev attempt_id : ℕ → String
attempt_id zero = "first"
attempt_id (suc n) = "later"

abbrev run_first : ℕ → ℕ × Result ThrownError AiProviderResult
run_first (suc zero) = (1, err (with_failure_class "rate_limited"))
run_first s = (
  s,
  ok (record {
    output = "{}";
    usage = "{}";
    latency_ms = 12;
    input_tokens = some 3;
    output_tokens = some 4;
    request_count = 1;
  }),
)

abbrev world : Dependencies ℕ
world = record {
  aborted = λ s. none;
  claim_completed_finalization = λ r s. (s, ok (some 2));
  reconcile = λ job analysis s. (
    s,
    ok (record {
      attempted_provider_ids = [];
      pending_winner_attempt_id = none;
      fallback_parent_attempt_id = none;
    }),
  );
  resolve_target = λ id model paid s. (
    s,
    ok (record {
      provider_id = id;
      model_id = model;
      adapter = some codex;
      expected_settings_revision = 1;
      expected_auth_generation = 1;
      expected_execution_fingerprint = "f";
    }),
  );
  acquire = λ adapter s. (s, ok tt);
  release = λ adapter s. s;
  begin = λ job analysis input s. (suc s, ok (attempt_id s));
  execute = λ target attempt request s. run_first s;
  append_outcome = λ job analysis report s. (s, ok tt);
  apply_failure = λ job analysis attempt failure s.
      (s, ok (record { allow_fallback = true; allow_replay = false }));
  finalize_analysis = λ job analysis attempt s. (s, ok tt);
  finalize_candidate = λ job analysis candidate state generation s. (s, ok needs_review);
  defer_candidate = λ job analysis candidate state generation s. (s, ok tt);
}

abbrev normalization : NormalizationExecutionRequest
normalization = record {
  job_lease = record { job_id = "job"; owner = "worker"; epoch = 1 };
  analysis_lease = record { analysis_id = "analysis"; owner = "worker"; epoch = 1 };
  candidate_id = "candidate";
  expected_candidate_state = "Imported";
  normalization_generation = 1;
  locale = "en";
  prompt = "p";
  input_hash = "h";
  entries = catalog;
}

abbrev as_is : String → String
as_is s = s

falls_back :
    (execute as_is by_length world normalization 2 0).2 ≡ ok (some (finalized needs_review))
unfolding execute after_reconciliation attempt_rounds round attempt_target try_target
    with_optional_permit authorize_and_execute settle_failure fallback_allowed finalize_winner
    throw_if_aborted exclude_failed add_id id_set paid_primary_ids is_paid_primary routing_request
    has_blank outcome_for classified_outcome failure_class class_name parse_class find_class
    route_ai_request collect visit model_candidates candidate billing_rank supports_capabilities
    excluded_provider_ids permits_payg compare_routes compare_candidates sort_by insert_by includes
falls_back = refl

no_spawn_failures : (n : ℕ) → spawn_failures (execute as_is by_length world normalization n 0).0 ≤ 0
unfolding execute after_reconciliation attempt_rounds round attempt_target try_target
    with_optional_permit authorize_and_execute settle_failure fallback_allowed finalize_winner
    throw_if_aborted exclude_failed add_id id_set paid_primary_ids is_paid_primary routing_request
    has_blank outcome_for classified_outcome failure_class class_name parse_class find_class
    route_ai_request collect visit model_candidates candidate billing_rank supports_capabilities
    excluded_provider_ids permits_payg compare_routes compare_candidates sort_by insert_by includes
    spawn_failures
no_spawn_failures zero = omega arith
no_spawn_failures (suc zero) = omega arith
no_spawn_failures (suc (suc n)) = omega arith

execute-terminates_example : (execute as_is by_length world normalization 4 0).2 ≢ ok none
execute-terminates_example =
    execute-terminates as_is by_length world normalization 0 0 (refl, (refl, (refl, tt)))
      no_spawn_failures
