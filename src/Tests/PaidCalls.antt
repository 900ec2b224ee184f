-- ===== src/Tests/PaidCalls.antt =====
-- Runs of apps/worker/src/jobs/budgeted-api-call.ts.
use amazon_research_agent.Base.{ℕ, ◌≡◌, refl, true, none, some, Option, ◌≤◌, ◌<◌}
use amazon_research_agent.Base.Int.{pos}
use amazon_research_agent.Base.Result.{Result, ok, err}
use amazon_research_agent.Budget.{allowed}
use amazon_research_agent.Calls.{
  BudgetedProviderResult, StagedCall, CallError, client_error, call_completed, CallAnswers,
  parse_staged, execute_budgeted_api_call,
}
use amazon_research_agent.Calls.Order.{queries, is_allowed, staged_value, execute-queries}
use amazon_research_agent.Calls.Costs.{finds_nothing, execute-recovers}

abbrev response : BudgetedProviderResult ℕ
response = record { payload = 7; http_attempts = 2; status = 200 }

abbrev answers_with :
    Option (Result CallError (Option (StagedCall ℕ)))
    → Option (Result CallError Unit)
    → Result CallError (BudgetedProviderResult ℕ)
    → CallAnswers ℕ
answers_with staged complete query = record {
  decision = ok (allowed "k" (pos 3));
  staged = staged;
  stage = some (ok tt);
  complete = complete;
  query = query;
  cache_entry = ok none;
  upsert_cache = ok tt;
  record_for_claim = ok true;
  insert_usage = ok tt;
  now = 1000;
  next_budget_reset_at = 5000;
}

abbrev fresh : CallAnswers ℕ
fresh = answers_with (some (ok none)) (some (ok tt)) (ok response)

abbrev failing_client : CallAnswers ℕ
failing_client = answers_with (some (ok none)) none (err (client_error (some 500) 3))

abbrev staged_response : StagedCall ℕ
staged_response = record {
  staged_payload = some 7;
  staged_attempts = some 2;
  staged_status = some 200;
}

abbrev staged_before : CallAnswers ℕ
staged_before = answers_with (some (ok (some staged_response))) (some (ok tt)) (ok response)

execute-queries_example :
    (queries (execute_budgeted_api_call 60 fresh).0 ≤ 1)
    × (0 < queries (execute_budgeted_api_call 60 fresh).0
        → (is_allowed (ok (allowed "k" (pos 3))) ≡ true) × (staged_value fresh.staged ≡ none))
execute-queries_example = execute-queries 60 fresh

finds_none : finds_nothing failing_client.staged ≡ true
unfolding parse_staged
finds_none = refl

execute-recovers_example :
    ((execute_budgeted_api_call 60 staged_before).1 ≡ ok (call_completed 2 200 true 7 (some 1000)))
    × (queries (execute_budgeted_api_call 60 staged_before).0 ≡ 0)
execute-recovers_example = execute-recovers 60 staged_before response refl refl refl refl refl
