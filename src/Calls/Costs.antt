-- ===== src/Calls/Costs.antt =====
-- Lemmas on the usage that apps/worker/src/jobs/budgeted-api-call.ts puts down.
use amazon_research_agent.Base.{
  ℕ, Bool, true, false, Option, none, some, List, [], ◌∷◌, ◌+◌, ◌≡◌, arith,
}
use amazon_research_agent.Base.Result.{Result, ok, err}
use amazon_research_agent.Calls.{
  BudgetedProviderResult, BudgetedCallOutcome, call_completed, CallError, client_error, StagedCall,
  parse_staged, CallEvent, recording, CallAnswers, persist_usage, fetch, perform, rethrow, decided,
  execute_budgeted_api_call,
}
use amazon_research_agent.Calls.Order.{is_allowed, queries}

abbrev is_none : {A : Type 0} → Option A → Bool
is_none none = true
is_none (some a) = false

module _ {J : Type 0} where
  -- The attempts at the provider that the run has put down as usage.
  unfoldable pub counted : List (CallEvent J) → ℕ
  counted [] = 0
  counted (recording used ∷ events) = used.call_count + counted events
  counted (_ ∷ events) = counted events

  -- `readStaged` is missing, or returns nothing that can be recovered.
  abbrev pub finds_nothing : Option (Result CallError (Option (StagedCall J))) → Bool
  finds_nothing none = true
  finds_nothing (some (err e)) = false
  finds_nothing (some (ok staged)) = is_none (parse_staged staged)

  abbrev pub is_completion : Result CallError (BudgetedCallOutcome J) → Bool
  is_completion (ok (call_completed attempts status from_cache payload captured)) = true
  is_completion _ = false

  -- When the provider's client fails in a call that the budget has allowed, with no response staged
  -- and nothing thrown while looking for one, the run has called the provider once, has put down
  -- exactly its attempts as usage, whether or not calls are claimed, and does not complete.
  pub execute-client_error :
      (ttl_ms : ℕ) (answers : CallAnswers J) (status : Option ℕ) (attempts : ℕ)
      → is_allowed answers.decision ≡ true
      → finds_nothing answers.staged ≡ true
      → answers.query ≡ err (client_error status attempts)
      → (queries (execute_budgeted_api_call ttl_ms answers).0 ≡ 1)
        × (counted (execute_budgeted_api_call ttl_ms answers).0 ≡ attempts)
        × (is_completion (execute_budgeted_api_call ttl_ms answers).1 ≡ false)
  unfolding execute_budgeted_api_call decided rethrow perform fetch parse_staged persist_usage
      queries counted
  execute-client_error ttl_ms answers status attempts d s q = ground arith

  -- When an earlier run has staged the provider's response and stopped, a run that the budget allows
  -- and whose writes succeed completes with that response, its attempts and its status, marked as
  -- recovered, without calling the provider.
  pub execute-recovers :
      (ttl_ms : ℕ) (answers : CallAnswers J) (fetched : BudgetedProviderResult J)
      → is_allowed answers.decision ≡ true
      → answers.staged
        ≡ some (
            ok (
              some (record {
                staged_payload = some fetched.payload;
                staged_attempts = some fetched.http_attempts;
                staged_status = some fetched.status;
              })))
      → answers.upsert_cache ≡ ok tt
      → answers.record_for_claim ≡ ok true
      → answers.complete ≡ some (ok tt)
      → ((execute_budgeted_api_call ttl_ms answers).1
          ≡ ok (
              call_completed fetched.http_attempts fetched.status true fetched.payload
                (some answers.now)))
        × (queries (execute_budgeted_api_call ttl_ms answers).0 ≡ 0)
  unfolding execute_budgeted_api_call decided rethrow perform fetch persist_usage parse_staged
      queries
  execute-recovers ttl_ms answers fetched d s u r c = ground arith
