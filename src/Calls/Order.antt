-- ===== src/Calls/Order.antt =====
-- Lemmas on when apps/worker/src/jobs/budgeted-api-call.ts calls the provider.
use amazon_research_agent.Base.{
  ℕ, Bool, true, false, Option, none, some, List, [], ◌∷◌, ◌+◌, ◌≡◌, arith, ◌≤◌, ◌<◌,
}
use amazon_research_agent.Base.Result.{Result, ok}
use amazon_research_agent.Budget.{ApiAuthorizationDecision, allowed}
use amazon_research_agent.Calls.{
  BudgetedProviderResult, CallError, StagedCall, parse_staged, CallEvent, querying, CallAnswers,
  persist_usage, fetch, perform, rethrow, decided, execute_budgeted_api_call,
}

abbrev pub is_allowed : Result CallError ApiAuthorizationDecision → Bool
is_allowed (ok (allowed key remaining)) = true
is_allowed _ = false

module _ {J : Type 0} where
  -- How often the provider is called.
  unfoldable pub queries : List (CallEvent J) → ℕ
  queries [] = 0
  queries (querying ∷ events) = 1 + queries events
  queries (_ ∷ events) = queries events

  -- What `readStaged` has returned.
  abbrev pub staged_value :
      Option (Result CallError (Option (StagedCall J))) → Option (BudgetedProviderResult J)
  staged_value (some (ok staged)) = parse_staged staged
  staged_value _ = none

  -- A run calls the provider at most once, and only when the budget has allowed the call and no
  -- response is staged.
  pub execute-queries :
      (ttl_ms : ℕ) (answers : CallAnswers J)
      → (queries (execute_budgeted_api_call ttl_ms answers).0 ≤ 1)
        × (0 < queries (execute_budgeted_api_call ttl_ms answers).0
            → (is_allowed answers.decision ≡ true) × (staged_value answers.staged ≡ none))
  unfolding execute_budgeted_api_call decided rethrow perform fetch persist_usage queries
  execute-queries ttl_ms answers = ground arith
