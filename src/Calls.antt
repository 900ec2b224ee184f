-- ===== src/Calls.antt =====
-- apps/worker/src/jobs/budgeted-api-call.ts: one paid call under the budget. What the budget, the
-- provider and the database answer is a record; the run is the list of the calls made, in order, and
-- the result. JSON is a parameter type; counts of calls and statuses are natural numbers.
pub mod Order
pub mod Costs
use amazon_research_agent.Base.{
  ℕ, String, Bool, true, false, not, ◌||◌, ◌&&◌, Option, none, some, List, [], ◌∷◌, ◌++◌, ◌+◌, ◌-◌,
  if◌then◌else◌,
}
use amazon_research_agent.Base.Result.{Result, ok, err}
use amazon_research_agent.Budget.{
  ApiAuthorizationDecision, cache_hit, allowed, deferred_budget, in_flight, blocked_policy,
}

pub record BudgetedProviderResult (J : Type 0) : Type 0 where
  pub payload : J
  pub http_attempts : ℕ
  pub status : ℕ

pub data BudgetedCallOutcome (J : Type 0) : Type 0 where
  call_blocked_policy : BudgetedCallOutcome J
  call_deferred_budget : ℕ → BudgetedCallOutcome J
  call_in_flight : ℕ → BudgetedCallOutcome J
  call_completed : ℕ → ℕ → Bool → J → Option ℕ → BudgetedCallOutcome J

-- An error of the provider's client, with its status and its attempts, or another error.
pub data CallError : Type 0 where
  client_error : Option ℕ → ℕ → CallError
  other_error : String → CallError

-- What `readStaged` returns: nothing, or an object that may lack each property, or have it with
-- another type.
pub record StagedCall (J : Type 0) : Type 0 where
  pub staged_payload : Option J
  pub staged_attempts : Option ℕ
  pub staged_status : Option ℕ

abbrev or_number : Option ℕ → ℕ → ℕ
or_number none n = n
or_number (some m) n = m

unfoldable pub parse_staged :
    {J : Type 0} → Option (StagedCall J) → Option (BudgetedProviderResult J)
parse_staged none = none
parse_staged (some staged) = elim staged.staged_payload [
  | none ↦ none
  | some payload ↦ some (record {
    payload = payload;
    http_attempts = or_number staged.staged_attempts 0;
    status = or_number staged.staged_status 200;
  })
]

pub record ApiUsage : Type 0 where
  pub http_status : ℕ
  pub call_count : ℕ
  pub retry_count : ℕ
  pub success : Bool

-- The calls that a run makes. A response is cached with the times of its capture and its
-- expiry; a usage is recorded for the claim, or inserted.
pub data CallEvent (J : Type 0) : Type 0 where
  authorizing reading_cache reading_staged querying completing : CallEvent J
  staging : BudgetedProviderResult J → CallEvent J
  caching : J → ℕ → ℕ → CallEvent J
  recording : ApiUsage → CallEvent J

pub record CachedResponse (J : Type 0) : Type 0 where
  pub response : J
  pub captured_at : Option ℕ

-- The answers. The budget's optional methods answer `none` where they are missing.
pub record CallAnswers (J : Type 0) : Type 0 where
  pub decision : Result CallError ApiAuthorizationDecision
  pub staged : Option (Result CallError (Option (StagedCall J)))
  pub stage : Option (Result CallError Unit)
  pub complete : Option (Result CallError Unit)
  pub query : Result CallError (BudgetedProviderResult J)
  pub cache_entry : Result CallError (Option (CachedResponse J))
  pub upsert_cache : Result CallError Unit
  pub record_for_claim : Result CallError Bool
  pub insert_usage : Result CallError Unit
  pub now : ℕ
  pub next_budget_reset_at : ℕ

-- The calls made, and the result.
abbrev pub Run : (J A : Type 0) → Type 0
Run J A = List (CallEvent J) × Result CallError A

infixl 5 ◌then_run◌
abbrev pub ◌then_run◌ : {J A B : Type 0} → Run J A → (A → Run J B) → Run J B
(events, ok a) then_run f = let (more, result) = f a in (events ++ more, result)
(events, err e) then_run f = (events, err e)

-- A call of a method that may be missing, which then is no call and gives `missing`.
abbrev pub optional : {J A : Type 0} → CallEvent J → A → Option (Result CallError A) → Run J A
optional event missing none = ([], ok missing)
optional event missing (some result) = (event ∷ [], result)

abbrev pub usage : ℕ → ℕ → Bool → ApiUsage
usage status count success = record {
  http_status = status;
  call_count = count;
  retry_count = count - 1;
  success = success;
}

abbrev recorded : Result CallError Bool → Result CallError Unit
recorded (err e) = err e
recorded (ok true) = ok tt
recorded (ok false) = err (other_error "Could not persist API usage")

module _ {J : Type 0} where
  unfoldable pub persist_usage : CallAnswers J → ApiUsage → Run J Unit
  persist_usage answers used = elim answers.complete [
    | none ↦ (recording used ∷ [], answers.insert_usage)
    | some _ ↦ (recording used ∷ [], recorded answers.record_for_claim)
  ]

  -- The response: recovered from the stage, or queried and staged, and whether it was recovered.
  unfoldable pub fetch : CallAnswers J → Run J (BudgetedProviderResult J × Bool)
  fetch answers = optional reading_staged none answers.staged then_run λ staged.
      elim (parse_staged staged) [
        | some recovered ↦ ([], ok (recovered, true))
        | none ↦ (querying ∷ [], answers.query) then_run λ fetched.
            optional (staging fetched) tt answers.stage then_run λ _. ([], ok (fetched, false))
      ]

  -- The `try` of an allowed call.
  unfoldable pub perform : ℕ → CallAnswers J → Run J (BudgetedCallOutcome J)
  perform ttl_ms answers = fetch answers then_run λ fetched.
      (caching fetched.0.payload answers.now (answers.now + ttl_ms) ∷ [], answers.upsert_cache)
      then_run λ _.
          persist_usage answers (usage fetched.0.status fetched.0.http_attempts true) then_run λ _.
          optional completing tt answers.complete then_run λ _. (
            [],
            ok (
                call_completed fetched.0.http_attempts fetched.0.status fetched.1 fetched.0.payload
                  (some answers.now)),
          )

  -- The `catch` of an allowed call: an error of the client is counted, and every error is thrown on.
  unfoldable pub rethrow :
      CallAnswers J → Run J (BudgetedCallOutcome J) → Run J (BudgetedCallOutcome J)
  rethrow answers (events, ok outcome) = (events, ok outcome)
  rethrow answers (events, err (other_error m)) = (events, err (other_error m))
  rethrow answers (events, err (client_error status attempts)) = (events, ok tt) then_run λ _.
      persist_usage answers (usage (or_number status 0) attempts false) then_run λ _.
      ([], err (client_error status attempts))

  abbrev cached_outcome : Option (CachedResponse J) → Result CallError (BudgetedCallOutcome J)
  cached_outcome none = err (other_error "API cache entry is missing")
  cached_outcome (some entry) = ok (call_completed 0 200 true entry.response entry.captured_at)

  unfoldable pub decided :
      ℕ → CallAnswers J → ApiAuthorizationDecision → Run J (BudgetedCallOutcome J)
  decided ttl_ms answers (blocked_policy key reason) = ([], ok call_blocked_policy)
  decided ttl_ms answers (deferred_budget key) =
      ([], ok (call_deferred_budget answers.next_budget_reset_at))
  decided ttl_ms answers (in_flight key) = ([], ok (call_in_flight (answers.now + 15000)))
  decided ttl_ms answers (cache_hit key) =
      (reading_cache ∷ [], answers.cache_entry) then_run λ entry. ([], cached_outcome entry)
  decided ttl_ms answers (allowed key remaining) = rethrow answers (perform ttl_ms answers)

  unfoldable pub execute_budgeted_api_call : ℕ → CallAnswers J → Run J (BudgetedCallOutcome J)
  execute_budgeted_api_call ttl_ms answers =
      (authorizing ∷ [], answers.decision) then_run λ decision. decided ttl_ms answers decision
