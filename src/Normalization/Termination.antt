-- ===== src/Normalization/Termination.antt =====
-- The rounds that apps/worker/src/providers/normalization-execution-coordinator.ts needs.
use Prim.Native.Nat.{Ordering}
use amazon_research_agent.Base.{
  ℕ, String, Bool, false, Option, none, some, List, [], ◌∷◌, ◌++◌, ◌≡◌, ◌≢◌, arith, ◌+◌, ◌≤◌, zero,
  suc, length, length-filter, not, includes, map, is_empty, ◌&&◌,
}
use amazon_research_agent.Base.Result.{Result, ok, err}
use amazon_research_agent.Router.{ProviderCatalogEntry}
use amazon_research_agent.Normalization.Failures.{ThrownError}
use amazon_research_agent.Base.Actions.{continue_with, noted}
use amazon_research_agent.Normalization.Dependencies.{
  NormalizationExecutionRequest, NormalizationExecutionResult, Dependencies, Ran, reconciled,
  Reconciliation, AttemptEvent,
}
use amazon_research_agent.Base.Sets.{id_set}
use amazon_research_agent.Normalization.Coordinator.{
  is_none, exclude_failed, Round, retrying, finished, round, attempt_rounds, execute,
  after_reconciliation, finalize_winner, defer_request,
}
use amazon_research_agent.Normalization.Begins.{IsTrimmed}
use amazon_research_agent.Normalization.Progress.{
  remaining, spawn_failures, spawn_failures-append, IsProgress, round-IsProgress,
}
use amazon_research_agent.Normalization.Protocol.{rounds_from}

-- A run that has used up its rounds has excluded entries or has put down failures for each of them.
abbrev IsUsed :
    {S : Type 0}
    → (String → String)
    → List ProviderCatalogEntry
    → ℕ
    → List String
    → Ran S ThrownError (Option NormalizationExecutionResult)
    → Type 0
IsUsed trim entries n excluded (events, s, ok none) =
    n ≤ remaining trim excluded entries + spawn_failures events
IsUsed trim entries n excluded (events, s, ok (some result)) = Unit
IsUsed trim entries n excluded (events, s, err e) = Unit

module _ (trim : String → String) (locale_compare : String → String → Ordering) {S : Type 0}
    (deps : Dependencies S) (request : NormalizationExecutionRequest) where
  IsUsed-after :
      (n : ℕ) (excluded spent : List String) (events : List AttemptEvent)
      (ran : Ran S ThrownError (Option NormalizationExecutionResult))
      → suc (remaining trim spent request.entries)
        ≤ remaining trim excluded request.entries + spawn_failures events
      → IsUsed trim request.entries n spent ran
      → IsUsed trim request.entries (suc n) excluded (events ++ ran.0, ran.1, ran.2)
  IsUsed-after n excluded spent events (more, s, ok none) p h =
      ground (arith, spawn_failures-append events more)
  IsUsed-after n excluded spent events (more, s, ok (some result)) p h = tt
  IsUsed-after n excluded spent events (more, s, err e) p h = tt

  continued-IsUsed :
      (n : ℕ) (excluded : List String) (ran : Ran S ThrownError Round)
      → ((attempt : String) (spent : List String) (s : S)
          → IsUsed trim request.entries n spent
              (attempt_rounds trim locale_compare deps request n spent (some attempt) false s))
      → IsProgress trim request.entries excluded ran
      → IsUsed trim request.entries
          (suc n)
          excluded
          (continue_with ran (rounds_from trim locale_compare deps request n excluded))
  continued-IsUsed n excluded (events, s, ok (finished result)) ih p = tt
  continued-IsUsed n excluded (events, s, ok (retrying attempt failure id)) ih p =
      let spent = exclude_failed excluded failure id in
      IsUsed-after n excluded spent events
        (attempt_rounds trim locale_compare deps request n spent (some attempt) false s) p
        (ih attempt spent s)
  continued-IsUsed n excluded (events, s, err e) ih p = tt

  attempt_rounds-IsUsed :
      (n : ℕ) (excluded : List String) (parent : Option String) (first : Bool) (s : S)
      → IsTrimmed trim request.entries
      → IsUsed trim request.entries n excluded
          (attempt_rounds trim locale_compare deps request n excluded parent first s)
  unfolding attempt_rounds
  attempt_rounds-IsUsed zero excluded parent first s t = omega arith
  attempt_rounds-IsUsed (suc n) excluded parent first s t =
      continued-IsUsed n excluded (round trim locale_compare deps request excluded parent first s)
        (λ attempt spent s'. attempt_rounds-IsUsed n spent (some attempt) false s' t)
        (round-IsProgress trim locale_compare deps request excluded parent first s t)

  -- Of a run that has used up its rounds, the failures before a provider was started.
  abbrev IsSpent : ℕ → Ran S ThrownError (Option NormalizationExecutionResult) → Type 0
  IsSpent n (events, s, ok none) = n ≤ length request.entries + spawn_failures events
  IsSpent n (events, s, ok (some result)) = Unit
  IsSpent n (events, s, err e) = Unit

  IsSpent-of_used :
      (n : ℕ) (excluded : List String) (r : Reconciliation)
      (ran : Ran S ThrownError (Option NormalizationExecutionResult))
      → IsUsed trim request.entries n excluded ran
      → IsSpent n (reconciled r ∷ ran.0, ran.1, ran.2)
  unfolding remaining spawn_failures
  IsSpent-of_used n excluded r (events, s, ok none) h =
      ground (
        arith,
        length-filter (λ e. not (includes (map trim excluded) e.provider.id)) request.entries,
      )
  IsSpent-of_used n excluded r (events, s, ok (some result)) h = tt
  IsSpent-of_used n excluded r (events, s, err e) h = tt

  begun-IsSpent :
      (n : ℕ) (r : S × Result ThrownError Reconciliation)
      → IsTrimmed trim request.entries
      → IsSpent n (
          continue_with
            (noted (λ r. reconciled r ∷ []) r)
            (after_reconciliation trim locale_compare deps request n))
  unfolding after_reconciliation finalize_winner defer_request
  begun-IsSpent n (s, ok r) t =
      let excluded = id_set [] r.attempted_provider_ids in
      let parent = r.fallback_parent_attempt_id in
      let first = is_empty excluded && is_none parent in
      ground (
        arith,
        IsSpent-of_used n excluded r
            (attempt_rounds trim locale_compare deps request n excluded parent first s)
            (attempt_rounds-IsUsed n excluded parent first s t),
      )
  begun-IsSpent n (s, err e) t = tt

  result_of_spent :
      (n : ℕ) (ran : Ran S ThrownError (Option NormalizationExecutionResult))
      → IsSpent n ran
      → ran.2 ≡ ok none
      → n ≤ length request.entries + spawn_failures ran.0
  result_of_spent n (events, s, ok none) h e = h
  result_of_spent n (events, s, ok (some result)) h e = absurd (cc e)
  result_of_spent n (events, s, err e) h e' = absurd (cc e')

  -- The loop of the coordinator ends. When the ids of the catalog are trimmed and, however long the
  -- loop runs, at most `k` attempts fail before their provider is started, then one round more than
  -- the entries of the catalog and `k` is enough to return or to throw.
  pub execute-terminates :
      (k : ℕ) (s : S)
      → IsTrimmed trim request.entries
      → ((n : ℕ) → spawn_failures (execute trim locale_compare deps request n s).0 ≤ k)
      → (execute trim locale_compare deps request (suc (length request.entries + k)) s).2 ≢ ok none
  unfolding execute
  execute-terminates k s t bound e =
      let n = suc (length request.entries + k) in
      let ran =
        continue_with
          (noted (λ r. reconciled r ∷ [])
            (deps.reconcile request.job_lease request.analysis_lease s))
          (after_reconciliation trim locale_compare deps request n) in
      let spent =
        result_of_spent n ran
          (begun-IsSpent n (deps.reconcile request.job_lease request.analysis_lease s) t) e in
      omega (arith, spent, bound n)
