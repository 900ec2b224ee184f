-- ===== src/Normalization/Protocol.antt =====
-- Theorems on the runs of apps/worker/src/providers/normalization-execution-coordinator.ts against
-- the life of an attempt.
use Prim.Native.Nat.{Ordering}
use amazon_research_agent.Base.{ℕ, String, true, false, Option, some, List, ◌≡◌}
use amazon_research_agent.Base.Result.{Result}
use amazon_research_agent.Normalization.Failures.{ThrownError}
use amazon_research_agent.Base.Actions.{return}
use amazon_research_agent.Normalization.Dependencies.{
  NormalizationExecutionRequest, NormalizationExecutionResult, Dependencies, Ran, Action,
}
use amazon_research_agent.Normalization.Coordinator.{
  Round, finished, retrying, exclude_failed, attempt_rounds,
}
use amazon_research_agent.Normalization.Lifecycle.{Phase, follow, is_some}

module _ (trim : String → String) (locale_compare : String → String → Ordering) {S : Type 0}
    (deps : Dependencies S) (request : NormalizationExecutionRequest) where
  abbrev pub rounds_from :
      ℕ → List String → Round → Action S ThrownError (Option NormalizationExecutionResult)
  rounds_from n excluded (finished result) = return (some result)
  rounds_from n excluded (retrying attempt failure id) =
      attempt_rounds trim locale_compare deps request n (exclude_failed excluded failure id)
        (some attempt) false

  abbrev IsFollowed : {A : Type 0} → Phase → Ran S ThrownError A → Type 0
  IsFollowed phase ran = is_some (follow trim request.entries phase ran.0) ≡ true
