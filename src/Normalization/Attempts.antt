-- ===== src/Normalization/Attempts.antt =====
-- Lemmas on one attempt of apps/worker/src/providers/normalization-execution-coordinator.ts.
use amazon_research_agent.Base.{
  String, Bool, true, false, Option, none, some, List, if◌then◌else◌, str_eq_refl, ◌≡◌, arith, ◌⊎◌,
}
use amazon_research_agent.Base.Result.{Result, ok, err}
use amazon_research_agent.Router.{ProviderCatalogEntry}
use amazon_research_agent.Normalization.Failures.{
  ThrownError, SubscriptionFailureClass, outcome_for, classified_outcome, failure_class,
  is_cancellation,
}
use amazon_research_agent.Normalization.Dependencies.{
  NormalizationExecutionRequest, NormalizationExecutionTarget, BeginAttempt, Dependencies,
  SubscriptionAdapter, appending,
}
use amazon_research_agent.Normalization.Coordinator.{
  throw_if_aborted, with_optional_permit, authorize_and_execute, try_target, Failure,
  settle_failure, fallback_allowed, failure_report, exclude_failed,
}
use amazon_research_agent.Normalization.Lifecycle.{
  Phase, closed, ready, opened, running, won, follow, next, may_begin, is_some,
}

module _ (trim : String → String) (entries : List ProviderCatalogEntry) where
  -- The phases in which the outcome of an attempt is due.
  abbrev pub IsOpen : List String → String → String → Option Phase → Type 0
  IsOpen spent provider attempt phase =
      (phase ≡ some (opened spent provider attempt))
      ⊎ (phase ≡ some (running spent provider attempt))
      ⊎ (phase ≡ some (won spent provider attempt))

  -- Where the `try` leaves an attempt.
  abbrev pub IsTried : List String → String → Result Failure String → Option Phase → Type 0
  IsTried spent provider (ok attempt) phase = phase ≡ some (won spent provider attempt)
  IsTried spent provider (err (none, e)) phase = is_some phase ≡ true
  IsTried spent provider (err (some attempt, e)) phase = IsOpen spent provider attempt phase

  module _ {S : Type 0} (deps : Dependencies S) (request : NormalizationExecutionRequest) where
    pub try_target-IsTried :
        (target : NormalizationExecutionTarget) (input : BeginAttempt) (spent : List String)
        (parent : Option String) (first : Bool) (s : S)
        → input.provider_id ≡ target.provider_id
        → may_begin trim entries spent parent first input ≡ true
        → IsTried spent target.provider_id (try_target deps request target input s).2 (
            follow trim entries
              (ready spent parent first)
              (try_target deps request target input s).0)
    unfolding try_target with_optional_permit authorize_and_execute throw_if_aborted follow next
    try_target-IsTried target input spent parent first s same h = grind (arith, str_eq_refl)

    -- Where the `catch` leaves an attempt.
    abbrev pub IsSettled :
        List String
        → String
        → Result ThrownError (String × SubscriptionFailureClass)
        → Option Phase
        → Type 0
    IsSettled spent provider (ok (attempt, failure)) phase =
        phase ≡ some (ready (exclude_failed spent failure provider) (some attempt) false)
    IsSettled spent provider (err e) phase = is_some phase ≡ true

    fallback_allowed-phase :
        (adapter : Option SubscriptionAdapter) (attempt : String)
        (failure : SubscriptionFailureClass) (spent : List String) (s : S)
        → follow trim entries
            (ready spent (some attempt) false)
            (fallback_allowed deps request adapter attempt failure s).0
          ≡ some (ready spent (some attempt) false)
    unfolding fallback_allowed follow next
    fallback_allowed-phase adapter attempt failure spent s = grind (arith, str_eq_refl)

    classified_outcome-failure :
        (failure : SubscriptionFailureClass) → (classified_outcome failure).failure ≡ failure
    unfolding classified_outcome
    classified_outcome-failure failure = ground arith

    -- The phase after a failure was put down.
    abbrev settled_phase : List String → String → String → SubscriptionFailureClass → Phase
    settled_phase spent provider attempt failure =
        if is_cancellation failure
        then closed
        else ready (exclude_failed spent failure provider) (some attempt) false

    next-appending :
        (attempt : String) (failure : SubscriptionFailureClass) (phase : Phase)
        (spent : List String) (provider : String)
        → IsOpen spent provider attempt (some phase)
        → next trim entries phase (appending (failure_report attempt (classified_outcome failure)))
          ≡ some (settled_phase spent provider attempt failure)
    unfolding next classified_outcome exclude_failed
    next-appending attempt failure phase spent provider h = grind (arith, str_eq_refl)

    pub settle_failure-IsSettled :
        (adapter : Option SubscriptionAdapter) (attempt : String) (e : ThrownError) (phase : Phase)
        (spent : List String) (provider : String) (s : S)
        → IsOpen spent provider attempt (some phase)
        → IsSettled spent provider
            (settle_failure deps request adapter (some attempt, e) s).2
            (follow trim entries phase (settle_failure deps request adapter (some attempt, e) s).0)
    unfolding settle_failure outcome_for follow
    settle_failure-IsSettled adapter attempt e phase spent provider s h =
        let failure = failure_class e in
        let ready_again = exclude_failed spent failure provider in
        ground (
          arith,
          next-appending attempt failure phase spent provider h,
          classified_outcome-failure failure,
          fallback_allowed-phase adapter attempt failure ready_again
              (deps.append_outcome request.job_lease request.analysis_lease
                (failure_report attempt (classified_outcome failure)) s).0,
        )
