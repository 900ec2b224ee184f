-- ===== src/Normalization/Progress.antt =====
-- Lemmas on what a round of apps/worker/src/providers/normalization-execution-coordinator.ts uses up.
use Prim.Native.Nat.{Ordering}
use amazon_research_agent.Base.{
  ℕ, String, Bool, true, false, not, ◌&&◌, ◌||◌, Option, none, some, List, [], ◌∷◌, ◌++◌, ◌≡◌, refl,
  arith, ◌+◌, ◌≤◌, suc, length, filter, map, any, includes, str_eq, str_eq_refl, str_eq_iff,
  if◌then◌else◌, Bool-cases, inl, inr, ap, subst,
}
use amazon_research_agent.Base.Result.{Result, ok, err}
use amazon_research_agent.Router.{
  ProviderCatalogEntry, RouteDecision, route, defer, route_ai_request,
}
use amazon_research_agent.Router.Sources.{route_ai_request-IsSource}
use amazon_research_agent.Normalization.Failures.{
  ThrownError, SubscriptionFailureClass, is_spawn_failure, failure_class, outcome_for,
  classified_outcome, attempt_not_consumed, ProviderAttemptEventType,
}
use amazon_research_agent.Base.Actions.{continue_with}
use amazon_research_agent.Normalization.Dependencies.{
  NormalizationExecutionRequest, NormalizationExecutionTarget, Dependencies, Ran, AttemptEvent,
  appending, resolving, SubscriptionAdapter,
}
use amazon_research_agent.Base.Sets.{add_id}
use amazon_research_agent.Normalization.Coordinator.{
  Failure, exclude_failed, settle_failure, fallback_allowed, Round, retrying, finished, after_try,
  finalize_winner, begin_attempt, try_target, paid_primary_ids, routing_request, defer_request,
  attempt_target, round, throw_if_aborted,
}
use amazon_research_agent.Shared.Ai.{AiModelDescriptor}
use amazon_research_agent.Normalization.Begins.{IsTrimmed, not_excluded}
use amazon_research_agent.Normalization.Rounds.{retry, at_target, decided}

abbrev is_not_consumed : ProviderAttemptEventType → Bool
is_not_consumed attempt_not_consumed = true
is_not_consumed _ = false

-- The attempts of a run that failed before their provider was started.
unfoldable pub spawn_failures : List AttemptEvent → ℕ
spawn_failures [] = 0
spawn_failures (appending report ∷ events) =
    (if is_not_consumed report.event_type then 1 else 0) + spawn_failures events
spawn_failures (_ ∷ events) = spawn_failures events

pub spawn_failures-append :
    (events more : List AttemptEvent)
    → spawn_failures (events ++ more) ≡ spawn_failures events + spawn_failures more
unfolding spawn_failures
spawn_failures-append [] more = omega arith
spawn_failures-append (event ∷ events) more = ground (arith, spawn_failures-append events more)

module _ (trim : String → String) where
  -- The entries of the catalog of which no provider is used up.
  unfoldable pub remaining : List String → List ProviderCatalogEntry → ℕ
  remaining excluded entries =
      length (filter (λ e. not (includes (map trim excluded) e.provider.id)) entries)

  includes-trimmed :
      (ids : List String) (id : String)
      → includes ids id ≡ true
      → includes (map trim ids) (trim id) ≡ true
  unfolding includes
  includes-trimmed [] id h = absurd (cc h)
  includes-trimmed (x ∷ xs) id h = ground (
    arith,
    includes-trimmed xs id,
    str_eq_iff x id,
    str_eq_refl (trim id),
    λ (e : x ≡ id). ap trim e,
  )

  includes-trimmed_append :
      (xs ys : List String) (key : String)
      → includes (map trim (xs ++ ys)) key
        ≡ (includes (map trim xs) key || includes (map trim ys) key)
  unfolding includes
  includes-trimmed_append [] ys key = refl
  includes-trimmed_append (x ∷ xs) ys key = ground (arith, includes-trimmed_append xs ys key)

  includes-add_id :
      (ids : List String) (id key : String)
      → trim id ≡ id
      → includes (map trim (add_id ids id)) key ≡ (includes (map trim ids) key || str_eq id key)
  unfolding add_id includes
  includes-add_id ids id key t =
      ground (
        arith,
        includes-trimmed_append ids (id ∷ []) key,
        includes-trimmed ids id,
        str_eq_iff id key,
      )

  pub remaining-add_id :
      (ids : List String) (id : String) (entries : List ProviderCatalogEntry)
      → trim id ≡ id
      → remaining (add_id ids id) entries ≤ remaining ids entries
  unfolding remaining
  remaining-add_id ids id [] t = omega arith
  remaining-add_id ids id (e ∷ es) t =
      ground (arith, includes-add_id ids id e.provider.id t, remaining-add_id ids id es t)

  -- A provider of the catalog that is newly excluded leaves fewer entries.
  remaining-excluded :
      (ids : List String) (id : String) (entries : List ProviderCatalogEntry)
      → trim id ≡ id
      → includes (map trim ids) id ≡ false
      → any (λ e. str_eq e.provider.id id) entries ≡ true
      → suc (remaining (add_id ids id) entries) ≤ remaining ids entries
  unfolding remaining
  remaining-excluded ids id [] t n h = absurd (cc h)
  remaining-excluded ids id (e ∷ es) t n h = ground (
    arith,
    includes-add_id ids id e.provider.id t,
    remaining-add_id ids id es t,
    remaining-excluded ids id es t n,
    str_eq_iff e.provider.id id,
    str_eq_refl id,
  )

-- A failure before the provider was started, which another attempt may follow, is put down.
abbrev IsCounted : {S : Type 0} → Ran S ThrownError (String × SubscriptionFailureClass) → Type 0
IsCounted (events, s, ok (attempt, failure)) =
    is_spawn_failure failure ≡ true → 1 ≤ spawn_failures events
IsCounted (events, s, err e) = Unit

abbrev IsRetry : {S : Type 0} → String → Ran S ThrownError Round → Type 0
IsRetry provider (events, s, ok (retrying attempt failure id)) =
    (id ≡ provider) × (is_spawn_failure failure ≡ true → 1 ≤ spawn_failures events)
IsRetry provider (events, s, ok (finished result)) = Unit
IsRetry provider (events, s, err e) = Unit

module _ {S : Type 0} (deps : Dependencies S) (request : NormalizationExecutionRequest) where
  fallback_allowed-result :
      (adapter : Option SubscriptionAdapter) (attempt : String) (f : SubscriptionFailureClass)
      (s : S)
      → is_spawn_failure f ≡ true
      → fallback_allowed deps request adapter attempt f s ≡ ([], s, ok true)
  unfolding fallback_allowed
  fallback_allowed-result adapter attempt f s h = ground arith

  settle_failure-IsCounted :
      (adapter : Option SubscriptionAdapter) (failure : Failure) (s : S)
      → IsCounted (settle_failure deps request adapter failure s)
  unfolding settle_failure outcome_for classified_outcome spawn_failures
  settle_failure-IsCounted adapter (none, e) s = tt
  settle_failure-IsCounted adapter (some attempt, e) s =
      let f = failure_class e in ground (arith, fallback_allowed-result adapter attempt f)

  retry_after :
      (target : NormalizationExecutionTarget) (events : List AttemptEvent)
      (ran : Ran S ThrownError (String × SubscriptionFailureClass))
      → IsCounted ran
      → let last = continue_with ran (retry target) in
        IsRetry target.provider_id (events ++ last.0, last.1, last.2)
  retry_after target events (more, s, ok (attempt, failure)) h = (
    refl,
    λ f.
        ground
          (arith, h f, spawn_failures-append events (more ++ []), spawn_failures-append more []),
  )
  retry_after target events (more, s, err e) h = tt

  finalized-IsRetry :
      (target : NormalizationExecutionTarget) (attempt : String) (events : List AttemptEvent)
      (s : S)
      → IsRetry target.provider_id (after_try deps request target (events, s, ok attempt))
  unfolding finalize_winner
  finalized-IsRetry target attempt events s = ground arith

  after_try-IsRetry :
      (target : NormalizationExecutionTarget) (ran : Ran S Failure String)
      → IsRetry target.provider_id (after_try deps request target ran)
  after_try-IsRetry target (events, s, ok attempt) = finalized-IsRetry target attempt events s
  after_try-IsRetry target (events, s, err failure) =
      retry_after target events (settle_failure deps request target.adapter failure s)
        (settle_failure-IsCounted target.adapter failure s)

-- A round that another one may follow uses up an entry of the catalog or puts down a failure before
-- the provider was started.
abbrev pub IsProgress :
    {S : Type 0}
    → (String → String)
    → List ProviderCatalogEntry
    → List String
    → Ran S ThrownError Round
    → Type 0
IsProgress trim entries excluded (events, s, ok (retrying attempt failure id)) =
    suc (remaining trim (exclude_failed excluded failure id) entries)
    ≤ remaining trim excluded entries + spawn_failures events
IsProgress trim entries excluded (events, s, ok (finished result)) = Unit
IsProgress trim entries excluded (events, s, err e) = Unit

module _ (trim : String → String) (locale_compare : String → String → Ordering) {S : Type 0}
    (deps : Dependencies S) (request : NormalizationExecutionRequest) where
  IsProgress-of_retry :
      (excluded : List String) (provider : String) (ran : Ran S ThrownError Round)
      → trim provider ≡ provider
      → includes (map trim excluded) provider ≡ false
      → any (λ e. str_eq e.provider.id provider) request.entries ≡ true
      → IsRetry provider ran
      → IsProgress trim request.entries excluded ran
  unfolding exclude_failed
  IsProgress-of_retry excluded provider (events, s, ok (retrying attempt failure id)) t n a h =
      ground (arith, h.0, h.1, remaining-excluded trim excluded provider request.entries t n a)
  IsProgress-of_retry excluded provider (events, s, ok (finished result)) t n a h = tt
  IsProgress-of_retry excluded provider (events, s, err e) t n a h = tt

  -- An event before a run does not change what it says.
  IsProgress-after :
      (excluded : List String) (event : AttemptEvent) (ran : Ran S ThrownError Round)
      → IsProgress trim request.entries excluded ran
      → IsProgress trim request.entries excluded (event ∷ ran.0, ran.1, ran.2)
  unfolding spawn_failures
  IsProgress-after excluded event (events, s, ok (retrying attempt failure id)) h = ground arith
  IsProgress-after excluded event (events, s, ok (finished result)) h = tt
  IsProgress-after excluded event (events, s, err e) h = tt

  all_trimmed :
      (entries : List ProviderCatalogEntry) (id : String)
      → IsTrimmed trim entries
      → any (λ e. str_eq e.provider.id id) entries ≡ true
      → trim id ≡ id
  all_trimmed [] id t a = absurd (cc a)
  all_trimmed (e ∷ es) id t a =
      ground (arith, t.0, all_trimmed es id t.1, str_eq_iff e.provider.id id)

  at_target-IsProgress :
      (paid excluded : List String) (parent : Option String) (model : AiModelDescriptor)
      (id : String) (target : NormalizationExecutionTarget) (s : S)
      → trim id ≡ id
      → includes (map trim excluded) id ≡ false
      → any (λ e. str_eq e.provider.id id) request.entries ≡ true
      → IsProgress trim request.entries excluded
          (at_target trim locale_compare deps request paid parent model id target s)
  at_target-IsProgress paid excluded parent model id target s t n a =
      let input = begin_attempt target parent (includes paid id) in
      let ran = after_try deps request target (try_target deps request target input s) in
      elim (Bool-cases (str_eq target.provider_id id && str_eq target.model_id model.id)) [
        | inl same ↦
            let same_id : target.provider_id ≡ id =
              ground (arith, str_eq_iff target.provider_id id) in
            rw same (
              IsProgress-of_retry excluded id ran t n a (
                subst (λ p. IsRetry p ran) same_id
                  (after_try-IsRetry deps request target (try_target deps request target input s))))
        | inr other ↦ rw other tt
      ]

  resolved-IsProgress :
      (paid excluded : List String) (parent : Option String) (model : AiModelDescriptor)
      (id : String) (event : AttemptEvent) (r : S × Result ThrownError NormalizationExecutionTarget)
      → trim id ≡ id
      → includes (map trim excluded) id ≡ false
      → any (λ e. str_eq e.provider.id id) request.entries ≡ true
      → IsProgress trim request.entries excluded (
          continue_with
            (event ∷ [], r.0, r.1)
            (at_target trim locale_compare deps request paid parent model id))
  resolved-IsProgress paid excluded parent model id event (s, ok target) t n a =
      IsProgress-after excluded event
        (at_target trim locale_compare deps request paid parent model id target s)
        (at_target-IsProgress paid excluded parent model id target s t n a)
  resolved-IsProgress paid excluded parent model id event (s, err e) t n a = tt

  decided-IsProgress :
      (first : Bool) (excluded : List String) (parent : Option String) (decision : RouteDecision)
      (s : S)
      → IsTrimmed trim request.entries
      → route_ai_request locale_compare
          (routing_request trim (paid_primary_ids first request.entries) excluded)
          request.entries
        ≡ decision
      → IsProgress trim request.entries excluded
          (decided trim locale_compare deps request first excluded parent decision s)
  decided-IsProgress first excluded parent (defer checked) s t h =
      unfold defer_request in ground arith
  decided-IsProgress first excluded parent (route provider id model) s t h =
      let paid = paid_primary_ids first request.entries in
      let asked = routing_request trim paid excluded in
      let (c, source) =
        route_ai_request-IsSource locale_compare asked request.entries provider id model h in
      let among : any (λ e. str_eq e.provider.id id) request.entries ≡ true =
        source.among (λ e. str_eq e.provider.id id)
          (ground (arith, source.same_id, str_eq_refl id)) in
      unfold attempt_target in
      resolved-IsProgress paid excluded parent model id (resolving id model.id (includes paid id))
        (deps.resolve_target id model.id (includes paid id) s)
        (all_trimmed request.entries id t among)
        (not_excluded trim locale_compare paid excluded request.entries id model c source) among

  pub round-IsProgress :
      (excluded : List String) (parent : Option String) (first : Bool) (s : S)
      → IsTrimmed trim request.entries
      → IsProgress trim request.entries excluded
          (round trim locale_compare deps request excluded parent first s)
  unfolding round throw_if_aborted
  round-IsProgress excluded parent first s t =
      let paid = paid_primary_ids first request.entries in
      let decision =
        route_ai_request locale_compare (routing_request trim paid excluded) request.entries in
      ground (arith, decided-IsProgress first excluded parent decision s t refl)
