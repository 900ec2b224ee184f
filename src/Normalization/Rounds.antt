-- ===== src/Normalization/Rounds.antt =====
-- Lemmas on the rounds of apps/worker/src/providers/normalization-execution-coordinator.ts.
use Prim.Native.Nat.{Ordering}
use mathlib.Core.List.{append-nil}
use amazon_research_agent.Base.{
  String, Bool, true, false, not, ◌&&◌, ◌||◌, Option, none, some, List, [], ◌∷◌, ◌≡◌, refl, arith,
  includes, is_empty, str_eq, str_eq_refl, str_eq_iff, inl, inr, Bool-cases, if◌then◌else◌,
}
use amazon_research_agent.Base.Result.{Result, ok, err}
use amazon_research_agent.Shared.Ai.{AiModelDescriptor}
use amazon_research_agent.Router.{AiProvider, route_ai_request, RouteDecision, route, defer}
use amazon_research_agent.Normalization.Failures.{
  ThrownError, with_message, SubscriptionFailureClass,
}
use amazon_research_agent.Base.Actions.{throw, continue_with, ◌and_then◌, return}
use amazon_research_agent.Normalization.Dependencies.{
  NormalizationExecutionRequest, NormalizationExecutionTarget, Dependencies, Ran, AttemptEvent,
  Action, resolving,
}
use amazon_research_agent.Normalization.Coordinator.{
  is_none, mismatch_message, Failure, Round, finished, retrying, after_try, exclude_failed,
  finalize_winner, settle_failure, try_target, attempt_target, round, defer_request,
  throw_if_aborted, paid_primary_ids, routing_request, begin_attempt,
}
use amazon_research_agent.Normalization.Lifecycle.{
  Phase, ready, won, follow, follow-append, next, is_some,
}
use amazon_research_agent.Normalization.Attempts.{
  IsTried, IsOpen, IsSettled, try_target-IsTried, settle_failure-IsSettled,
}
use amazon_research_agent.Normalization.Begins.{IsTrimmed, decision-may_begin}

-- Where a round leaves the attempts.
abbrev pub IsRound : List String → Result ThrownError Round → Option Phase → Type 0
IsRound spent (ok (finished result)) phase = is_some phase ≡ true
IsRound spent (ok (retrying attempt failure id)) phase =
    phase ≡ some (ready (exclude_failed spent failure id) (some attempt) false)
IsRound spent (err e) phase = is_some phase ≡ true

abbrev pub retry :
    {S : Type 0}
    → NormalizationExecutionTarget
    → String × SubscriptionFailureClass
    → Action S ThrownError Round
retry target (attempt, failure) = return (retrying attempt failure target.provider_id)

module _ (trim : String → String) (locale_compare : String → String → Ordering) {S : Type 0}
    (deps : Dependencies S) (request : NormalizationExecutionRequest) where
  won-IsRound :
      (spent : List String) (provider attempt : String) (s : S)
      → IsRound spent
          ((finalize_winner deps request attempt and_then λ r. return (finished r)) s).2
          (follow trim request.entries
            (won spent provider attempt)
            ((finalize_winner deps request attempt and_then λ r. return (finished r)) s).0)
  unfolding finalize_winner follow next
  won-IsRound spent provider attempt s = ground (arith, str_eq_refl attempt)

  retry_of :
      (target : NormalizationExecutionTarget) (phase : Phase) (spent : List String)
      (ran : Ran S ThrownError (String × SubscriptionFailureClass))
      → IsSettled trim request.entries deps request spent target.provider_id ran.2
          (follow trim request.entries phase ran.0)
      → IsRound spent
          (continue_with ran (retry target)).2
          (follow trim request.entries phase (continue_with ran (retry target)).0)
  retry_of target phase spent (events, s, ok (attempt, failure)) h = rw (append-nil events) h
  retry_of target phase spent (events, s, err e) h = h

  -- The `catch` on an attempt whose outcome is due.
  caught-IsRound :
      (target : NormalizationExecutionTarget) (attempt : String) (e : ThrownError) (phase : Phase)
      (spent : List String) (events : List AttemptEvent) (s : S) (start : Phase)
      → follow trim request.entries start events ≡ some phase
      → IsOpen trim request.entries spent target.provider_id attempt (some phase)
      → IsRound spent (after_try deps request target (events, s, err (some attempt, e))).2 (
          follow trim request.entries start
            (after_try deps request target (events, s, err (some attempt, e))).0)
  caught-IsRound target attempt e phase spent events s start f h =
      let ran = settle_failure deps request target.adapter (some attempt, e) s in
      let last = continue_with ran (retry target) in
      rw (follow-append trim request.entries start events last.0, f)
        (retry_of target phase spent ran (
          settle_failure-IsSettled trim request.entries deps request target.adapter attempt e phase
            spent target.provider_id s h))

  after_try-IsRound :
      (target : NormalizationExecutionTarget) (start : Phase) (spent : List String)
      (ran : Ran S Failure String)
      → IsTried trim request.entries spent target.provider_id ran.2
          (follow trim request.entries start ran.0)
      → IsRound spent
          (after_try deps request target ran).2
          (follow trim request.entries start (after_try deps request target ran).0)
  after_try-IsRound target start spent (events, s, ok attempt) h =
      let last = (finalize_winner deps request attempt and_then λ r. return (finished r)) s in
      rw (follow-append trim request.entries start events last.0, h)
        (won-IsRound spent target.provider_id attempt s)
  after_try-IsRound target start spent (events, s, err (none, e)) h =
      unfold settle_failure in rw (append-nil events) h
  after_try-IsRound target start spent (events, s, err (some attempt, e)) h = elim h [
    | inl o ↦ caught-IsRound target attempt e _ spent events s start o (inl refl)
    | inr (inl r) ↦ caught-IsRound target attempt e _ spent events s start r (inr (inl refl))
    | inr (inr w) ↦ caught-IsRound target attempt e _ spent events s start w (inr (inr refl))
  ]

  -- The part of an attempt that follows the resolution of its target.
  abbrev pub at_target :
      List String
      → Option String
      → AiModelDescriptor
      → String
      → NormalizationExecutionTarget
      → Action S ThrownError Round
  at_target paid parent model id target =
      if not (str_eq target.provider_id id && str_eq target.model_id model.id)
      then throw (with_message mismatch_message)
      else λ s.
          after_try deps request target
            (try_target deps request target (begin_attempt target parent (includes paid id)) s)

  at_target-IsRound :
      (first : Bool) (excluded : List String) (parent : Option String) (provider : AiProvider)
      (model : AiModelDescriptor) (id : String) (target : NormalizationExecutionTarget) (s : S)
      → IsTrimmed trim request.entries
      → (is_empty excluded || not (is_none parent)) ≡ true
      → route_ai_request locale_compare
          (routing_request trim (paid_primary_ids first request.entries) excluded)
          request.entries
        ≡ route provider id model
      → IsRound excluded
          (at_target (paid_primary_ids first request.entries) parent model id target s).2
          (follow trim request.entries
            (ready excluded parent first)
            (at_target (paid_primary_ids first request.entries) parent model id target s).0)
  unfolding follow
  at_target-IsRound first excluded parent provider model id target s t i h =
      let paid = paid_primary_ids first request.entries in
      let input = begin_attempt target parent (includes paid id) in
      elim (Bool-cases (str_eq target.provider_id id && str_eq target.model_id model.id)) [
        | inl same ↦
            let same_id : target.provider_id ≡ id =
              ground (arith, str_eq_iff target.provider_id id) in
            rw same (
              after_try-IsRound target (ready excluded parent first) excluded
                (try_target deps request target input s)
                (try_target-IsTried trim request.entries deps request target input excluded parent
                  first s refl
                  (decision-may_begin trim locale_compare request.entries first excluded parent
                    provider id model target t i h same_id)))
        | inr other ↦ rw other refl
      ]

  resolved-IsRound :
      (first : Bool) (excluded : List String) (parent : Option String) (provider : AiProvider)
      (model : AiModelDescriptor) (id : String)
      (r : S × Result ThrownError NormalizationExecutionTarget)
      → IsTrimmed trim request.entries
      → (is_empty excluded || not (is_none parent)) ≡ true
      → route_ai_request locale_compare
          (routing_request trim (paid_primary_ids first request.entries) excluded)
          request.entries
        ≡ route provider id model
      → let paid = paid_primary_ids first request.entries in
        let event = resolving id model.id (includes paid id) in
        IsRound excluded (continue_with (event ∷ [], r.0, r.1) (at_target paid parent model id)).2 (
          follow trim request.entries
            (ready excluded parent first)
            (continue_with (event ∷ [], r.0, r.1) (at_target paid parent model id)).0)
  unfolding follow next
  resolved-IsRound first excluded parent provider model id (s, ok target) t i h =
      at_target-IsRound first excluded parent provider model id target s t i h
  resolved-IsRound first excluded parent provider model id (s, err e) t i h = refl

  -- The part of a round that follows the decision.
  abbrev pub decided :
      Bool → List String → Option String → RouteDecision → Action S ThrownError Round
  decided first excluded parent (defer checked) =
      defer_request deps request and_then λ r. return (finished r)
  decided first excluded parent (route provider id model) =
      attempt_target trim locale_compare deps request (paid_primary_ids first request.entries)
        parent model id

  decided-IsRound :
      (first : Bool) (excluded : List String) (parent : Option String) (decision : RouteDecision)
      (s : S)
      → IsTrimmed trim request.entries
      → (is_empty excluded || not (is_none parent)) ≡ true
      → route_ai_request locale_compare
          (routing_request trim (paid_primary_ids first request.entries) excluded)
          request.entries
        ≡ decision
      → IsRound excluded (decided first excluded parent decision s).2 (
          follow trim request.entries
            (ready excluded parent first)
            (decided first excluded parent decision s).0)
  unfolding follow next
  decided-IsRound first excluded parent (defer checked) s t i h =
      unfold defer_request in ground arith
  decided-IsRound first excluded parent (route provider id model) s t i h =
      unfold attempt_target in
      resolved-IsRound first excluded parent provider model id
        (deps.resolve_target id model.id (includes (paid_primary_ids first request.entries) id) s) t
        i h

  pub round-IsRound :
      (excluded : List String) (parent : Option String) (first : Bool) (s : S)
      → IsTrimmed trim request.entries
      → (is_empty excluded || not (is_none parent)) ≡ true
      → IsRound excluded (round trim locale_compare deps request excluded parent first s).2 (
          follow trim request.entries
            (ready excluded parent first)
            (round trim locale_compare deps request excluded parent first s).0)
  unfolding round throw_if_aborted follow
  round-IsRound excluded parent first s t i =
      let paid = paid_primary_ids first request.entries in
      let decision =
        route_ai_request locale_compare (routing_request trim paid excluded) request.entries in
      ground (arith, decided-IsRound first excluded parent decision s t i refl)
