-- ===== src/Normalization/Lifecycle.antt =====
-- The life of the attempts that apps/worker/src/providers/normalization-execution-coordinator.ts
-- makes, as phases that an event of a run may end or not.
use amazon_research_agent.Base.{
  Option-cases, inl, inr, String, Bool, true, false, not, ◌&&◌, ◌||◌, Option, none, some, List, [],
  ◌∷◌, ◌++◌, map, any, includes, is_empty, if◌then◌else◌, str_eq, ◌≡◌, refl,
}
use amazon_research_agent.Shared.Ai.{is_payg}
use amazon_research_agent.Router.{ProviderCatalogEntry}
use amazon_research_agent.Normalization.Failures.{
  ProviderAttemptEventType, attempt_succeeded, attempt_failed, attempt_cancelled,
  attempt_not_consumed,
}
use amazon_research_agent.Normalization.Dependencies.{
  AttemptEvent, reconciled, resolving, acquired, released, beginning, authorized, executing,
  appending, applying_failure, finalizing_analysis, finalizing_candidate, deferring, BeginAttempt,
}
use amazon_research_agent.Base.Sets.{add_id, id_set}
use amazon_research_agent.Normalization.Coordinator.{is_none}

-- `ready spent parent first`: no attempt is open, those of `spent` are used up, the next one follows
-- `parent`, and it is the first one of the analysis or not.
pub data Phase : Type 0 where
  unstarted finalizing closed : Phase
  ready : List String → Option String → Bool → Phase
  asked : List String → String → Phase
  opened running won : List String → String → String → Phase
  chosen : String → Phase

abbrev pub is_some : {A : Type 0} → Option A → Bool
is_some none = false
is_some (some a) = true

abbrev pub same_option : Option String → Option String → Bool
same_option none none = true
same_option none (some b) = false
same_option (some a) none = false
same_option (some a) (some b) = str_eq a b

-- Every entry of the catalog that has the id is billed by use.
unfoldable pub is_payg_only : List ProviderCatalogEntry → String → Bool
is_payg_only entries id =
    not (any (λ e. str_eq e.provider.id id && not (is_payg e.provider.billing_type)) entries)

abbrev when : Bool → Phase → Option Phase
when true phase = some phase
when false phase = none

-- After an outcome that is not a success.
abbrev pub after_failure : List String → String → String → ProviderAttemptEventType → Option Phase
after_failure spent provider attempt attempt_succeeded = none
after_failure spent provider attempt attempt_cancelled = some closed
after_failure spent provider attempt attempt_failed =
    some (ready (add_id spent provider) (some attempt) false)
after_failure spent provider attempt attempt_not_consumed = some (ready spent (some attempt) false)

abbrev pub after_outcome : List String → String → String → ProviderAttemptEventType → Option Phase
after_outcome spent provider attempt attempt_succeeded = some (won spent provider attempt)
after_outcome spent provider attempt attempt_cancelled = some closed
after_outcome spent provider attempt attempt_failed =
    some (ready (add_id spent provider) (some attempt) false)
after_outcome spent provider attempt attempt_not_consumed = some (ready spent (some attempt) false)

module _ (trim : String → String) (entries : List ProviderCatalogEntry) where
  -- What an attempt may be begun with.
  unfoldable pub may_begin : List String → Option String → Bool → BeginAttempt → Bool
  unfolding is_payg_only
  may_begin spent parent first input =
      not (includes (map trim spent) input.provider_id)
      && same_option input.fallback_parent_attempt_id parent
      && (is_empty spent || not (is_none parent))
      && (first || not input.initial_paid_primary)
      && (input.initial_paid_primary || not (is_payg_only entries input.provider_id))

  unfoldable pub next : Phase → AttemptEvent → Option Phase
  unfolding may_begin id_set add_id
  next phase (released adapter) = some phase
  next unstarted (reconciled r) = elim r.pending_winner_attempt_id [
    | some winner ↦ some (chosen winner)
    | none ↦
        let spent = id_set [] r.attempted_provider_ids in
        some (
          ready spent r.fallback_parent_attempt_id
            (is_empty spent && is_none r.fallback_parent_attempt_id))
  ]
  next (ready spent parent first) (resolving id model initial_paid) =
      some (ready spent parent first)
  next (ready spent parent first) (acquired adapter) = some (ready spent parent first)
  next (ready spent parent first) (beginning input) =
      when (may_begin spent parent first input) (asked spent input.provider_id)
  next (ready spent parent first) (applying_failure attempt failure) =
      when (same_option (some attempt) parent) (ready spent parent first)
  next (ready spent parent first) deferring = some closed
  next (asked spent provider) (authorized attempt) = some (opened spent provider attempt)
  next (opened spent provider attempt) (executing attempt' provider') =
      when (str_eq attempt' attempt && str_eq provider' provider) (running spent provider attempt)
  next (opened spent provider attempt) (appending report) =
      if str_eq report.attempt_id attempt
      then after_failure spent provider attempt report.event_type
      else none
  next (running spent provider attempt) (appending report) =
      if str_eq report.attempt_id attempt
      then after_outcome spent provider attempt report.event_type
      else none
  next (won spent provider attempt) (appending report) =
      if str_eq report.attempt_id attempt
      then after_failure spent provider attempt report.event_type
      else none
  next (won spent provider attempt) (finalizing_analysis attempt') =
      when (str_eq attempt' attempt) finalizing
  next (chosen attempt) (finalizing_analysis attempt') = when (str_eq attempt' attempt) finalizing
  next finalizing finalizing_candidate = some closed
  next _ _ = none

  abbrev pub then_next : Option Phase → (Phase → Option Phase) → Option Phase
  then_next none f = none
  then_next (some phase) f = f phase

  -- The phase after a list of events, when each of them may happen.
  unfoldable pub follow : Phase → List AttemptEvent → Option Phase
  unfolding next
  follow phase [] = some phase
  follow phase (event ∷ events) = then_next (next phase event) (λ p. follow p events)

  pub follow-append :
      (phase : Phase) (events more : List AttemptEvent)
      → follow phase (events ++ more) ≡ then_next (follow phase events) (λ p. follow p more)
  unfolding follow
  follow-append phase [] more = refl
  follow-append phase (event ∷ events) more = elim (Option-cases (next phase event)) [
    | inl e ↦ rw e refl
    | inr (p, e) ↦ rw e (follow-append p events more)
  ]
