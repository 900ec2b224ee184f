-- ===== src/Daily/Fanout.antt =====
-- The run of apps/worker/src/jobs/daily-research.ts: its checks, its plan, and the fanout of jobs with
-- a checkpoint after each candidate. Its surroundings are a record over the state of the world; the
-- planning of the worker is one of them. Keys are kept by their parts.
use Prim.Native.Nat.{Ordering}
use amazon_research_agent.Base.{
  String, Bool, true, false, ◌||◌, Option, none, some, List, [], ◌∷◌, any, is_empty, str_eq,
  if◌then◌else◌,
}
use amazon_research_agent.Base.Int.{ℤ}
use amazon_research_agent.Base.Table.{get}
use amazon_research_agent.Base.Actions.{Call, Action, return, ◌and_then◌, calling}
use amazon_research_agent.Base.Result.{Result, ok}
use amazon_research_agent.Shared.Endpoints.{
  JungleScoutEndpoint, product_database, keywords_by_keyword, historical_search_volume,
  sales_estimates, share_of_voice, same_endpoint, ApiCallPurpose, normal_validation,
  strong_revalidation,
}
use amazon_research_agent.Planner.{
  ResearchPlanBucket, strong, same_bucket, ResearchPlanItem, ResearchPlan,
}
use amazon_research_agent.Daily.Checkpoints.{
  DailyResearchCheckpoint, DailyResearchRunRecord, RunUpdate,
}
use amazon_research_agent.Daily.Freshness.{
  FreshnessHours, EndpointEvidenceRow, freshness_hours_for_bucket, snapshot_cache_observation_at,
  latest_by_candidate_and_kind, missing_admitted_endpoints, admitted_requested_endpoints,
  ResearchBusinessAdmissionContext,
}

-- What may be thrown: an error, or a value that is none.
pub data DailyError : Type 0 where
  daily_error : String → DailyError
  other_value : DailyError

pub record DailyResearchJobPayload : Type 0 where
  pub research_run_id : String
  pub logical_run_date : String
  pub locale : String

-- The keys of jobs: of a market probe, with the suffixes of the other jobs, and of the digest.
pub data IdempotencyKey : Type 0 where
  probe_key : String → ResearchPlanBucket → String → IdempotencyKey
  deep_key enrich_key : String → ResearchPlanBucket → String → String → IdempotencyKey
  digest_key : String → IdempotencyKey

-- The jobs that a run enqueues.
pub data ChildJob : Type 0 where
  market_probe : String → String → String → ApiCallPurpose → ChildJob
  deep_validation enrich_strong_potential : String → String → ChildJob
  send_digest : String → ChildJob

pub record DailyDependencies (S N : Type 0) : Type 0 where
  pub has_client : Bool
  pub now : Result DailyError ℤ
  pub now_text : String
  pub read_run : String → Call S DailyError (Option DailyResearchRunRecord)
  pub select_plan : Call S DailyError ResearchPlan
  pub publish_plan :
      String → List String → DailyResearchCheckpoint → String → Call S DailyError Bool
  pub update_run : String → RunUpdate → Call S DailyError Bool
  pub enqueue_job : ChildJob → IdempotencyKey → Call S DailyError String
  pub load_context : String → Call S DailyError (ResearchBusinessAdmissionContext N)
  pub read_settings : Call S DailyError FreshnessHours
  pub read_evidence : String → Call S DailyError (List EndpointEvidenceRow)
  pub read_snapshot : String → Call S DailyError (Option String)
  pub read_screening_candidates : Call S DailyError (List String)
  pub enqueue_normalization : String → String → Call S DailyError Unit
  pub rearm_waiting_candidates : String → Call S DailyError Unit
  pub insert_notification : String → String → Call S DailyError Unit

-- What a run does that lasts. `handling` stands before the jobs of an item.
pub data DailyEvent : Type 0 where
  publishing : List String → DailyResearchCheckpoint → DailyEvent
  handling : String → DailyEvent
  enqueueing : ChildJob → IdempotencyKey → DailyEvent
  updating : RunUpdate → DailyEvent
  normalizing : String → DailyEvent
  notifying : DailyEvent

abbrev pub Daily : Type 0 → Type 0 → Type 0
Daily S A = Action DailyEvent S DailyError A

-- A read, which is not an event.
abbrev pub reading : {S A : Type 0} → Call S DailyError A → Daily S A
reading call s = let (s', result) = call s in ([], s', result)

abbrev pub is_override : Option String → Bool
is_override none = false
is_override (some mode) = str_eq mode "override-reserve"

-- `childPayload`: the probe of an item.
unfoldable pub child_payload : ResearchPlanItem → String → String → Option String → ChildJob
child_payload item locale run_id mode = market_probe item.id locale run_id (
    if is_override mode || same_bucket item.bucket strong
    then strong_revalidation
    else normal_validation)

abbrev pub misses : JungleScoutEndpoint → List JungleScoutEndpoint → Bool
misses endpoint missing = any (same_endpoint endpoint) missing

abbrev pub when_do : {S : Type 0} → Bool → Daily S Unit → Daily S Unit
when_do true m = m
when_do false m = return tt

module _ {S N : Type 0} (parse_date : String → Option ℤ) (compare_text : String → String → Ordering)
    (deps : DailyDependencies S N) (now : ℤ) where
  abbrev pub enqueue : ChildJob → IdempotencyKey → Daily S Unit
  enqueue job key = calling (enqueueing job key) (deps.enqueue_job job key) and_then λ id. return tt

  -- The three reads, which the source awaits together.
  unfoldable pub load_missing_admitted_endpoints :
      String → List JungleScoutEndpoint → ResearchPlanBucket → Daily S (List JungleScoutEndpoint)
  unfolding missing_admitted_endpoints freshness_hours_for_bucket snapshot_cache_observation_at
      latest_by_candidate_and_kind
  load_missing_admitted_endpoints candidate_id admitted bucket =
      reading deps.read_settings and_then λ settings.
      reading (deps.read_evidence candidate_id) and_then λ rows.
      reading (deps.read_snapshot candidate_id) and_then λ captured. return (
        missing_admitted_endpoints parse_date
          (record {
            endpoint_evidence = get (latest_by_candidate_and_kind compare_text rows) candidate_id;
            product_snapshot_at = snapshot_cache_observation_at parse_date captured now;
            product_freshness_hours = freshness_hours_for_bucket settings bucket;
            now = now;
          })
          admitted)

  -- The jobs of an item, from the endpoints that it misses.
  unfoldable pub enqueue_missing :
      ResearchPlanItem
      → String
      → String
      → Option String
      → Option String
      → List JungleScoutEndpoint
      → Daily S Unit
  unfolding child_payload
  enqueue_missing item locale run_id mode suffix missing =
      if misses product_database missing
      then enqueue (child_payload item locale run_id mode) (probe_key run_id item.bucket item.id)
      else elim suffix [
        | none ↦ return tt
        | some suffix ↦
            when_do (misses keywords_by_keyword missing) (
              enqueue (deep_validation item.id locale) (deep_key run_id item.bucket item.id suffix))
            and_then λ _.
                when_do
                  (misses historical_search_volume missing
                    || misses sales_estimates missing
                    || misses share_of_voice missing)
                  (enqueue (enrich_strong_potential item.id locale)
                    (enrich_key run_id item.bucket item.id suffix))
      ]

  unfoldable pub enqueue_decision_aware_child :
      ResearchPlanItem → String → String → Option String → Daily S Unit
  unfolding admitted_requested_endpoints load_missing_admitted_endpoints enqueue_missing
  enqueue_decision_aware_child item locale run_id mode =
      reading (deps.load_context item.id) and_then λ context.
      let admitted = admitted_requested_endpoints context in
      if is_empty admitted
      then return tt
      else load_missing_admitted_endpoints item.id admitted item.bucket and_then λ missing.
          enqueue_missing item locale run_id mode context.idempotency_suffix missing

  unfoldable pub enqueue_item : ResearchPlanItem → String → String → Option String → Daily S Unit
  unfolding enqueue_decision_aware_child child_payload
  enqueue_item item locale run_id mode = (λ s. (handling item.id ∷ [], s, ok tt)) and_then λ _.
      if deps.has_client
      then enqueue_decision_aware_child item locale run_id mode
      else enqueue (child_payload item locale run_id mode) (probe_key run_id item.bucket item.id)
