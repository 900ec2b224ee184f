-- ===== src/Daily/Freshness.antt =====
-- Which endpoints a candidate of apps/worker/src/jobs/daily-research.ts still needs: those that its
-- commercial evidence asks for and the policy admits, and that have no fresh result. `Date.parse` is a
-- parameter, and so is the order of texts by code unit.
use Prim.Native.Nat.{Ordering}
use amazon_research_agent.Base.{
  ℕ, String, Bool, true, false, not, ◌&&◌, ◌||◌, ◌*◌, Option, none, some, List, [], ◌∷◌, filter,
  str_eq, if◌then◌else◌,
}
use amazon_research_agent.Base.Int.{ℤ, pos, ◌-ℤ◌, ltb_ℤ}
use amazon_research_agent.Base.Order.{is_gt}
use amazon_research_agent.Base.Table.{Table, get, set}
use amazon_research_agent.Shared.Endpoints.{
  JungleScoutEndpoint, product_database, keywords_by_keyword, historical_search_volume,
  sales_estimates, share_of_voice,
}
use amazon_research_agent.Budget.{default_cache_ttl_ms}
use amazon_research_agent.Planner.{ResearchPlanBucket, new, watch, strong}
use amazon_research_agent.Business.Evidence.{ResearchBusinessEvidence}
use amazon_research_agent.Business.Assessment.{ResearchBusinessAssessment}
use amazon_research_agent.Business.Admission.{
  assess_research_api_admission, is_explicit_initial_check,
}

abbrev pub hours_to_milliseconds : ℕ
hours_to_milliseconds = 60 * 60 * 1000

-- A row of evidence, of whose payload the time of the cached observation is read, when it is a text.
pub record EndpointEvidenceRow : Type 0 where
  pub candidate_id : String
  pub created_at : String
  pub id : String
  pub kind : String
  pub cache_captured_at : Option String

-- The kind of evidence that an endpoint leaves; the product database leaves none.
unfoldable pub endpoint_result_evidence_kind : JungleScoutEndpoint → Option String
endpoint_result_evidence_kind product_database = none
endpoint_result_evidence_kind keywords_by_keyword = some "keyword_metrics"
endpoint_result_evidence_kind historical_search_volume = some "historical_search_volume"
endpoint_result_evidence_kind sales_estimates = some "sales_estimates"
endpoint_result_evidence_kind share_of_voice = some "share_of_voice"

pub record FreshnessHours : Type 0 where
  pub new_freshness_hours : ℕ
  pub watch_freshness_hours : ℕ
  pub strong_freshness_hours : ℕ

unfoldable pub freshness_hours_for_bucket : FreshnessHours → ResearchPlanBucket → ℕ
freshness_hours_for_bucket settings new = settings.new_freshness_hours
freshness_hours_for_bucket settings watch = settings.watch_freshness_hours
freshness_hours_for_bucket settings strong = settings.strong_freshness_hours

pub record MissingInput : Type 0 where
  pub endpoint_evidence : Option (Table EndpointEvidenceRow)
  pub product_snapshot_at : Option String
  pub product_freshness_hours : ℕ
  pub now : ℤ

abbrev pub evidence_of :
    Option (Table EndpointEvidenceRow) → Option String → Option EndpointEvidenceRow
evidence_of none kind = none
evidence_of (some by_kind) none = none
evidence_of (some by_kind) (some kind) = get by_kind kind

module _ (compare_text : String → String → Ordering) where
  -- `row` takes the place of `previous`.
  unfoldable pub is_later : EndpointEvidenceRow → EndpointEvidenceRow → Bool
  is_later row previous =
      is_gt (compare_text row.created_at previous.created_at)
      || (str_eq row.created_at previous.created_at && is_gt (compare_text row.id previous.id))

  abbrev takes_place : EndpointEvidenceRow → Option EndpointEvidenceRow → Bool
  takes_place row none = true
  takes_place row (some previous) = is_later row previous

  abbrev or_empty_table : Option (Table EndpointEvidenceRow) → Table EndpointEvidenceRow
  or_empty_table none = []
  or_empty_table (some table) = table

  unfoldable pub keep_latest :
      EndpointEvidenceRow → Table EndpointEvidenceRow → Table EndpointEvidenceRow
  unfolding is_later
  keep_latest row by_kind =
      if takes_place row (get by_kind row.kind) then set by_kind row.kind row else by_kind

  unfoldable pub add_latest :
      Table (Table EndpointEvidenceRow)
      → List EndpointEvidenceRow
      → Table (Table EndpointEvidenceRow)
  unfolding keep_latest
  add_latest latest [] = latest
  add_latest latest (row ∷ rows) =
      let by_kind = or_empty_table (get latest row.candidate_id) in
      add_latest (set latest row.candidate_id (keep_latest row by_kind)) rows

  unfoldable pub latest_by_candidate_and_kind :
      List EndpointEvidenceRow → Table (Table EndpointEvidenceRow)
  unfolding add_latest
  latest_by_candidate_and_kind rows = add_latest [] rows

module _ (parse_date : String → Option ℤ) where
  -- An absent text and the empty one are not parsed.
  abbrev pub parse_captured : Option String → Option ℤ
  parse_captured none = none
  parse_captured (some text) = if str_eq text "" then none else parse_date text

  abbrev younger : Option ℤ → ℤ → ℤ → Bool
  younger none limit now = false
  younger (some captured) limit now = ltb_ℤ (now -ℤ captured) limit

  unfoldable pub is_fresh : Option String → ℕ → ℤ → Bool
  is_fresh captured_at freshness_hours now =
      younger (parse_captured captured_at) (pos (freshness_hours * hours_to_milliseconds)) now

  abbrev past_and_younger : Option ℤ → ℤ → ℤ → Bool
  past_and_younger none limit now = false
  past_and_younger (some captured) limit now =
      not (ltb_ℤ now captured) && ltb_ℤ (now -ℤ captured) limit

  unfoldable pub is_fresh_for_duration : Option String → ℤ → ℤ → Bool
  is_fresh_for_duration captured_at duration_ms now =
      past_and_younger (parse_captured captured_at) duration_ms now

  -- The text of an observation, when it parses and is not in the future.
  abbrev kept_if_past : String → Option ℤ → ℤ → Option String
  kept_if_past text none now = none
  kept_if_past text (some captured) now = if ltb_ℤ now captured then none else some text

  unfoldable pub snapshot_cache_observation_at : Option String → ℤ → Option String
  snapshot_cache_observation_at none now = none
  snapshot_cache_observation_at (some text) now = kept_if_past text (parse_date text) now

  abbrev pub observed_at : Option EndpointEvidenceRow → ℤ → Option String
  observed_at none now = none
  observed_at (some row) now = snapshot_cache_observation_at row.cache_captured_at now

  -- Whether an endpoint has a fresh result.
  unfoldable pub has_fresh_result : MissingInput → JungleScoutEndpoint → Bool
  unfolding is_fresh is_fresh_for_duration snapshot_cache_observation_at default_cache_ttl_ms
      endpoint_result_evidence_kind
  has_fresh_result input product_database =
      is_fresh input.product_snapshot_at input.product_freshness_hours input.now
  has_fresh_result input endpoint =
      is_fresh_for_duration
        (observed_at (evidence_of input.endpoint_evidence (endpoint_result_evidence_kind endpoint))
          input.now)
        (default_cache_ttl_ms endpoint) input.now

  unfoldable pub missing_admitted_endpoints :
      MissingInput → List JungleScoutEndpoint → List JungleScoutEndpoint
  unfolding has_fresh_result
  missing_admitted_endpoints input endpoints =
      filter (λ endpoint. not (has_fresh_result input endpoint)) endpoints

-- The context of a candidate's admission: the suffix of its keys depends on its latest evidence.
pub record ResearchBusinessAdmissionContext (N : Type 0) : Type 0 where
  pub assessment : ResearchBusinessAssessment N
  pub evidence : Option (ResearchBusinessEvidence N)
  pub idempotency_suffix : Option String

module _ {N : Type 0} where
  abbrev pub is_admitted :
      ResearchBusinessAssessment N → ResearchBusinessEvidence N → JungleScoutEndpoint → Bool
  is_admitted assessment e endpoint =
      (assess_research_api_admission assessment (some e) endpoint
        (is_explicit_initial_check (some e) endpoint)).allowed

  unfoldable pub admitted_requested_endpoints :
      ResearchBusinessAdmissionContext N → List JungleScoutEndpoint
  unfolding assess_research_api_admission is_explicit_initial_check
  admitted_requested_endpoints context = elim context.evidence [
    | none ↦ []
    | some e ↦ filter (is_admitted context.assessment e) e.requested_api_purposes
  ]
