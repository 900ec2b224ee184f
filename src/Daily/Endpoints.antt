-- ===== src/Daily/Endpoints.antt =====
-- Theorems on the endpoints that apps/worker/src/jobs/daily-research.ts still needs for a candidate.
use amazon_research_agent.Base.{
  String, false, not, Option, some, ◌≡◌, arith, All, All-filter_of_All, All-of_filter, All-zip,
  filter,
}
use amazon_research_agent.Base.Int.{ℤ}
use amazon_research_agent.Shared.Endpoints.{JungleScoutEndpoint}
use amazon_research_agent.Business.Evidence.{ResearchBusinessEvidence, ResearchBusinessSettings}
use amazon_research_agent.Shared.Numbers.{Numbers}
use amazon_research_agent.Business.Assessment.{assessed}
use amazon_research_agent.Business.Admission.{is_explicit_initial_check}
use amazon_research_agent.Business.Admission.Guards.{IsAdmissible, admit-IsAdmissible}
use amazon_research_agent.Daily.Freshness.{
  MissingInput, has_fresh_result, missing_admitted_endpoints, admitted_requested_endpoints,
  ResearchBusinessAdmissionContext, is_admitted,
}

module _ (n : Numbers) (parse_date : String → Option ℤ) (now : ℤ) where
  open n use {Number}

  -- The context that the worker loads for a candidate with evidence.
  abbrev pub context_of :
      ResearchBusinessEvidence Number
      → ResearchBusinessSettings Number
      → Option String
      → ResearchBusinessAdmissionContext Number
  context_of e settings suffix = record {
    assessment = assessed n parse_date (some e) now settings;
    evidence = some e;
    idempotency_suffix = suffix;
  }

  -- Every endpoint for which a daily run enqueues a job of a candidate is one that its commercial
  -- evidence requests and that the policy on paid calls admits: the candidate is in research with open
  -- first checks, and its launch cash is within the budget. Its result is not fresh.
  pub missing_admitted_endpoints-IsAdmissible :
      (e : ResearchBusinessEvidence Number) (settings : ResearchBusinessSettings Number)
      (suffix : Option String) (input : MissingInput)
      → All
          (λ endpoint.
            IsAdmissible n parse_date now e settings endpoint
              (is_explicit_initial_check (some e) endpoint)
            × (has_fresh_result parse_date input endpoint ≡ false))
          (missing_admitted_endpoints parse_date input
            (admitted_requested_endpoints (context_of e settings suffix)))
  unfolding missing_admitted_endpoints admitted_requested_endpoints
  missing_admitted_endpoints-IsAdmissible e settings suffix input =
      let assessment = assessed n parse_date (some e) now settings in
      let stale =
        λ (endpoint : JungleScoutEndpoint). not (has_fresh_result parse_date input endpoint) in
      let admitted = filter (is_admitted assessment e) e.requested_api_purposes in
      All-zip
        (λ endpoint.
          IsAdmissible n parse_date now e settings endpoint
            (is_explicit_initial_check (some e) endpoint))
        (λ endpoint. has_fresh_result parse_date input endpoint ≡ false) (filter stale admitted)
        (All-filter_of_All
          (λ endpoint.
            IsAdmissible n parse_date now e settings endpoint
              (is_explicit_initial_check (some e) endpoint))
          stale admitted
          (All-of_filter
            (λ endpoint.
              IsAdmissible n parse_date now e settings endpoint
                (is_explicit_initial_check (some e) endpoint))
            (is_admitted assessment e)
            (λ endpoint h.
              admit-IsAdmissible n parse_date now e settings endpoint
                (is_explicit_initial_check (some e) endpoint) h)
            e.requested_api_purposes))
        (All-of_filter (λ endpoint. has_fresh_result parse_date input endpoint ≡ false) stale
          (λ endpoint h. ground arith) admitted)
