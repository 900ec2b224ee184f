-- ===== src/Business/Admission/Guards.antt =====
-- Lemmas on admitted calls of apps/worker/src/jobs/research-business-policy.ts.
use amazon_research_agent.Base.{
  String, Bool, true, false, not, ◌&&◌, ◌||◌, Option, some, ◌≡◌, ◌⊎◌, arith, includes,
}
use amazon_research_agent.Base.Int.{ℤ}
use amazon_research_agent.Shared.Endpoints.{JungleScoutEndpoint}
use amazon_research_agent.Shared.Numbers.{Numbers}
use amazon_research_agent.Business.Evidence.{
  research, is_null, ResearchBusinessEvidence, ResearchBusinessSettings, is_pass,
}
use amazon_research_agent.Business.Assessment.{
  ResearchBusinessAssessment, assessed, stage_of, first_gaps, quote_stage,
}
use amazon_research_agent.Business.Costs.{
  estimated_launch_cash, exceeds, profitability_targets_pass,
}
use amazon_research_agent.Business.Admission.{
  assess_research_api_admission, admit, is_explicit_initial_check, has_known_profitability_failure,
  is_actionable, amounts_known,
}

module _ (n : Numbers) (parse_date : String → Option ℤ) (now : ℤ) where
  open n use {Number}

  -- The budget gap is among the first gaps exactly when the known launch cash passes the budget.
  budget_gap :
      (e : ResearchBusinessEvidence Number) (settings : ResearchBusinessSettings Number)
      → exceeds n (estimated_launch_cash n e) settings.launch_budget_usd ≡ true
      → includes (first_gaps n e settings) "launch_cash_exceeds_budget" ≡ true
  unfolding first_gaps includes
  budget_gap e settings h = ground arith

  targets_gap :
      (e : ResearchBusinessEvidence Number) (settings : ResearchBusinessSettings Number)
      → profitability_targets_pass n e settings ≡ false
      → includes (first_gaps n e settings) "profitability_targets_not_met" ≡ true
  unfolding first_gaps includes
  targets_gap e settings h = ground arith

  -- At the two stages of the first checks the gaps are the first gaps.
  early_stage :
      (e : ResearchBusinessEvidence Number) (settings : ResearchBusinessSettings Number)
      → is_actionable (stage_of n parse_date e now settings).0 ≡ true
      → ((stage_of n parse_date e now settings).1 ≡ first_gaps n e settings)
        × (not (is_pass e.brand_fit.status)
              || is_null e.sale_price.amount_usd
              || not (is_pass e.market_check.status)
            ≡ true)
  unfolding stage_of quote_stage
  early_stage e settings h = ground arith

  admit_guards :
      (a : ResearchBusinessAssessment Number) (e : ResearchBusinessEvidence Number)
      (endpoint : JungleScoutEndpoint) (explicit : Bool)
      → (admit a e endpoint explicit).allowed ≡ true
      → (explicit ≡ true)
        × (is_explicit_initial_check (some e) endpoint ≡ true)
        × (e.disposition ≡ research)
        × (includes a.gaps "launch_cash_exceeds_budget" ≡ false)
        × (includes a.gaps "profitability_targets_not_met" && amounts_known e e.selected_quote
            ≡ false)
        × (is_actionable a.stage ≡ true)
  unfolding admit has_known_profitability_failure
  admit_guards a e endpoint explicit h = ground arith

  -- What an admitted call says of the evidence.
  pub record IsAdmissible (e : ResearchBusinessEvidence Number)
      (settings : ResearchBusinessSettings Number) (endpoint : JungleScoutEndpoint)
      (explicit : Bool) : Type 0 where
    pub is_explicit : explicit ≡ true
    pub is_requested : is_explicit_initial_check (some e) endpoint ≡ true
    pub in_research : e.disposition ≡ research
    pub within_budget : exceeds n (estimated_launch_cash n e) settings.launch_budget_usd ≡ false
    pub still_open :
        not (is_pass e.brand_fit.status)
          || is_null e.sale_price.amount_usd
          || not (is_pass e.market_check.status)
        ≡ true
    pub not_unprofitable :
        (profitability_targets_pass n e settings ≡ true)
        ⊎ (amounts_known e e.selected_quote ≡ false)

  -- A paid call that is admitted on the assessment of the candidate's evidence is explicitly asked
  -- for and requested by the evidence, whose candidate is in research and whose first checks are
  -- still open; its known launch cash is within the budget, and its targets of profit are met or an
  -- amount they depend on is unknown.
  pub admit-IsAdmissible :
      (e : ResearchBusinessEvidence Number) (settings : ResearchBusinessSettings Number)
      (endpoint : JungleScoutEndpoint) (explicit : Bool)
      → (assess_research_api_admission
          (assessed n parse_date (some e) now settings)
          (some e)
          endpoint
          explicit).allowed
        ≡ true
      → IsAdmissible e settings endpoint explicit
  unfolding assess_research_api_admission assessed
  admit-IsAdmissible e settings endpoint explicit h =
      let g = admit_guards (assessed n parse_date (some e) now settings) e endpoint explicit h in
      let early = early_stage e settings g.5 in
      record {
        is_explicit = g.0;
        is_requested = g.1;
        in_research = g.2;
        within_budget = ground (arith, g.3, early.0, budget_gap e settings);
        still_open = early.1;
        not_unprofitable = ground (arith, g.4, early.0, targets_gap e settings);
      }
