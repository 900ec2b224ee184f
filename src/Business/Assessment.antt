-- ===== src/Business/Assessment.antt =====
-- packages/shared/src/research-business-assessment.ts: the gaps in the evidence and
-- the stage of a candidate.
pub mod Purchase
use amazon_research_agent.Base.{
  ℕ, String, Bool, true, false, not, ◌&&◌, ◌||◌, Option, none, some, List, [], ◌∷◌, ◌++◌, all,
  if◌then◌else◌,
}
use amazon_research_agent.Base.Int.{ℤ, ltb_ℤ}
use amazon_research_agent.Base.Result.{Result, ok, err}
use amazon_research_agent.Shared.Numbers.{Numbers}
use amazon_research_agent.Business.Evidence.{
  Basis, is_estimate, CheckStatus, is_pass, Disposition, research, awaiting_quote, awaiting_sample,
  rejected, Coverage, is_included, is_null, ResearchBusinessMoney, LandedCostCoverage,
  SelectedQuote, ResearchBusinessEvidence, ResearchBusinessSettings, when, settings_valid,
}
use amazon_research_agent.Business.Costs.{
  amazon_fees, estimated_launch_cash, estimated_margin, estimated_unit_contribution, exceeds,
  landed_unit_cost_of, money_usd, profitability_targets_pass, sum_known,
}

pub data ResearchBusinessStage : Type 0 where
  basic_check market_validation quote_ready at_awaiting_quote : ResearchBusinessStage
  at_awaiting_sample purchase_review hold reject : ResearchBusinessStage

pub record ResearchBusinessAssessment (N : Type 0) : Type 0 where
  pub stage : ResearchBusinessStage
  pub gaps : List String
  pub settings : ResearchBusinessSettings N
  pub estimated_launch_cash_usd : Option N
  pub estimated_unit_contribution_usd : Option N
  pub estimated_margin_pct : Option N
  pub purchase_approved : Bool

pub data AssessmentError : Type 0 where
  invalid_settings : AssessmentError

abbrev pub is_rejected : Disposition → Bool
is_rejected rejected = true
is_rejected _ = false

abbrev pub is_awaiting_quote : Disposition → Bool
is_awaiting_quote awaiting_quote = true
is_awaiting_quote _ = false

abbrev pub is_awaiting_sample : Disposition → Bool
is_awaiting_sample awaiting_sample = true
is_awaiting_sample _ = false

-- `expiry` is null, or a time in milliseconds that may be NaN.
abbrev pub expiry_of : (String → Option ℤ) → Option String → Option (Option ℤ)
expiry_of parse_date none = none
expiry_of parse_date (some t) = some (parse_date t)

abbrev pub is_expired : Option (Option ℤ) → ℤ → Bool
is_expired (some (some t)) now = not (ltb_ℤ now t)
is_expired _ now = false

unfoldable pub covers_landed_cost : LandedCostCoverage → Bool
covers_landed_cost c =
    all is_included (c.product ∷ c.packaging ∷ c.freight ∷ c.duties ∷ c.delivery ∷ [])

module _ (n : Numbers) where
  open n use {Number, of, add, sub, mul, div, lt, le}

  -- The gaps that are looked for in every candidate that is not rejected.
  unfoldable pub first_gaps :
      ResearchBusinessEvidence Number → ResearchBusinessSettings Number → List String
  first_gaps e settings =
      when (not (is_pass e.brand_fit.status)) "brand_fit"
      ++ (when (is_null (money_usd n e.sale_price)) "sale_price"
          ++ (when (is_null (sum_known n (amazon_fees n e))) "amazon_unit_costs"
              ++ (when (not (is_pass e.market_check.status)) "market_check"
                  ++ (when (is_null e.selected_quote) "selected_quote"
                      ++ (when (is_null (landed_unit_cost_of n e.selected_quote)) "landed_unit_cost"
                          ++ (when (is_null (estimated_launch_cash n e)) "launch_cash"
                              ++ (when
                                    (exceeds n (estimated_launch_cash n e)
                                      settings.launch_budget_usd)
                                    "launch_cash_exceeds_budget"
                                  ++ (when (is_null (estimated_unit_contribution n e))
                                        "unit_contribution"
                                      ++ when (not (profitability_targets_pass n e settings))
                                          "profitability_targets_not_met"))))))))

  -- The gaps that are looked for in a firm quote only.
  unfoldable pub quote_gaps :
      (String → Option ℤ) → ResearchBusinessEvidence Number → SelectedQuote Number → ℤ → List String
  quote_gaps parse_date e q now =
      let expiry = expiry_of parse_date q.expires_at in
      when (is_null q.incoterm) "quote_incoterm"
      ++ (when (is_null q.destination) "quote_destination"
          ++ (when (is_null q.lead_time_days) "quote_lead_time"
              ++ (when (is_null (money_usd n q.landed_shipment_total)) "landed_shipment_total"
                  ++ (when (not (covers_landed_cost q.landed_cost_coverage)) "landed_cost_coverage"
                      ++ (when (is_null expiry) "quote_validity"
                          ++ (when (is_expired expiry now) "quote_expired"
                              ++ (when (not (is_pass e.sample_check.status)) "sample_check"
                                  ++ when (not (is_pass e.safety_ip_check.status))
                                      "safety_ip_check")))))))

  -- What keeps a firm quote from the last two stages.
  unfoldable pub quote_on_hold :
      (String → Option ℤ) → ResearchBusinessEvidence Number → SelectedQuote Number → ℤ → Bool
  quote_on_hold parse_date e q now =
      let expiry = expiry_of parse_date q.expires_at in
      is_null q.incoterm
      || is_null q.destination
      || is_null q.lead_time_days
      || is_null (money_usd n q.landed_shipment_total)
      || not (covers_landed_cost q.landed_cost_coverage)
      || is_null expiry
      || is_expired expiry now
      || not (is_pass e.safety_ip_check.status)

  -- The stages after the launch costs, at a quote: the stage and the gaps.
  unfoldable pub quote_stage :
      (String → Option ℤ)
      → ResearchBusinessEvidence Number
      → SelectedQuote Number
      → ℤ
      → List String
      → ResearchBusinessStage × List String
  quote_stage parse_date e q now gaps =
      if is_awaiting_quote e.disposition
      then (at_awaiting_quote, gaps)
      else if is_estimate q.source.basis
      then (quote_ready, gaps)
      else let all_gaps = gaps ++ quote_gaps parse_date e q now in
        if quote_on_hold parse_date e q now
        then (hold, all_gaps)
        else if not (is_pass e.sample_check.status) || is_awaiting_sample e.disposition
        then (at_awaiting_sample, all_gaps)
        else (purchase_review, all_gaps)

  abbrev affordable_stage :
      (String → Option ℤ)
      → ResearchBusinessEvidence Number
      → Option (SelectedQuote Number)
      → ℤ
      → List String
      → Bool
      → ResearchBusinessStage × List String
  affordable_stage parse_date e none now gaps costs_pass = (hold, gaps)
  affordable_stage parse_date e (some q) now gaps costs_pass =
      if is_null (money_usd n q.landed_unit_cost) || not costs_pass
      then (hold, gaps)
      else quote_stage parse_date e q now gaps

  unfoldable pub stage_of :
      (String → Option ℤ)
      → ResearchBusinessEvidence Number
      → ℤ
      → ResearchBusinessSettings Number
      → ResearchBusinessStage × List String
  stage_of parse_date e now settings =
      let gaps = first_gaps e settings in
      let launch_cash = estimated_launch_cash n e in
      if is_rejected e.disposition
      then (reject, [])
      else if not (is_pass e.brand_fit.status) || is_null (money_usd n e.sale_price)
      then (basic_check, gaps)
      else if not (is_pass e.market_check.status)
      then (market_validation, gaps)
      else affordable_stage parse_date e e.selected_quote now gaps (
          not (is_null launch_cash)
          && not (exceeds n launch_cash settings.launch_budget_usd)
          && profitability_targets_pass n e settings)

  abbrev no_evidence : ResearchBusinessSettings Number → ResearchBusinessAssessment Number
  no_evidence settings = record {
    stage = basic_check;
    gaps = "business_evidence" ∷ [];
    settings = settings;
    estimated_launch_cash_usd = none;
    estimated_unit_contribution_usd = none;
    estimated_margin_pct = none;
    purchase_approved = false;
  }

  unfoldable pub assessed :
      (String → Option ℤ)
      → Option (ResearchBusinessEvidence Number)
      → ℤ
      → ResearchBusinessSettings Number
      → ResearchBusinessAssessment Number
  assessed parse_date none now settings = no_evidence settings
  assessed parse_date (some e) now settings =
      let found = stage_of parse_date e now settings in
      record {
        stage = found.0;
        gaps = found.1;
        settings = settings;
        estimated_launch_cash_usd = estimated_launch_cash n e;
        estimated_unit_contribution_usd = estimated_unit_contribution n e;
        estimated_margin_pct = estimated_margin n e;
        purchase_approved = false;
      }

  unfoldable pub assess_research_business :
      (String → Option ℤ)
      → Option (ResearchBusinessEvidence Number)
      → ℤ
      → ResearchBusinessSettings Number
      → Result AssessmentError (ResearchBusinessAssessment Number)
  assess_research_business parse_date evidence now settings =
      if settings_valid n settings
      then ok (assessed parse_date evidence now settings)
      else err invalid_settings
