-- ===== src/Business/Admission.antt =====
-- apps/worker/src/jobs/research-business-policy.ts: whether a paid call may be made for a candidate.
-- The reading of the settings and of the evidence rows from the database is not modelled.
pub mod Guards
use amazon_research_agent.Base.{
  ℕ, String, Bool, true, false, not, ◌&&◌, ◌||◌, Option, none, some, List, [], ◌∷◌, all, any,
  if◌then◌else◌, includes, ◌==◌,
}
use amazon_research_agent.Base.Int.{ℤ}
use amazon_research_agent.Shared.Endpoints.{JungleScoutEndpoint, same_endpoint}
use amazon_research_agent.Shared.Numbers.{Numbers}
use amazon_research_agent.Business.Evidence.{
  Disposition, rejected, is_null, ResearchBusinessMoney, SelectedQuote, ResearchBusinessEvidence,
  ResearchBusinessSettings,
}
use amazon_research_agent.Business.Assessment.{
  ResearchBusinessStage, basic_check, market_validation, ResearchBusinessAssessment, is_rejected,
  is_awaiting_quote, is_awaiting_sample,
}

pub record ResearchApiAdmission : Type 0 where
  pub allowed : Bool
  pub reason : String

abbrev refuse : String → ResearchApiAdmission
refuse reason = record { allowed = false; reason = reason }

unfoldable pub is_explicit_initial_check :
    {N : Type 0} → Option (ResearchBusinessEvidence N) → JungleScoutEndpoint → Bool
is_explicit_initial_check none endpoint = false
is_explicit_initial_check (some e) endpoint = any (same_endpoint endpoint) e.requested_api_purposes

abbrev has_known_amount : {N : Type 0} → ResearchBusinessMoney N → Bool
has_known_amount m = not (is_null m.amount_usd)

abbrev pub amounts_known :
    {N : Type 0} → ResearchBusinessEvidence N → Option (SelectedQuote N) → Bool
amounts_known e none = false
amounts_known e (some q) = all has_known_amount (
    e.sale_price ∷ q.landed_unit_cost ∷ e.amazon_unit_costs.referral_fee
    ∷ e.amazon_unit_costs.fulfillment_fee ∷ e.amazon_unit_costs.other_variable_cost
    ∷ e.per_unit_ad_cost ∷ e.per_unit_return_cost ∷ [])

unfoldable pub has_known_profitability_failure :
    {N : Type 0} → ResearchBusinessAssessment N → ResearchBusinessEvidence N → Bool
has_known_profitability_failure assessment e =
    if not (includes assessment.gaps "profitability_targets_not_met")
    then false
    else amounts_known e e.selected_quote

abbrev pub is_actionable : ResearchBusinessStage → Bool
is_actionable basic_check = true
is_actionable market_validation = true
is_actionable _ = false

unfoldable pub admit :
    {N : Type 0}
    → ResearchBusinessAssessment N
    → ResearchBusinessEvidence N
    → JungleScoutEndpoint
    → Bool
    → ResearchApiAdmission
admit assessment e endpoint explicit_initial_check =
    if not explicit_initial_check || not (is_explicit_initial_check (some e) endpoint)
    then refuse "explicit_endpoint_request_required"
    else if is_rejected e.disposition
    then refuse "candidate_rejected"
    else if is_awaiting_quote e.disposition || is_awaiting_sample e.disposition
    then refuse "commercial_wait_in_progress"
    else if includes assessment.gaps "launch_cash_exceeds_budget"
    then refuse "launch_budget_exceeded"
    else if has_known_profitability_failure assessment e
    then refuse "profitability_targets_not_met"
    else if is_actionable assessment.stage
    then record { allowed = true; reason = "explicit_initial_check" }
    else refuse "assessment_not_actionable"

unfoldable pub assess_research_api_admission :
    {N : Type 0}
    → ResearchBusinessAssessment N
    → Option (ResearchBusinessEvidence N)
    → JungleScoutEndpoint
    → Bool
    → ResearchApiAdmission
assess_research_api_admission assessment none endpoint explicit_initial_check =
    refuse "business_evidence_required"
assess_research_api_admission assessment (some e) endpoint explicit_initial_check =
    admit assessment e endpoint explicit_initial_check
