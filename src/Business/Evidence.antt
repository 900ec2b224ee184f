-- ===== src/Business/Evidence.antt =====
-- packages/shared/src/research-business.ts: the evidence and the settings as data.
pub mod Issues
use amazon_research_agent.Base.{
  ℕ, String, Bool, true, false, not, ◌&&◌, ◌||◌, Option, none, some, List, [], ◌∷◌, ◌++◌,
  if◌then◌else◌, str_eq, ltb,
}
use amazon_research_agent.Base.Int.{ℤ, ltb_ℤ}
use amazon_research_agent.Shared.Endpoints.{JungleScoutEndpoint}
use amazon_research_agent.Shared.Numbers.{Numbers}

pub data Basis : Type 0 where
  estimate quote observed : Basis

abbrev pub is_estimate : Basis → Bool
is_estimate estimate = true
is_estimate _ = false

abbrev pub is_observed : Basis → Bool
is_observed observed = true
is_observed _ = false

pub record ResearchBusinessSource : Type 0 where
  pub reference : String
  pub url : Option String
  pub recorded_at : String
  pub basis : Basis

pub data CheckStatus : Type 0 where
  unknown pass fail : CheckStatus

abbrev pub is_pass : CheckStatus → Bool
is_pass pass = true
is_pass _ = false

abbrev pub is_unknown : CheckStatus → Bool
is_unknown unknown = true
is_unknown _ = false

pub data Disposition : Type 0 where
  research awaiting_quote awaiting_sample rejected : Disposition

pub data Coverage : Type 0 where
  included excluded unclear : Coverage

abbrev pub is_included : Coverage → Bool
is_included included = true
is_included _ = false

abbrev pub is_null {ℓ} : {A : Type ℓ} → Option A → Bool
is_null none = true
is_null (some a) = false

pub record ResearchBusinessMoney (N : Type 0) : Type 0 where
  pub amount : Option N
  pub currency : Option String
  pub amount_usd : Option N
  pub source : Option ResearchBusinessSource
  pub usd_conversion_source : Option ResearchBusinessSource

pub record ResearchBusinessCheck : Type 0 where
  pub status : CheckStatus
  pub source : Option ResearchBusinessSource

pub record SourcePeriod : Type 0 where
  pub from : String
  pub to : String

pub record MarketCheck (N : Type 0) : Type 0 where
  pub status : CheckStatus
  pub source : Option ResearchBusinessSource
  pub source_period : Option SourcePeriod
  pub comparison_rationale : Option String
  pub seller_estimated_monthly_sales : Option N
  pub seller_estimate_source : Option ResearchBusinessSource

pub record LandedCostCoverage : Type 0 where
  pub product : Coverage
  pub packaging : Coverage
  pub freight : Coverage
  pub duties : Coverage
  pub delivery : Coverage

pub record SelectedQuote (N : Type 0) : Type 0 where
  pub source : ResearchBusinessSource
  pub supplier_name : String
  pub specification_reference : String
  pub order_quantity : ℕ
  pub minimum_order_quantity : ℕ
  pub landed_unit_cost : ResearchBusinessMoney N
  pub landed_shipment_total : ResearchBusinessMoney N
  pub expires_at : Option String
  pub incoterm : Option String
  pub destination : Option String
  pub lead_time_days : Option ℕ
  pub landed_cost_coverage : LandedCostCoverage

pub record AmazonUnitCosts (N : Type 0) : Type 0 where
  pub referral_fee : ResearchBusinessMoney N
  pub fulfillment_fee : ResearchBusinessMoney N
  pub other_variable_cost : ResearchBusinessMoney N

pub record ResearchBusinessEvidence (N : Type 0) : Type 0 where
  pub specification_reference : String
  pub specification_description : String
  pub brand_fit : ResearchBusinessCheck
  pub disposition : Disposition
  pub sale_price : ResearchBusinessMoney N
  pub amazon_unit_costs : AmazonUnitCosts N
  pub selected_quote : Option (SelectedQuote N)
  pub upfront_launch_cost : ResearchBusinessMoney N
  pub launch_advertising_cash : ResearchBusinessMoney N
  pub launch_reserve_cash : ResearchBusinessMoney N
  pub per_unit_ad_cost : ResearchBusinessMoney N
  pub per_unit_return_cost : ResearchBusinessMoney N
  pub market_check : MarketCheck N
  pub sample_check : ResearchBusinessCheck
  pub safety_ip_check : ResearchBusinessCheck
  pub requested_api_purposes : List JungleScoutEndpoint

pub record ResearchBusinessSettings (N : Type 0) : Type 0 where
  pub launch_budget_usd : N
  pub minimum_pre_ad_margin_pct : N
  pub minimum_post_ad_margin_pct : N
  pub minimum_roi_pct : N

abbrev pub when {ℓ} : {A : Type ℓ} → Bool → A → List A
when true a = a ∷ []
when false a = []

module _ (n : Numbers) where
  open n use {Number, of, lt, le, is_finite}

  abbrev in_percent : Number → Bool
  in_percent x = is_finite x && le (of 0) x && le x (of 100)

  -- `ResearchBusinessSettingsSchema`: a positive budget, percentages, a target that is not negative.
  unfoldable pub settings_valid : ResearchBusinessSettings Number → Bool
  settings_valid s =
      is_finite s.launch_budget_usd
      && lt (of 0) s.launch_budget_usd
      && in_percent s.minimum_pre_ad_margin_pct
      && in_percent s.minimum_post_ad_margin_pct
      && is_finite s.minimum_roi_pct
      && le (of 0) s.minimum_roi_pct
