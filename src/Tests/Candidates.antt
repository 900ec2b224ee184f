-- ===== src/Tests/Candidates.antt =====
-- Runs of the assessment of packages/shared/src/research-business-assessment.ts and of the admission
-- of apps/worker/src/jobs/research-business-policy.ts, with natural numbers for the amounts.
use Prim.Native.Nat.{◌/◌}
use Prim.Native.String.{len}
use mathlib.Core.List.{Memᴰ}
use amazon_research_agent.Base.{
  ℕ, ◌≡◌, refl, List, [], ◌∷◌, String, true, none, some, Option, ltb, leb, ◌==◌, ◌+◌, ◌*◌, ◌-◌,
  if◌then◌else◌, includes, All, ap,
}
use amazon_research_agent.Base.Int.{ℤ, pos}
use amazon_research_agent.Base.Order.{AtMost}
use amazon_research_agent.Shared.Endpoints.{JungleScoutEndpoint}
use amazon_research_agent.Shared.Numbers.{Numbers}
use amazon_research_agent.Business.Evidence.{
  quote, included, CheckStatus, pass, unknown, research, ResearchBusinessSource,
  ResearchBusinessMoney, ResearchBusinessCheck, SelectedQuote, ResearchBusinessEvidence,
  ResearchBusinessSettings,
}
use amazon_research_agent.Business.Assessment.{
  purchase_review, stage_of, quote_stage, quote_on_hold, quote_gaps, first_gaps, covers_landed_cost,
  assessed,
}
use amazon_research_agent.Business.Costs.{
  estimated_launch_cash, estimated_unit_contribution, estimated_margin, profitability_targets_pass,
  sum_known, sum_from, amazon_fees,
}
use amazon_research_agent.Business.Assessment.Purchase.{
  IsPurchasable, purchase_review-IsPurchasable, stage_of-purchase_review,
}
use amazon_research_agent.Business.Admission.{
  admit, assess_research_api_admission, is_explicit_initial_check, has_known_profitability_failure,
}
use amazon_research_agent.Business.Admission.Guards.{IsAdmissible, admit-IsAdmissible}
use amazon_research_agent.Business.Latest.{
  ResearchBusinessEvidenceRow, latest_row, latest_from, is_newer, compare_time,
}
use amazon_research_agent.Business.Latest.Greatest.{compare_rows, latest_row-greatest}
use amazon_research_agent.Tests.Routes.{by_length, by_length-IsOrder}

abbrev pub cents : Numbers
cents = record {
  Number = ℕ;
  of = λ k. k;
  add = λ a b. a + b;
  sub = λ a b. a - b;
  mul = λ a b. a * b;
  div = λ a b. if b == 0 then 0 else a / b;
  lt = ltb;
  le = leb;
  eq = λ a b. a == b;
  is_finite = λ a. true;
  abs = λ a. a;
}

abbrev quoted : ResearchBusinessSource
quoted = record { reference = "Q-1"; url = none; recorded_at = "now"; basis = quote }

abbrev usd : ℕ → ResearchBusinessMoney ℕ
usd x = record {
  amount = some x;
  currency = some "USD";
  amount_usd = some x;
  source = some quoted;
  usd_conversion_source = none;
}

abbrev passed : ResearchBusinessCheck
passed = record { status = pass; source = some quoted }

abbrev firm_quote : SelectedQuote ℕ
firm_quote = record {
  source = quoted;
  supplier_name = "Supplier";
  specification_reference = "S-1";
  order_quantity = 10;
  minimum_order_quantity = 5;
  landed_unit_cost = usd 1;
  landed_shipment_total = usd 10;
  expires_at = some "long";
  incoterm = some "DDP";
  destination = some "US";
  lead_time_days = some 20;
  landed_cost_coverage = record {
    product = included;
    packaging = included;
    freight = included;
    duties = included;
    delivery = included;
  };
}

abbrev pub candidate_with : CheckStatus → ResearchBusinessEvidence ℕ
candidate_with market = record {
  specification_reference = "S-1";
  specification_description = "A jar";
  brand_fit = passed;
  disposition = research;
  sale_price = usd 6;
  amazon_unit_costs = record {
    referral_fee = usd 0;
    fulfillment_fee = usd 0;
    other_variable_cost = usd 0;
  };
  selected_quote = some firm_quote;
  upfront_launch_cost = usd 0;
  launch_advertising_cash = usd 0;
  launch_reserve_cash = usd 0;
  per_unit_ad_cost = usd 0;
  per_unit_return_cost = usd 0;
  market_check = record {
    status = market;
    source = some quoted;
    source_period = none;
    comparison_rationale = none;
    seller_estimated_monthly_sales = none;
    seller_estimate_source = none;
  };
  sample_check = passed;
  safety_ip_check = passed;
  requested_api_purposes = JungleScoutEndpoint.product_database ∷ [];
}

abbrev pub targets : ResearchBusinessSettings ℕ
targets = record {
  launch_budget_usd = 100;
  minimum_pre_ad_margin_pct = 0;
  minimum_post_ad_margin_pct = 0;
  minimum_roi_pct = 100;
}

-- Every text is a date: its length.
abbrev pub clock : String → Option ℤ
clock t = some (pos (len t))

at_review : stage_of cents clock (candidate_with pass) (pos 0) targets ≡ (purchase_review, [])
unfolding stage_of quote_stage quote_on_hold quote_gaps first_gaps covers_landed_cost
    estimated_launch_cash estimated_unit_contribution estimated_margin profitability_targets_pass
    sum_known sum_from amazon_fees
at_review = refl

review : IsPurchasable cents clock (candidate_with pass) firm_quote (pos 0) targets
unfolding estimated_launch_cash sum_known sum_from profitability_targets_pass
    estimated_unit_contribution amazon_fees estimated_margin covers_landed_cost
review = record {
  has_quote = refl;
  in_research = refl;
  brand_fits = refl;
  market_passes = refl;
  sample_passes = refl;
  is_safe = refl;
  is_firm = refl;
  cash_known = refl;
  cash_within_budget = refl;
  targets_pass = refl;
  has_incoterm = refl;
  has_destination = refl;
  has_lead_time = refl;
  total_known = refl;
  covers_all_costs = refl;
  has_expiry = refl;
  not_expired = refl;
}

stage_of-purchase_review_example :
    stage_of cents clock (candidate_with pass) (pos 0) targets ≡ (purchase_review, [])
stage_of-purchase_review_example =
    stage_of-purchase_review cents clock (pos 0) (candidate_with pass) firm_quote targets review

purchase_review-IsPurchasable_example :
    (q : SelectedQuote ℕ) × IsPurchasable cents clock (candidate_with pass) q (pos 0) targets
purchase_review-IsPurchasable_example =
    purchase_review-IsPurchasable cents clock (pos 0) (candidate_with pass) targets
      (ap (λ r. r.0) at_review)

abbrev database : JungleScoutEndpoint
database = JungleScoutEndpoint.product_database

admits :
    (assess_research_api_admission
      (assessed cents clock (some (candidate_with unknown)) (pos 0) targets)
      (some (candidate_with unknown))
      database
      true).allowed
    ≡ true
unfolding assess_research_api_admission admit is_explicit_initial_check
    has_known_profitability_failure assessed stage_of quote_stage quote_on_hold quote_gaps
    first_gaps covers_landed_cost estimated_launch_cash estimated_unit_contribution estimated_margin
    profitability_targets_pass sum_known sum_from amazon_fees includes
admits = refl

admit-IsAdmissible_example :
    IsAdmissible cents clock (pos 0) (candidate_with unknown) targets database true
admit-IsAdmissible_example =
    admit-IsAdmissible cents clock (pos 0) (candidate_with unknown) targets database true admits

abbrev row : String → String → ResearchBusinessEvidenceRow ℕ
row id at = record { id = id; created_at = at; payload = 0 }

abbrev rows : List (ResearchBusinessEvidenceRow ℕ)
rows = row "a" "day" ∷ row "bb" "days" ∷ row "a" "days" ∷ []

latest : latest_row clock by_length rows ≡ some (row "bb" "days")
unfolding latest_row latest_from is_newer compare_time
latest = refl

latest_row-greatest_example :
    Memᴰ (row "bb" "days") rows
    × All (λ r. AtMost (compare_rows clock by_length) r (row "bb" "days")) rows
latest_row-greatest_example =
    latest_row-greatest clock by_length by_length-IsOrder rows (row "bb" "days") latest
