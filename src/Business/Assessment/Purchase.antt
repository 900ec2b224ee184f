-- ===== src/Business/Assessment/Purchase.antt =====
-- Lemmas on the purchase review of packages/shared/src/research-business-assessment.ts.
use amazon_research_agent.Base.{
  String, true, false, Option, none, some, [], ◌≡◌, ◌≢◌, arith, Option-cases, inl, inr,
}
use amazon_research_agent.Base.Int.{ℤ}
use amazon_research_agent.Shared.Numbers.{Numbers}
use amazon_research_agent.Business.Evidence.{
  is_estimate, pass, research, is_null, SelectedQuote, ResearchBusinessEvidence,
  ResearchBusinessSettings,
}
use amazon_research_agent.Business.Assessment.{
  purchase_review, expiry_of, is_expired, covers_landed_cost, first_gaps, quote_gaps, quote_on_hold,
  quote_stage, stage_of,
}
use amazon_research_agent.Business.Costs.{
  landed_unit_cost_of, exceeds, amazon_fees, sum_known, estimated_launch_cash,
  estimated_unit_contribution, estimated_margin, profitability_targets_pass,
}

-- All that a purchase review wants of the evidence and of its quote.
pub record IsPurchasable (n : Numbers) (parse_date : String → Option ℤ)
    (e : ResearchBusinessEvidence n.Number) (q : SelectedQuote n.Number) (now : ℤ)
    (settings : ResearchBusinessSettings n.Number) : Type 0 where
  pub has_quote : e.selected_quote ≡ some q
  pub in_research : e.disposition ≡ research
  pub brand_fits : e.brand_fit.status ≡ pass
  pub market_passes : e.market_check.status ≡ pass
  pub sample_passes : e.sample_check.status ≡ pass
  pub is_safe : e.safety_ip_check.status ≡ pass
  pub is_firm : is_estimate q.source.basis ≡ false
  pub cash_known : is_null (estimated_launch_cash n e) ≡ false
  pub cash_within_budget : exceeds n (estimated_launch_cash n e) settings.launch_budget_usd ≡ false
  pub targets_pass : profitability_targets_pass n e settings ≡ true
  pub has_incoterm : is_null q.incoterm ≡ false
  pub has_destination : is_null q.destination ≡ false
  pub has_lead_time : is_null q.lead_time_days ≡ false
  pub total_known : is_null q.landed_shipment_total.amount_usd ≡ false
  pub covers_all_costs : covers_landed_cost q.landed_cost_coverage ≡ true
  pub has_expiry : is_null (expiry_of parse_date q.expires_at) ≡ false
  pub not_expired : is_expired (expiry_of parse_date q.expires_at) now ≡ false

module _ (n : Numbers) where
  open n use {Number, add}

  -- Targets that pass need the contribution, the sale price and the landed unit cost.
  targets_known :
      (e : ResearchBusinessEvidence Number) (settings : ResearchBusinessSettings Number)
      → profitability_targets_pass n e settings ≡ true
      → (is_null (estimated_unit_contribution n e) ≡ false)
        × (is_null e.sale_price.amount_usd ≡ false)
        × (is_null (landed_unit_cost_of n e.selected_quote) ≡ false)
  unfolding profitability_targets_pass estimated_margin
  targets_known e settings h = ground arith

  fees_known :
      (e : ResearchBusinessEvidence Number)
      → is_null (estimated_unit_contribution n e) ≡ false
      → is_null (sum_known n (amazon_fees n e)) ≡ false
  unfolding estimated_unit_contribution sum_known amazon_fees
  fees_known e h = ground arith

  first_gaps_nil :
      (e : ResearchBusinessEvidence Number) (q : SelectedQuote Number)
      (settings : ResearchBusinessSettings Number)
      → e.selected_quote ≡ some q
      → e.brand_fit.status ≡ pass
      → e.market_check.status ≡ pass
      → is_null (estimated_launch_cash n e) ≡ false
      → exceeds n (estimated_launch_cash n e) settings.launch_budget_usd ≡ false
      → profitability_targets_pass n e settings ≡ true
      → first_gaps n e settings ≡ []
  unfolding first_gaps
  first_gaps_nil e q settings a b c d f g =
      let known = targets_known e settings g in ground (arith, known, fees_known e known.0)

  module _ (parse_date : String → Option ℤ) (now : ℤ) where
    quote_gaps_nil :
        (e : ResearchBusinessEvidence Number) (q : SelectedQuote Number)
        → quote_on_hold n parse_date e q now ≡ false
        → e.sample_check.status ≡ pass
        → quote_gaps n parse_date e q now ≡ []
    unfolding quote_on_hold quote_gaps
    quote_gaps_nil e q h s = ground arith

    IsPurchasable-of_stage :
        (e : ResearchBusinessEvidence Number) (q : SelectedQuote Number)
        (settings : ResearchBusinessSettings Number)
        → e.selected_quote ≡ some q
        → (stage_of n parse_date e now settings).0 ≡ purchase_review
        → IsPurchasable n parse_date e q now settings
    unfolding stage_of quote_stage quote_on_hold
    IsPurchasable-of_stage e q settings is_quote h = ground arith

    no_quote :
        (e : ResearchBusinessEvidence Number) (settings : ResearchBusinessSettings Number)
        → e.selected_quote ≡ none
        → (stage_of n parse_date e now settings).0 ≢ purchase_review
    unfolding stage_of
    no_quote e settings is_null h = ground arith

    stage_of_IsPurchasable :
        (e : ResearchBusinessEvidence Number) (q : SelectedQuote Number)
        (settings : ResearchBusinessSettings Number)
        → IsPurchasable n parse_date e q now settings
        → quote_on_hold n parse_date e q now ≡ false
    unfolding quote_on_hold
    stage_of_IsPurchasable e q settings h = ground arith

    -- Evidence that meets every condition of a purchase review is put at that stage, and the
    -- assessment names no gap.
    pub stage_of-purchase_review :
        (e : ResearchBusinessEvidence Number) (q : SelectedQuote Number)
        (settings : ResearchBusinessSettings Number)
        → IsPurchasable n parse_date e q now settings
        → stage_of n parse_date e now settings ≡ (purchase_review, [])
    unfolding stage_of quote_stage
    stage_of-purchase_review e q settings h =
        let held = stage_of_IsPurchasable e q settings h in
        let known = targets_known e settings h.targets_pass in
        ground (
          arith,
          known,
          held,
          quote_gaps_nil e q held h.sample_passes,
          first_gaps_nil e q settings h.has_quote h.brand_fits h.market_passes h.cash_known
              h.cash_within_budget h.targets_pass,
        )

    -- A candidate is at the purchase review only when it has a quote and its evidence meets every
    -- condition: the checks of brand, market, sample and safety pass, the quote is firm, complete and
    -- not expired, the launch cash is known and within the budget, and the targets of profit are met.
    pub purchase_review-IsPurchasable :
        (e : ResearchBusinessEvidence Number) (settings : ResearchBusinessSettings Number)
        → (stage_of n parse_date e now settings).0 ≡ purchase_review
        → (q : SelectedQuote Number) × IsPurchasable n parse_date e q now settings
    purchase_review-IsPurchasable e settings h = elim (Option-cases e.selected_quote) [
      | inl is_null ↦ absurd (no_quote e settings is_null h)
      | inr (q, is_quote) ↦ (q, IsPurchasable-of_stage e q settings is_quote h)
    ]
