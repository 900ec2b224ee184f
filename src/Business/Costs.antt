-- ===== src/Business/Costs.antt =====
-- packages/shared/src/research-business-assessment.ts: the costs of a launch, the contribution of a
-- unit and the targets of profit.
use amazon_research_agent.Base.{
  Bool, false, ◌&&◌, Option, none, some, List, [], ◌∷◌, ◌++◌, if◌then◌else◌,
}
use amazon_research_agent.Shared.Numbers.{Numbers}
use amazon_research_agent.Business.Evidence.{
  ResearchBusinessMoney, SelectedQuote, ResearchBusinessEvidence, ResearchBusinessSettings,
}

module _ (n : Numbers) where
  open n use {Number, of, add, sub, mul, div, lt, le}

  abbrev pub money_usd : ResearchBusinessMoney Number → Option Number
  money_usd m = m.amount_usd

  -- The sum of amounts that are all known, from the left.
  unfoldable pub sum_from : Number → List (Option Number) → Option Number
  sum_from total [] = some total
  sum_from total (none ∷ amounts) = none
  sum_from total (some amount ∷ amounts) = sum_from (add total amount) amounts

  unfoldable pub sum_known : List (Option Number) → Option Number
  unfolding sum_from
  sum_known amounts = sum_from (of 0) amounts

  -- An operation on two amounts, unknown when one of them is.
  abbrev pub both : (Number → Number → Number) → Option Number → Option Number → Option Number
  both f (some a) (some b) = some (f a b)
  both f _ _ = none

  -- `part / whole * 100` when the whole is known and positive.
  abbrev pub percent_of : Option Number → Option Number → Option Number
  percent_of (some part) (some whole) =
      if lt (of 0) whole then some (mul (div part whole) (of 100)) else none
  percent_of _ _ = none

  abbrev pub at_least : Option Number → Number → Bool
  at_least none target = false
  at_least (some x) target = le target x

  abbrev pub exceeds : Option Number → Number → Bool
  exceeds none limit = false
  exceeds (some x) limit = lt limit x

  abbrev pub landed_unit_cost_of : Option (SelectedQuote Number) → Option Number
  landed_unit_cost_of none = none
  landed_unit_cost_of (some q) = money_usd q.landed_unit_cost

  abbrev pub landed_shipment_total_of : Option (SelectedQuote Number) → Option Number
  landed_shipment_total_of none = none
  landed_shipment_total_of (some q) = money_usd q.landed_shipment_total

  abbrev pub order_cost_of : Option (SelectedQuote Number) → Option Number
  order_cost_of none = none
  order_cost_of (some q) = both mul (some (of q.order_quantity)) (money_usd q.landed_unit_cost)

  unfoldable pub amazon_fees : ResearchBusinessEvidence Number → List (Option Number)
  amazon_fees e =
      money_usd e.amazon_unit_costs.referral_fee
      ∷ money_usd e.amazon_unit_costs.fulfillment_fee
      ∷ money_usd e.amazon_unit_costs.other_variable_cost
      ∷ []

  unfoldable pub estimated_launch_cash : ResearchBusinessEvidence Number → Option Number
  estimated_launch_cash e = sum_known (
      order_cost_of e.selected_quote
      ∷ money_usd e.upfront_launch_cost
      ∷ money_usd e.launch_advertising_cash
      ∷ money_usd e.launch_reserve_cash
      ∷ [])

  unfoldable pub estimated_unit_contribution : ResearchBusinessEvidence Number → Option Number
  estimated_unit_contribution e = both sub (money_usd e.sale_price) (
      sum_known (
        landed_unit_cost_of e.selected_quote ∷ amazon_fees e
        ++ money_usd e.per_unit_ad_cost ∷ money_usd e.per_unit_return_cost ∷ []))

  unfoldable pub estimated_margin : ResearchBusinessEvidence Number → Option Number
  estimated_margin e = percent_of (estimated_unit_contribution e) (money_usd e.sale_price)

  unfoldable pub profitability_targets_pass :
      ResearchBusinessEvidence Number → ResearchBusinessSettings Number → Bool
  profitability_targets_pass e settings =
      let contribution = estimated_unit_contribution e in
      let pre_ad =
        percent_of (both add contribution (money_usd e.per_unit_ad_cost))
          (money_usd e.sale_price) in
      let roi = percent_of contribution (landed_unit_cost_of e.selected_quote) in
      at_least pre_ad settings.minimum_pre_ad_margin_pct
      && at_least (estimated_margin e) settings.minimum_post_ad_margin_pct
      && at_least roi settings.minimum_roi_pct
