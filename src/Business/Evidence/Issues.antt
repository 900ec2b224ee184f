-- ===== src/Business/Evidence/Issues.antt =====
-- packages/shared/src/research-business.ts: the cross-field checks of the schemas, each as the list of
-- the issues that it adds. The checks of single fields (trimming, lengths, formats, finite and
-- non-negative numbers) are the schema library's.
use amazon_research_agent.Base.{
  ℕ, String, Bool, true, false, not, ◌&&◌, ◌||◌, Option, none, some, List, [], ◌∷◌, ◌++◌,
  if◌then◌else◌, str_eq, ltb,
}
use amazon_research_agent.Base.Int.{ℤ, ltb_ℤ}
use amazon_research_agent.Shared.Numbers.{Numbers}
use amazon_research_agent.Business.Evidence.{
  MarketCheck, ResearchBusinessCheck, ResearchBusinessEvidence, ResearchBusinessMoney,
  ResearchBusinessSource, SelectedQuote, SourcePeriod, is_estimate, is_null, is_observed, is_pass,
  is_unknown, when,
}

abbrev text_is : Option String → String → Bool
text_is none t = false
text_is (some s) t = str_eq s t

pub data MoneyIssue : Type 0 where
  unknown_with_conversion incomplete usd_mismatch usd_with_conversion missing_conversion :
      MoneyIssue

module _ (n : Numbers) where
  open n use {Number, of, mul, sub, lt, le, eq, is_finite}

  abbrev same_amount : Option Number → Option Number → Bool
  same_amount none none = true
  same_amount (some a) (some b) = eq a b
  same_amount _ _ = false

  unfoldable pub money_issues : ResearchBusinessMoney Number → List MoneyIssue
  money_issues m =
      if is_null m.amount && is_null m.currency && is_null m.amount_usd && is_null m.source
      then when (not (is_null m.usd_conversion_source)) unknown_with_conversion
      else if is_null m.amount || is_null m.currency || is_null m.amount_usd || is_null m.source
      then incomplete ∷ []
      else if text_is m.currency "USD"
      then when (not (same_amount m.amount m.amount_usd)) usd_mismatch
        ++ when (not (is_null m.usd_conversion_source)) usd_with_conversion
      else when (is_null m.usd_conversion_source) missing_conversion

pub data CheckIssue : Type 0 where
  unknown_with_source resolved_without_source : CheckIssue

unfoldable pub check_issues : ResearchBusinessCheck → List CheckIssue
check_issues c =
    when (is_unknown c.status && not (is_null c.source)) unknown_with_source
    ++ when (not (is_unknown c.status) && is_null c.source) resolved_without_source

pub data MarketIssue : Type 0 where
  unknown_source missing_source estimate_unpaired estimate_basis period_reversed : MarketIssue
  pass_without_period : MarketIssue

abbrev basis_is_not_estimate : Option ResearchBusinessSource → Bool
basis_is_not_estimate none = false
basis_is_not_estimate (some s) = not (is_estimate s.basis)

-- A comparison with NaN is false.
abbrev later : Option ℤ → Option ℤ → Bool
later (some a) (some b) = ltb_ℤ b a
later _ _ = false

abbrev reversed : (String → Option ℤ) → Option SourcePeriod → Bool
reversed parse_date none = false
reversed parse_date (some p) = later (parse_date p.from) (parse_date p.to)

abbrev differs : Bool → Bool → Bool
differs true b = not b
differs false b = b

unfoldable pub market_issues : {N : Type 0} → (String → Option ℤ) → MarketCheck N → List MarketIssue
market_issues parse_date m =
    when (is_unknown m.status && not (is_null m.source)) unknown_source
    ++ (when (not (is_unknown m.status) && is_null m.source) missing_source
        ++ (when
              (differs (is_null m.seller_estimated_monthly_sales)
                (is_null m.seller_estimate_source))
              estimate_unpaired
            ++ (when (basis_is_not_estimate m.seller_estimate_source) estimate_basis
                ++ (when (reversed parse_date m.source_period) period_reversed
                    ++ when
                        (is_pass m.status
                          && (is_null m.source_period || is_null m.comparison_rationale))
                        pass_without_period))))

pub data QuoteIssue : Type 0 where
  observed_basis below_moq unit_reference total_reference total_mismatch : QuoteIssue

abbrev refers_elsewhere : Option ResearchBusinessSource → String → Bool
refers_elsewhere none reference = false
refers_elsewhere (some s) reference = not (str_eq s.reference reference)

module _ (n : Numbers) where
  open n use {Number, of, mul, sub, div, lt, abs}

  -- `Math.abs(expectedTotal - total) > 0.01`, when both amounts are known.
  abbrev total_differs : ℕ → Option Number → Option Number → Bool
  total_differs quantity (some unit) (some total) =
      lt (div (of 1) (of 100)) (abs (sub (mul (of quantity) unit) total))
  total_differs quantity _ _ = false

  unfoldable pub quote_issues : SelectedQuote Number → List QuoteIssue
  quote_issues q =
      when (is_observed q.source.basis) observed_basis
      ++ (when (ltb q.order_quantity q.minimum_order_quantity) below_moq
          ++ (when (refers_elsewhere q.landed_unit_cost.source q.source.reference) unit_reference
              ++ (when (refers_elsewhere q.landed_shipment_total.source q.source.reference)
                    total_reference
                  ++ when
                      (total_differs q.order_quantity q.landed_unit_cost.amount_usd
                        q.landed_shipment_total.amount_usd)
                      total_mismatch)))

abbrev quote_specification_differs : {N : Type 0} → String → Option (SelectedQuote N) → Bool
quote_specification_differs reference none = false
quote_specification_differs reference (some q) = not (str_eq q.specification_reference reference)

pub data EvidenceIssue : Type 0 where
  other_specification : EvidenceIssue

unfoldable pub evidence_issues : {N : Type 0} → ResearchBusinessEvidence N → List EvidenceIssue
evidence_issues e =
    when (quote_specification_differs e.specification_reference e.selected_quote)
      other_specification
