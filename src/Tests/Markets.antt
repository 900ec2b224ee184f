-- ===== src/Tests/Markets.antt =====
-- Runs of packages/research-engine/src/product-family.ts and scoring/market-score.ts.
use amazon_research_agent.Base.{
  ℕ, String, false, none, some, List, [], ◌∷◌, ◌≡◌, refl, filter, str_eq,
}
use amazon_research_agent.Base.Int.{ℤ, pos, ◌+ℤ◌}
use amazon_research_agent.Research.Families.{CatalogProduct, family_key, group_product_families}
use amazon_research_agent.Research.Families.Groups.{
  variants_of, HasDistinctKeys, group_product_families-variants,
}
use amazon_research_agent.Research.Score.{
  review_text, strong, ScorableMarketMetrics, MarketScoreInput, score_market_opportunity,
  score_metrics, score_verified, verdict_of, are_verified, components_of, total_of,
}
use amazon_research_agent.Research.Verdicts.{IsStrong, score-IsStrong}
use amazon_research_agent.Tests.Candidates.{cents}

abbrev item : String → String → CatalogProduct ℕ
item id parent = record {
  id = id;
  title = id;
  parent_asin = some parent;
  price = none;
  units_sold_30 = some 4;
  revenue_30 = none;
}

abbrev items : List (CatalogProduct ℕ)
items = item "a" "P" ∷ item "b" "" ∷ item "c" "P" ∷ []

abbrev untrimmed : String → String
untrimmed t = t

group_product_families-variants_example :
    (variants_of "P" (group_product_families cents untrimmed items)
      ≡ filter (λ p. str_eq (family_key untrimmed p) "P") items)
    × HasDistinctKeys (group_product_families cents untrimmed items)
group_product_families-variants_example = group_product_families-variants cents untrimmed items "P"

abbrev strong_market : MarketScoreInput ℕ
strong_market = record {
  metrics =
      some (record {
        observed_sample_sales = 4000;
        top3_sales_concentration = 0;
        family_count = pos 3;
      });
  hard_filter_failed = false;
  hard_filter_reason = none;
  margin_provisional = false;
  differentiation_mode = review_text;
  ip_risk = false;
}

abbrev whole_number : ℕ → ℤ
whole_number k = pos k

is_strong : (score_market_opportunity cents whole_number strong_market).verdict ≡ strong
unfolding score_market_opportunity score_metrics score_verified verdict_of are_verified
    components_of total_of ◌+ℤ◌
is_strong = refl

score-IsStrong_example : (m : ScorableMarketMetrics ℕ) × IsStrong cents whole_number strong_market m
score-IsStrong_example = score-IsStrong cents whole_number strong_market is_strong
