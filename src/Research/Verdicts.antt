-- ===== src/Research/Verdicts.antt =====
-- Lemmas on the verdicts of packages/research-engine/src/scoring/market-score.ts.
use amazon_research_agent.Base.{true, false, some, ◌≡◌, arith, Option-cases, inl, inr}
use amazon_research_agent.Base.Int.{ℤ, pos, ◌≤ℤ◌}
use amazon_research_agent.Shared.Numbers.{Numbers}
use amazon_research_agent.Research.Score.{
  review_text, strong, ScorableMarketMetrics, MarketScoreInput, score_market_opportunity,
  score_metrics, score_verified, verdict_of, are_verified, components_of, total_of,
}

module _ (n : Numbers) (round : n.Number → ℤ) where
  open n use {Number, of, le}

  -- What a strong market shows.
  pub record IsStrong (input : MarketScoreInput Number) (m : ScorableMarketMetrics Number)
      : Type 0 where
    pub has_metrics : input.metrics ≡ some m
    pub verified : are_verified n round m ≡ true
    pub passes_filter : input.hard_filter_failed ≡ false
    pub no_ip_risk : input.ip_risk ≡ false
    pub margin_known : input.margin_provisional ≡ false
    pub reviews_read : input.differentiation_mode ≡ review_text
    pub sells : le (of 300) m.observed_sample_sales ≡ true
    pub scores : pos 70 ≤ℤ total_of n round (components_of n round input m)

  strong-IsStrong :
      (input : MarketScoreInput Number) (m : ScorableMarketMetrics Number)
      → input.metrics ≡ some m
      → (score_market_opportunity n round input).verdict ≡ strong
      → IsStrong input m
  unfolding score_market_opportunity score_metrics score_verified verdict_of
  strong-IsStrong input m e h = ground arith

  -- A market is called strong only when it has metrics that count as evidence, passes the hard filter
  -- and has no high IP risk, its margin is not provisional, its reviews have been read, its sample
  -- sells at least 300 a month, and its score is at least 70.
  pub score-IsStrong :
      (input : MarketScoreInput Number)
      → (score_market_opportunity n round input).verdict ≡ strong
      → (m : ScorableMarketMetrics Number) × IsStrong input m
  unfolding score_market_opportunity score_metrics
  score-IsStrong input h = elim (Option-cases input.metrics) [
    | inl e ↦ absurd (ground (arith, e, h))
    | inr (m, e) ↦ (m, strong-IsStrong input m e h)
  ]
