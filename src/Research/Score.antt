-- ===== src/Research/Score.antt =====
-- packages/research-engine/src/scoring/market-score.ts: the score of a market and its verdict.
-- `round` is `Math.round`.
use amazon_research_agent.Base.{
  ℕ, String, Bool, true, false, not, ◌&&◌, ◌||◌, Option, none, some, List, [], ◌∷◌, ◌++◌,
  if◌then◌else◌,
}
use amazon_research_agent.Base.Int.{ℤ, pos, ltb_ℤ, ◌+ℤ◌}
use amazon_research_agent.Shared.Numbers.{Numbers}

pub data DifferentiationMode : Type 0 where
  review_text listing_proxy missing : DifferentiationMode

pub data Verdict : Type 0 where
  reject watch needs_review strong : Verdict

-- `familyCount` is an integer, by its type.
pub record ScorableMarketMetrics (N : Type 0) : Type 0 where
  pub observed_sample_sales : N
  pub top3_sales_concentration : N
  pub family_count : ℤ

pub record ScoreComponents : Type 0 where
  pub competition : ℤ
  pub demand : ℤ
  pub margin : ℤ
  pub differentiation : ℤ

pub record MarketScoreResult : Type 0 where
  pub total : ℤ
  pub components : ScoreComponents
  pub verdict : Verdict
  pub reasons : List String
  pub hard_filter_failed : Bool

pub record MarketScoreInput (N : Type 0) : Type 0 where
  pub metrics : Option (ScorableMarketMetrics N)
  pub hard_filter_failed : Bool
  pub hard_filter_reason : Option String
  pub margin_provisional : Bool
  pub differentiation_mode : DifferentiationMode
  pub ip_risk : Bool

abbrev zero_result : Verdict → String → Bool → MarketScoreResult
zero_result verdict reason failed = record {
  total = pos 0;
  components = record {
    competition = pos 0;
    demand = pos 0;
    margin = pos 0;
    differentiation = pos 0;
  };
  verdict = verdict;
  reasons = reason ∷ [];
  hard_filter_failed = failed;
}

abbrev reason_or_default : Option String → String
reason_or_default none = "Hard filter failed"
reason_or_default (some reason) = reason

abbrev pub is_review_text : DifferentiationMode → Bool
is_review_text review_text = true
is_review_text _ = false

abbrev pub is_missing : DifferentiationMode → Bool
is_missing missing = true
is_missing _ = false

abbrev mode_points : DifferentiationMode → ℕ
mode_points review_text = 10
mode_points listing_proxy = 5
mode_points missing = 0

abbrev mode_reasons : DifferentiationMode → List String
mode_reasons review_text = []
mode_reasons listing_proxy = "Differentiation evidence mode is listing_proxy" ∷ []
mode_reasons missing = "Differentiation evidence mode is missing" ∷ []

module _ (n : Numbers) (round : n.Number → ℤ) where
  open n use {Number, of, sub, mul, div, lt, le, is_finite}

  -- The metrics that count as evidence.
  unfoldable pub are_verified : ScorableMarketMetrics Number → Bool
  are_verified m =
      not (ltb_ℤ m.family_count (pos 1))
      && is_finite m.observed_sample_sales
      && not (le m.observed_sample_sales (of 0))
      && is_finite m.top3_sales_concentration
      && not (lt m.top3_sales_concentration (of 0))
      && not (lt (of 1) m.top3_sales_concentration)

  abbrev min_one : Number → Number
  min_one x = if lt x (of 1) then x else of 1

  abbrev min_30 : ℤ → ℤ
  min_30 x = if ltb_ℤ x (pos 30) then x else pos 30

  unfoldable pub components_of :
      MarketScoreInput Number → ScorableMarketMetrics Number → ScoreComponents
  components_of input m = record {
    competition = round (mul (of 40) (sub (of 1) (min_one m.top3_sales_concentration)));
    demand = min_30 (round (mul (div m.observed_sample_sales (of 2000)) (of 30)));
    margin = if input.margin_provisional then pos 10 else pos 20;
    differentiation = pos (mode_points input.differentiation_mode);
  }

  unfoldable pub total_of : ScoreComponents → ℤ
  total_of c = c.competition +ℤ c.demand +ℤ c.margin +ℤ c.differentiation

  unfoldable pub verdict_of : MarketScoreInput Number → ScorableMarketMetrics Number → ℤ → Verdict
  verdict_of input m total =
      if not (ltb_ℤ total (pos 70))
        && not input.margin_provisional
        && is_review_text input.differentiation_mode
        && le (of 300) m.observed_sample_sales
      then strong
      else if input.margin_provisional || is_missing input.differentiation_mode
      then needs_review
      else watch

  unfoldable pub score_verified :
      MarketScoreInput Number → ScorableMarketMetrics Number → MarketScoreResult
  score_verified input m =
      let components = components_of input m in
      record {
        total = total_of components;
        components = components;
        verdict = verdict_of input m (total_of components);
        reasons =
            (if input.margin_provisional
              then "Margin is provisional without supplier-verified landed cost" ∷ []
              else [])
            ++ mode_reasons input.differentiation_mode;
        hard_filter_failed = false;
      }

  abbrev unverified : MarketScoreResult
  unverified = zero_result needs_review "MARKET_EVIDENCE_UNVERIFIED" false

  unfoldable pub score_metrics :
      MarketScoreInput Number → Option (ScorableMarketMetrics Number) → MarketScoreResult
  score_metrics input none = unverified
  score_metrics input (some m) = if not (are_verified m) then unverified else score_verified input m

  unfoldable pub score_market_opportunity : MarketScoreInput Number → MarketScoreResult
  score_market_opportunity input =
      if input.hard_filter_failed
      then zero_result reject (reason_or_default input.hard_filter_reason) true
      else if input.ip_risk
      then zero_result reject "High IP risk blocks Strong and Watch promotion" true
      else score_metrics input input.metrics
