-- ===== src/Tests/Keywords.antt =====
-- Runs of packages/research-engine/src/rules/opportunity-rules.ts.
use amazon_research_agent.Base.{
  ℕ, true, false, none, some, [], ◌≡◌, refl, ltb, str_eq, if◌then◌else◌,
}
use amazon_research_agent.Imports.{OpportunityCsvRow}
use amazon_research_agent.Rules.Opportunities.{
  PhraseOperations, ResearchRuleConfig, evaluate_opportunity_rules, price_reasons, seasonal_reasons,
  lexicon_reasons, seasonal_keyword_matches,
}
use amazon_research_agent.Rules.Passes.{passed_of, is_acceptable, evaluate_opportunity_rules-passed}
use amazon_research_agent.Tests.Csv.{racks}

-- A keyword mentions itself.
abbrev phrases : PhraseOperations ℕ
phrases = record {
  lt = ltb;
  normalize_phrase = λ text. text;
  contains_words = str_eq;
  ordinal_birthdays = λ text. [];
}

abbrev default_rules : ResearchRuleConfig ℕ
default_rules = record { minimum_price = 15; maximum_price = 80; allow_high_seasonality = false }

abbrev crystals : OpportunityCsvRow ℕ
crystals = record {
  keyword = "crystal";
  niche_score = racks.parsed.niche_score;
  monthly_units = racks.parsed.monthly_units;
  average_price = racks.parsed.average_price;
  search_volume = racks.parsed.search_volume;
  trend_30 = racks.parsed.trend_30;
  trend_90 = racks.parsed.trend_90;
  competition = racks.parsed.competition;
  seasonality = racks.parsed.seasonality;
  last_updated = racks.parsed.last_updated;
}

evaluate_opportunity_rules-passed_example :
    passed_of phrases (evaluate_opportunity_rules phrases racks.parsed default_rules)
    ≡ (if ltb 80 15 then none else some (is_acceptable phrases racks.parsed default_rules))
evaluate_opportunity_rules-passed_example =
    evaluate_opportunity_rules-passed phrases racks.parsed default_rules

racks_pass :
    passed_of phrases (evaluate_opportunity_rules phrases racks.parsed default_rules) ≡ some true
unfolding evaluate_opportunity_rules price_reasons seasonal_reasons lexicon_reasons
    seasonal_keyword_matches
racks_pass = refl

crystals_fail :
    passed_of phrases (evaluate_opportunity_rules phrases crystals default_rules) ≡ some false
unfolding evaluate_opportunity_rules price_reasons seasonal_reasons lexicon_reasons
    seasonal_keyword_matches
crystals_fail = refl
