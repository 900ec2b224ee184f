-- ===== src/Rules/Opportunities.antt =====
-- packages/research-engine/src/rules/opportunity-rules.ts: the rules that an opportunity passes. What
-- is done with texts is a parameter, and a detail is kept as the data that its text shows.
use amazon_research_agent.Base.{
  String, Bool, not, ◌||◌, Option, none, some, List, [], ◌∷◌, ◌++◌, map, filter, is_empty, str_eq,
  if◌then◌else◌,
}
use amazon_research_agent.Base.Sets.{id_set}
use amazon_research_agent.Imports.{OpportunityCsvRow}
use amazon_research_agent.Rules.Lexicons.{
  electric_or_battery_terms, seasonal_event_terms, brand_or_ip_terms, broad_shopping_intent_terms,
  irrelevant_subdomain_terms, fragile_or_heavy_risk_terms, food_contact_terms,
}

pub record ResearchRuleConfig (N : Type 0) : Type 0 where
  pub minimum_price : N
  pub maximum_price : N
  pub allow_high_seasonality : Bool

pub data RuleCode : Type 0 where
  price_out_of_range seasonality_high electric_or_battery irrelevant_subdomain : RuleCode
  brand_or_ip broad_shopping_intent fragile_or_heavy_risk : RuleCode

pub data Detail (N : Type 0) : Type 0 where
  price_outside : N → N → N → Detail N
  matched_token : String → String → Detail N
  seasonality_field : String → Detail N

pub record RuleReason (N : Type 0) : Type 0 where
  pub code : RuleCode
  pub detail : Detail N

pub record RuleEvaluation (N : Type 0) : Type 0 where
  pub passed : Bool
  pub reasons : List (RuleReason N)
  pub flags : List String

-- `contains_words` tells whether a phrase is among the words of another: with a space around each.
pub record PhraseOperations (N : Type 0) : Type 0 where
  pub lt : N → N → Bool
  pub normalize_phrase : String → String
  pub contains_words : String → String → Bool
  pub ordinal_birthdays : String → List String

module _ {N : Type 0} (ops : PhraseOperations N) where
  open ops use {lt, normalize_phrase, contains_words, ordinal_birthdays}

  abbrev pub mentions : String → String → Bool
  mentions keyword term = contains_words keyword (normalize_phrase term)

  abbrev pub matched_terms : String → List String → List String
  matched_terms keyword terms = filter (mentions keyword) terms

  abbrev pub matches_of : RuleCode → String → List String → List (RuleReason N)
  matches_of code label matches =
      map (λ token. record { code = code; detail = matched_token label token }) matches

  unfoldable pub seasonal_keyword_matches : String → List String
  unfolding id_set
  seasonal_keyword_matches keyword =
      id_set [] (matched_terms keyword seasonal_event_terms ++ ordinal_birthdays keyword)

  abbrev pub is_outside : OpportunityCsvRow N → ResearchRuleConfig N → Bool
  is_outside row config =
      lt row.average_price config.minimum_price || lt config.maximum_price row.average_price

  abbrev pub is_high : String → Bool
  is_high seasonality = str_eq seasonality "High" || str_eq seasonality "Very High"

  unfoldable pub price_reasons : OpportunityCsvRow N → ResearchRuleConfig N → List (RuleReason N)
  price_reasons row config =
      if is_outside row config
      then record {
        code = price_out_of_range;
        detail = price_outside row.average_price config.minimum_price config.maximum_price;
      }
        ∷ []
      else []

  unfoldable pub seasonal_reasons : OpportunityCsvRow N → ResearchRuleConfig N → List (RuleReason N)
  unfolding seasonal_keyword_matches
  seasonal_reasons row config =
      if config.allow_high_seasonality
      then []
      else (matches_of seasonality_high "seasonal"
            (seasonal_keyword_matches (normalize_phrase row.keyword))
          ++ (if is_high row.seasonality
              then record { code = seasonality_high; detail = seasonality_field row.seasonality }
                ∷ []
              else []))

  -- The reasons of the lexicons, in the order of the source.
  unfoldable pub lexicon_reasons : String → List (RuleReason N)
  lexicon_reasons keyword =
      matches_of electric_or_battery "electric/battery"
        (matched_terms keyword electric_or_battery_terms)
      ++ (matches_of irrelevant_subdomain "irrelevant subdomain"
            (matched_terms keyword irrelevant_subdomain_terms)
          ++ (matches_of brand_or_ip "brand/IP" (matched_terms keyword brand_or_ip_terms)
              ++ (matches_of broad_shopping_intent "broad shopping intent"
                    (matched_terms keyword broad_shopping_intent_terms)
                  ++ matches_of fragile_or_heavy_risk "fragile/heavy risk"
                      (matched_terms keyword fragile_or_heavy_risk_terms))))

  -- No result is the range error.
  unfoldable pub evaluate_opportunity_rules :
      OpportunityCsvRow N → ResearchRuleConfig N → Option (RuleEvaluation N)
  unfolding price_reasons seasonal_reasons lexicon_reasons
  evaluate_opportunity_rules row config =
      if lt config.maximum_price config.minimum_price
      then none
      else (let keyword = normalize_phrase row.keyword in
          let reasons : List (RuleReason N) =
            price_reasons row config ++ (seasonal_reasons row config ++ lexicon_reasons keyword) in
          some (record {
            passed = is_empty reasons;
            reasons = reasons;
            flags =
                if not (is_empty (matched_terms keyword food_contact_terms))
                then "FOOD_CONTACT" ∷ []
                else [];
          }))
