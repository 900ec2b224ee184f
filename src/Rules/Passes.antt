-- ===== src/Rules/Passes.antt =====
-- Theorems on the rules of packages/research-engine/src/rules/opportunity-rules.ts.
use amazon_research_agent.Base.{
  String, Bool, true, false, not, ◌&&◌, ◌||◌, Option, none, some, List, [], ◌∷◌, ◌++◌, ◌≡◌, refl,
  arith, filter, any, is_empty, if◌then◌else◌, Bool-cases, inl, inr, includes,
}
use amazon_research_agent.Base.Sets.{add_id, id_set}
use amazon_research_agent.Imports.{OpportunityCsvRow}
use amazon_research_agent.Rules.Lexicons.{
  electric_or_battery_terms, seasonal_event_terms, brand_or_ip_terms, broad_shopping_intent_terms,
  irrelevant_subdomain_terms, fragile_or_heavy_risk_terms,
}
use amazon_research_agent.Rules.Opportunities.{
  PhraseOperations, ResearchRuleConfig, RuleCode, seasonality_high, seasonality_field,
  price_out_of_range, price_outside, RuleReason, RuleEvaluation, evaluate_opportunity_rules,
  mentions, is_outside, is_high, matches_of, matched_terms, seasonal_keyword_matches, price_reasons,
  seasonal_reasons, lexicon_reasons,
}

is_empty-append : {A : Type 0} (xs ys : List A) → is_empty (xs ++ ys) ≡ (is_empty xs && is_empty ys)
is_empty-append [] ys = ground arith
is_empty-append (x ∷ xs) ys = ground arith

is_empty-filter :
    {A : Type 0} (p : A → Bool) (xs : List A) → is_empty (filter p xs) ≡ not (any p xs)
is_empty-filter p [] = refl
is_empty-filter p (x ∷ xs) = ground (arith, is_empty-filter p xs)

any-append :
    {A : Type 0} (p : A → Bool) (xs ys : List A) → any p (xs ++ ys) ≡ (any p xs || any p ys)
any-append p [] ys = ground arith
any-append p (x ∷ xs) ys = ground (arith, any-append p xs ys)

is_empty-id_set_some :
    (k : String) (ks set : List String) (ids : List String) → is_empty (id_set (k ∷ ks) ids) ≡ false
unfolding id_set add_id
is_empty-id_set_some k ks set [] = refl
is_empty-id_set_some k ks set (id ∷ ids) = elim (Bool-cases (includes (k ∷ ks) id)) [
  | inl e ↦ ground (arith, e, is_empty-id_set_some k ks set ids)
  | inr e ↦ ground (arith, e, is_empty-id_set_some k (ks ++ id ∷ []) set ids)
]

is_empty-id_set : (ids : List String) → is_empty (id_set [] ids) ≡ is_empty ids
unfolding id_set add_id includes
is_empty-id_set [] = refl
is_empty-id_set (id ∷ ids) = is_empty-id_set_some id [] [] ids

abbrev brand_and_later_terms : List String
brand_and_later_terms =
    brand_or_ip_terms ++ (broad_shopping_intent_terms ++ fragile_or_heavy_risk_terms)

abbrev pub risk_terms : List String
risk_terms = electric_or_battery_terms ++ (irrelevant_subdomain_terms ++ brand_and_later_terms)

module _ {N : Type 0} (ops : PhraseOperations N) where
  -- A season is named in the keyword, or the field is high.
  unfoldable pub is_seasonal : OpportunityCsvRow N → Bool
  is_seasonal row =
      let keyword = ops.normalize_phrase row.keyword in
      any (mentions ops keyword) seasonal_event_terms
      || (not (is_empty (ops.ordinal_birthdays keyword)) || is_high ops row.seasonality)

  unfoldable pub is_acceptable : OpportunityCsvRow N → ResearchRuleConfig N → Bool
  unfolding is_seasonal
  is_acceptable row config =
      not (is_outside ops row config)
      && ((config.allow_high_seasonality || not (is_seasonal row))
          && not (any (mentions ops (ops.normalize_phrase row.keyword)) risk_terms))

  is_empty-matches_of :
      (code : RuleCode) (label : String) (matches : List String)
      → is_empty (matches_of ops code label matches) ≡ is_empty matches
  is_empty-matches_of code label [] = refl
  is_empty-matches_of code label (m ∷ ms) = refl

  is_empty-if : {A : Type 0} (b : Bool) (x : A) → is_empty (if b then x ∷ [] else []) ≡ not b
  is_empty-if true x = refl
  is_empty-if false x = refl

  is_empty-matched :
      (code : RuleCode) (label keyword : String) (terms : List String)
      → is_empty (matches_of ops code label (matched_terms ops keyword terms))
        ≡ not (any (mentions ops keyword) terms)
  is_empty-matched code label keyword terms = cc (
    is_empty-matches_of code label (matched_terms ops keyword terms),
    is_empty-filter (mentions ops keyword) terms,
  )

  is_empty-matched_append :
      (code : RuleCode) (label keyword : String) (terms others : List String)
      (rest : List (RuleReason N))
      → is_empty rest ≡ not (any (mentions ops keyword) others)
      → is_empty (matches_of ops code label (matched_terms ops keyword terms) ++ rest)
        ≡ not (any (mentions ops keyword) (terms ++ others))
  is_empty-matched_append code label keyword terms others rest h = ground (
    arith,
    is_empty-append (matches_of ops code label (matched_terms ops keyword terms)) rest,
    is_empty-matched code label keyword terms,
    any-append (mentions ops keyword) terms others,
  )

  lexicon_reasons-any :
      (keyword : String)
      → is_empty (lexicon_reasons ops keyword) ≡ not (any (mentions ops keyword) risk_terms)
  unfolding lexicon_reasons
  lexicon_reasons-any keyword =
      is_empty-matched_append _ _ keyword electric_or_battery_terms
        (irrelevant_subdomain_terms ++ brand_and_later_terms) _
        (is_empty-matched_append _ _ keyword irrelevant_subdomain_terms brand_and_later_terms _ (
          is_empty-matched_append _ _ keyword brand_or_ip_terms
            (broad_shopping_intent_terms ++ fragile_or_heavy_risk_terms) _
            (is_empty-matched_append _ _ keyword broad_shopping_intent_terms
              fragile_or_heavy_risk_terms _
              (is_empty-matched _ _ keyword fragile_or_heavy_risk_terms))))

  seasonal_reasons-eq :
      (row : OpportunityCsvRow N) (config : ResearchRuleConfig N)
      → is_empty (seasonal_reasons ops row config)
        ≡ (config.allow_high_seasonality || not (is_seasonal row))
  unfolding seasonal_reasons is_seasonal seasonal_keyword_matches
  seasonal_reasons-eq row config = elim (Bool-cases config.allow_high_seasonality) [
    | inl e ↦ ground (arith, e)
    | inr e ↦
        let keyword = ops.normalize_phrase row.keyword in
        let matches = seasonal_keyword_matches ops keyword in
        let terms = matched_terms ops keyword seasonal_event_terms in
        let field : RuleReason N = record {
          code = seasonality_high;
          detail = seasonality_field row.seasonality;
        } in
        ground (
          arith,
          e,
          is_empty-append (matches_of ops seasonality_high "seasonal" matches)
              (if is_high ops row.seasonality then field ∷ [] else []),
          is_empty-matches_of seasonality_high "seasonal" matches,
          is_empty-if (is_high ops row.seasonality) field,
          is_empty-id_set (terms ++ ops.ordinal_birthdays keyword),
          is_empty-append terms (ops.ordinal_birthdays keyword),
          is_empty-filter (mentions ops keyword) seasonal_event_terms,
        )
  ]

  abbrev pub passed_of : Option (RuleEvaluation N) → Option Bool
  passed_of none = none
  passed_of (some e) = some e.passed

  price_reasons-is_outside :
      (row : OpportunityCsvRow N) (config : ResearchRuleConfig N)
      → is_empty (price_reasons ops row config) ≡ not (is_outside ops row config)
  unfolding price_reasons
  price_reasons-is_outside row config = is_empty-if (is_outside ops row config) (record {
    code = price_out_of_range;
    detail = price_outside row.average_price config.minimum_price config.maximum_price;
  })

  reasons-is_acceptable :
      (row : OpportunityCsvRow N) (config : ResearchRuleConfig N)
      → is_empty (
          price_reasons ops row config
          ++ (seasonal_reasons ops row config
              ++ lexicon_reasons ops (ops.normalize_phrase row.keyword)))
        ≡ is_acceptable row config
  unfolding is_acceptable
  reasons-is_acceptable row config =
      let seasonal = seasonal_reasons ops row config in
      let lexicon = lexicon_reasons ops (ops.normalize_phrase row.keyword) in
      cc (
        is_empty-append (price_reasons ops row config) (seasonal ++ lexicon),
        is_empty-append seasonal lexicon,
        price_reasons-is_outside row config,
        seasonal_reasons-eq row config,
        lexicon_reasons-any (ops.normalize_phrase row.keyword),
      )

  -- The evaluation throws when the bounds of the price are crossed. Otherwise a row passes exactly when
  -- its price is within the bounds, high seasonality is allowed or the row is not seasonal, and its
  -- keyword mentions none of the terms of risk.
  pub evaluate_opportunity_rules-passed :
      (row : OpportunityCsvRow N) (config : ResearchRuleConfig N)
      → passed_of (evaluate_opportunity_rules ops row config) ≡ (
          if ops.lt config.maximum_price config.minimum_price
          then none
          else some (is_acceptable row config))
  unfolding evaluate_opportunity_rules is_acceptable
  evaluate_opportunity_rules-passed row config =
      elim (Bool-cases (ops.lt config.maximum_price config.minimum_price)) [
        | inl e ↦ ground (arith, e)
        | inr e ↦ ground (arith, e, reasons-is_acceptable row config)
      ]
