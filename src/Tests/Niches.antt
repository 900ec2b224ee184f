-- ===== src/Tests/Niches.antt =====
-- Runs of packages/research-engine/src/micro-niche.ts.
use amazon_research_agent.Base.{
  ℕ, String, none, some, List, [], ◌∷◌, ◌≡◌, ◌≤◌, ◌⊎◌, All, filter, length, map, str_eq,
}
use amazon_research_agent.Research.Families.{ProductFamily, known}
use amazon_research_agent.Research.MicroNiches.{
  TextOperations, segment_prices, family_median_price, cluster_micro_niches,
}
use amazon_research_agent.Research.MicroNiches.Segments.{total_count, segment_prices-counts}
use amazon_research_agent.Research.MicroNiches.Clusters.{
  is_concerned, IsPlaced, cluster_micro_niches-IsPlaced,
}
use amazon_research_agent.Tests.Candidates.{cents}

-- A title is one word, and contains itself.
abbrev first_word : List String → String
first_word [] = ""
first_word (w ∷ ws) = w

abbrev words : TextOperations
words = record { lower = λ text. text; join = first_word; contains = str_eq; tokens = λ text. [] }

abbrev family : String → String → ℕ → ProductFamily ℕ
family key title price = record {
  parent_key = key;
  variants =
      record {
        id = key;
        title = title;
        parent_asin = none;
        price = some price;
        units_sold_30 = none;
        revenue_30 = none;
      }
      ∷ [];
  observed_monthly_units = 0;
  observed_monthly_revenue = 0;
  quality_notes = [];
}

abbrev families : List (ProductFamily ℕ)
families =
    family "a" "acrylic" 12
    ∷ family "b" "rug" 7
    ∷ family "c" "tray" 30
    ∷ family "d" "diatomite" 5
    ∷ family "e" "tray" 29
    ∷ family "f" "mat" 31
    ∷ []

segment_prices-counts_example :
    let count = length (known (map (family_median_price cents) families)) in
    (total_count (segment_prices cents families) ≡ count)
    × All (λ s. (s.family_count ≡ count) ⊎ (3 ≤ s.family_count)) (segment_prices cents families)
segment_prices-counts_example = segment_prices-counts cents families

cluster_micro_niches-IsPlaced_example :
    let concerned = filter (is_concerned cents words "trays") families in
    All
      (IsPlaced cents words concerned "trays" (cluster_micro_niches cents words families "trays"))
      concerned
cluster_micro_niches-IsPlaced_example = cluster_micro_niches-IsPlaced cents words families "trays"
