-- ===== src/Research/MicroNiches.antt =====
-- packages/research-engine/src/relevance.ts and packages/research-engine/src/micro-niche.ts: the
-- families of a niche in clusters, with segments of their prices. What is done with texts is a
-- parameter: lower case, joining titles, the test for a part, and the tokens of a niche.

pub mod Segments
pub mod Clusters
use Prim.Native.Nat.{Ordering}
use amazon_research_agent.Base.{
  ℕ, String, Bool, true, false, not, ◌&&◌, ◌||◌, Option, none, some, List, [], ◌∷◌, ◌++◌, map,
  filter, any, includes, is_empty, length, ltb, ◌/◌, zero, suc, if◌then◌else◌,
}
use amazon_research_agent.Base.Sets.{add_id}
use amazon_research_agent.Base.Order.{sort_by}
use amazon_research_agent.Shared.Numbers.{Numbers}
use amazon_research_agent.Research.Families.{CatalogProduct, ProductFamily, known}

abbrev pub generic_noise_terms : List String
generic_noise_terms =
    "rug" ∷ "bath mat" ∷ "shower" ∷ "threshold strip" ∷ "cabinet liner" ∷ "under sink"
    ∷ "under-sink" ∷ []

pub record ClusterRule : Type 0 where
  pub name : String
  pub terms : List String

abbrev pub cluster_rules : List ClusterRule
cluster_rules =
    record {
      name = "Silicone Faucet Mat / Sink Splash Guard";
      terms = "silicone" ∷ "faucet mat" ∷ "sink splash" ∷ "sink mat" ∷ [];
    }
    ∷ record {
      name = "Diatomite / Stone Drying Tray";
      terms = "diatomite" ∷ "stone drying" ∷ "drying tray" ∷ [];
    }
    ∷ record { name = "Acrylic Splash Guard"; terms = "acrylic" ∷ [] }
    ∷ []

pub record PriceSegment (N : Type 0) : Type 0 where
  pub label : String
  pub min_price : N
  pub max_price : N
  pub family_count : ℕ

pub record MicroNicheCluster (N : Type 0) : Type 0 where
  pub name : String
  pub families : List (ProductFamily N)
  pub price_segments : List (PriceSegment N)

pub record TextOperations : Type 0 where
  pub lower : String → String
  pub join : List String → String
  pub contains : String → String → Bool
  pub tokens : String → List String

module _ {N : Type 0} (texts : TextOperations) where
  open texts use {lower, join, contains, tokens}

  unfoldable pub haystack : ProductFamily N → String
  haystack family = join (map (λ (v : CatalogProduct N). lower v.title) family.variants)

  -- The field `relevant` of the classification.
  unfoldable pub is_relevant : String → ProductFamily N → Bool
  unfolding haystack
  is_relevant niche family =
      let text = haystack family in
      not
        (any (λ term. contains text term && not (contains (lower niche) term)) generic_noise_terms)
      && (is_empty (tokens niche) || any (contains text) (tokens niche))

  unfoldable pub matches : ClusterRule → ProductFamily N → Bool
  unfolding haystack
  matches rule family = any (contains (haystack family)) rule.terms

-- The keys of the families are added to those that are assigned.
unfoldable pub assign_keys : {N : Type 0} → List String → List (ProductFamily N) → List String
unfolding add_id
assign_keys assigned [] = assigned
assign_keys assigned (family ∷ families) = assign_keys (add_id assigned family.parent_key) families

module _ (n : Numbers) where
  open n use {Number, of, sub, div, lt, le, eq}

  abbrev pub by_price : Number → Number → Ordering
  by_price a b = if lt a b then Ordering.lt else if lt b a then Ordering.gt else Ordering.eq

  abbrev element : {A : Type 0} → List A → ℕ → Option A
  element [] i = none
  element (x ∷ xs) zero = some x
  element (x ∷ xs) (suc i) = element xs i

  unfoldable pub family_median_price : ProductFamily Number → Option Number
  family_median_price family =
      let prices =
        sort_by by_price (known (map (λ (v : CatalogProduct Number). v.price) family.variants)) in
      element prices (length prices / 2)

  abbrev pub last_from : Number → List Number → Number
  last_from price [] = price
  last_from price (next ∷ prices) = last_from next prices

  -- The split of sorted prices before the first gap: the lower ones, up to `current`, and the others.
  -- At least three prices stay on each side.
  unfoldable pub find_gap :
      List Number → Number → List Number → Option (List Number × Number × List Number)
  find_gap low current [] = none
  find_gap low current (next ∷ high) =
      let later = find_gap (low ++ next ∷ []) next high in
      if ltb (length (next ∷ high)) 3
      then none
      else if eq current (of 0)
      then later
      else if le (div (of 4) (of 10)) (div (sub next current) current)
      then some (low, current, next ∷ high)
      else later

  abbrev pub whole : Number → List Number → List (PriceSegment Number)
  whole least prices =
      record {
        label = "all";
        min_price = least;
        max_price = last_from least prices;
        family_count = suc (length prices);
      }
      ∷ []

  abbrev pub first_or : Number → List Number → Number
  first_or price [] = price
  first_or price (p ∷ prices) = p

  abbrev pub halves :
      List (PriceSegment Number)
      → Option (List Number × Number × List Number)
      → List (PriceSegment Number)
  halves all none = all
  halves all (some (low, current, high)) =
      record {
        label = "value";
        min_price = first_or current low;
        max_price = current;
        family_count = length low;
      }
      ∷ record {
        label = "premium";
        min_price = first_or current high;
        max_price = last_from current high;
        family_count = length high;
      }
      ∷ []

  -- The segments of prices in order.
  unfoldable pub segments_of : List Number → List (PriceSegment Number)
  unfolding find_gap
  segments_of [] = []
  segments_of (a ∷ []) = whole a []
  segments_of (a ∷ b ∷ []) = whole a (b ∷ [])
  segments_of (a ∷ b ∷ c ∷ prices) =
      let all = whole a (b ∷ c ∷ prices) in
      if ltb (length (a ∷ b ∷ c ∷ prices)) 6
      then all
      else halves all (find_gap (a ∷ b ∷ c ∷ []) c prices)

  unfoldable pub segment_prices : List (ProductFamily Number) → List (PriceSegment Number)
  unfolding family_median_price segments_of
  segment_prices families =
      segments_of (sort_by by_price (known (map family_median_price families)))

  module _ (texts : TextOperations) where
    -- The loop over the rules: the clusters, and the keys of their families.
    unfoldable pub rule_clusters :
        List (ProductFamily Number)
        → List ClusterRule
        → List String
        → List (MicroNicheCluster Number) × List String
    unfolding matches segment_prices assign_keys
    rule_clusters relevant [] assigned = ([], assigned)
    rule_clusters relevant (rule ∷ rules) assigned =
        let matched = filter (matches texts rule) relevant in
        if is_empty matched
        then rule_clusters relevant rules assigned
        else (let (clusters, keys) = rule_clusters relevant rules (assign_keys assigned matched) in
            (
              record {
                name = rule.name;
                families = matched;
                price_segments = segment_prices matched;
              }
                  ∷ clusters,
              keys,
            ))

    abbrev pub leftover_cluster :
        String → List (ProductFamily Number) → List (MicroNicheCluster Number)
    leftover_cluster niche [] = []
    leftover_cluster niche (family ∷ families) =
        record {
          name = niche;
          families = family ∷ families;
          price_segments = segment_prices (family ∷ families);
        }
        ∷ []

    unfoldable pub cluster_micro_niches :
        List (ProductFamily Number) → String → List (MicroNicheCluster Number)
    unfolding is_relevant rule_clusters
    cluster_micro_niches families niche =
        let relevant = filter (is_relevant texts niche) families in
        let (clusters, keys) = rule_clusters relevant cluster_rules [] in
        clusters
        ++ leftover_cluster niche
            (filter (λ (f : ProductFamily Number). not (includes keys f.parent_key)) relevant)
