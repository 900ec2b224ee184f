-- ===== src/Shared/Endpoints.antt =====
-- packages/shared/src/jungle-scout.ts: endpoints and purposes of paid calls.
use amazon_research_agent.Base.{ℕ, Bool, true, false, ◌==◌}

pub data JungleScoutEndpoint : Type 0 where
  product_database : JungleScoutEndpoint
  keywords_by_keyword : JungleScoutEndpoint
  historical_search_volume : JungleScoutEndpoint
  sales_estimates : JungleScoutEndpoint
  share_of_voice : JungleScoutEndpoint

pub data ApiCallPurpose : Type 0 where
  normal_validation manual_research strong_revalidation : ApiCallPurpose

abbrev pub is_normal_validation : ApiCallPurpose → Bool
is_normal_validation normal_validation = true
is_normal_validation _ = false

abbrev pub endpoint_index : JungleScoutEndpoint → ℕ
endpoint_index product_database = 0
endpoint_index keywords_by_keyword = 1
endpoint_index historical_search_volume = 2
endpoint_index sales_estimates = 3
endpoint_index share_of_voice = 4

abbrev pub same_endpoint : JungleScoutEndpoint → JungleScoutEndpoint → Bool
same_endpoint a b = endpoint_index a == endpoint_index b
