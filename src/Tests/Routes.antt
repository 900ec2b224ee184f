-- ===== src/Tests/Routes.antt =====
-- Runs of packages/ai-router/src/router.ts.
use Prim.Native.Nat.{compare, Ordering}
use amazon_research_agent.Base.{
  ℕ, ◌≡◌, refl, List, [], ◌∷◌, String, true, false, none, some, includes,
}
use amazon_research_agent.Base.Order.{IsOrder, sort_by}
use amazon_research_agent.Base.Comparators.{compare-IsOrder, by_key-IsOrder}
use amazon_research_agent.Shared.Ai.{
  AiRequest, AiModelDescriptor, niche_normalization, structured_json, free, subscription, payg,
  balanced, BillingType,
}
use amazon_research_agent.Router.{
  AiProvider, ProviderCatalogEntry, RouteCandidate, route, defer, route_ai_request, collect, visit,
  model_candidates, candidate, billing_rank, supports_capabilities, excluded_provider_ids,
  permits_payg, compare_routes, compare_candidates,
}
use amazon_research_agent.Router.Choice.{IsChoice, route_ai_request-IsChoice}
use Prim.Native.String.{len}

-- A collation by length, which is an order.
abbrev pub by_length : String → String → Ordering
by_length a b = compare (len a) (len b)

pub by_length-IsOrder : IsOrder by_length
by_length-IsOrder = by_key-IsOrder len compare compare-IsOrder

abbrev model : String → BillingType → ℕ → AiModelDescriptor
model id billing rank = record {
  provider_id = id;
  id = id;
  display_name = id;
  capabilities = structured_json ∷ [];
  billing_type = billing;
  quality_rank = rank;
}

abbrev entry : String → BillingType → ProviderCatalogEntry
entry id billing = record {
  provider = record { id = id; billing_type = billing };
  enabled = true;
  priority = 10;
  roles = some (niche_normalization ∷ []);
  role_priority = none;
  paid_primary = none;
  health = record { available = true; checked_at = ""; reason = none; retry_after_seconds = none };
  models = model id billing 1 ∷ [];
}

abbrev pub catalog : List ProviderCatalogEntry
catalog = entry "paid" payg ∷ entry "plan" subscription ∷ entry "open" free ∷ []

abbrev request : AiRequest
request = record {
  role = niche_normalization;
  router_mode = balanced;
  allow_paid_fallback = false;
  paid_primary_provider_ids = [];
  required_capabilities = structured_json ∷ [];
  primary_provider_id = none;
  exclude_provider_ids = [];
}

abbrev open_provider : AiProvider
open_provider = record { id = "open"; billing_type = free }

picks_free :
    route_ai_request by_length request catalog ≡ route open_provider "open" (model "open" free 1)
unfolding route_ai_request collect visit model_candidates candidate billing_rank
    supports_capabilities excluded_provider_ids permits_payg compare_routes compare_candidates
    sort_by includes
picks_free = refl

route_ai_request-IsChoice_example :
    (c : RouteCandidate) × IsChoice by_length request catalog open_provider "open"
      (model "open" free 1)
      c
route_ai_request-IsChoice_example =
    route_ai_request-IsChoice by_length request catalog open_provider "open" (model "open" free 1)
      by_length-IsOrder picks_free

abbrev only_paid : List ProviderCatalogEntry
only_paid = entry "paid" payg ∷ []

defers : route_ai_request by_length request only_paid ≡ defer ("paid" ∷ [])
unfolding route_ai_request collect visit model_candidates candidate billing_rank
    supports_capabilities excluded_provider_ids permits_payg compare_routes compare_candidates
    sort_by includes
defers = refl
