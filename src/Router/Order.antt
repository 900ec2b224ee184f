-- ===== src/Router/Order.antt =====
-- Lemmas on the comparator of packages/ai-router/src/router.ts.
use Prim.Native.Nat.{compare, Ordering}
use amazon_research_agent.Base.{String}
use amazon_research_agent.Base.Order.{IsOrder}
use amazon_research_agent.Base.Comparators.{compare-IsOrder, by_key-IsOrder, or_else-IsOrder}
use amazon_research_agent.Shared.Ai.{RouterMode, saver, balanced, highest_quality}
use amazon_research_agent.Router.{
  RouteCandidate, compare_candidates, compare_routes, provider_id_of, model_id_of,
}

by_billing : IsOrder (λ (a b : RouteCandidate). compare a.billing_rank b.billing_rank)
by_billing = by_key-IsOrder (λ (c : RouteCandidate). c.billing_rank) compare compare-IsOrder

by_priority : IsOrder (λ (a b : RouteCandidate). compare a.role_priority b.role_priority)
by_priority = by_key-IsOrder (λ (c : RouteCandidate). c.role_priority) compare compare-IsOrder

by_quality : IsOrder (λ (a b : RouteCandidate). compare a.model.quality_rank b.model.quality_rank)
by_quality = by_key-IsOrder (λ (c : RouteCandidate). c.model.quality_rank) compare compare-IsOrder

compare_candidates-IsOrder : (mode : RouterMode) → IsOrder (compare_candidates mode)
unfolding compare_candidates
compare_candidates-IsOrder saver =
    or_else-IsOrder _ _ by_billing (or_else-IsOrder _ _ by_priority by_quality)
compare_candidates-IsOrder balanced =
    or_else-IsOrder _ _ by_priority (or_else-IsOrder _ _ by_billing by_quality)
compare_candidates-IsOrder highest_quality =
    or_else-IsOrder _ _ by_quality (or_else-IsOrder _ _ by_priority by_billing)

pub compare_routes-IsOrder :
    (locale_compare : String → String → Ordering)
    → IsOrder locale_compare
    → (mode : RouterMode) → IsOrder (compare_routes locale_compare mode)
unfolding compare_routes
compare_routes-IsOrder locale_compare o mode =
    or_else-IsOrder _ _ (compare_candidates-IsOrder mode) (
      or_else-IsOrder _ _ (by_key-IsOrder provider_id_of locale_compare o)
        (by_key-IsOrder model_id_of locale_compare o))
