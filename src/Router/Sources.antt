-- ===== src/Router/Sources.antt =====
-- Where a decision of packages/ai-router/src/router.ts comes from in the catalog.
use Prim.Native.Nat.{Ordering}
use amazon_research_agent.Base.{
  String, Bool, true, List, [], ◌∷◌, ◌≡◌, sym, ◌∙◌, arith, All, All-append, All-map, All-zip,
  All-of_map, All-of_pointwise, map, filter, any,
}
use amazon_research_agent.Base.Order.{sort_by, All-sort_by}
use amazon_research_agent.Shared.Ai.{AiRequest, AiModelDescriptor}
use amazon_research_agent.Router.{
  AiProvider, ProviderCatalogEntry, RouteCandidate, route, decide, compare_routes, route_ai_request,
  candidate,
}
use amazon_research_agent.Router.Policy.{permitted_pairs, considered_ids, is_permitted, IsPermitted}
use amazon_research_agent.Router.Choice.{route_ai_request-eq, permitted_pairs-IsPermitted}

-- A test that holds of the entry holds of one of the entries.
abbrev pub Among : List ProviderCatalogEntry → ProviderCatalogEntry → Type 0
Among entries entry = (p : ProviderCatalogEntry → Bool) → p entry ≡ true → any p entries ≡ true

Among-cons :
    (e entry : ProviderCatalogEntry) (entries : List ProviderCatalogEntry)
    → Among entries entry
    → Among (e ∷ entries) entry
Among-cons e entry entries h p t = ground (arith, h p t)

Among-first :
    (e : ProviderCatalogEntry) (entries : List ProviderCatalogEntry) → Among (e ∷ entries) e
Among-first e entries p t = ground arith

pub permitted_pairs-Among :
    (request : AiRequest) (entries : List ProviderCatalogEntry)
    → All (λ c. Among entries c.entry) (permitted_pairs request entries)
unfolding permitted_pairs candidate
permitted_pairs-Among request [] = tt
permitted_pairs-Among request (entry ∷ entries) =
    let P = λ (c : RouteCandidate). Among (entry ∷ entries) c.entry in
    All-append P (map (candidate request entry) (filter (is_permitted request entry) entry.models))
      (permitted_pairs request entries)
      (All-of_map (candidate request entry) P (filter (is_permitted request entry) entry.models) (
        All-of_pointwise (λ m. P (candidate request entry m)) (λ m. Among-first entry entries)
          (filter (is_permitted request entry) entry.models)))
      (All-map (λ c. Among-cons entry c.entry entries) (permitted_pairs request entries)
        (permitted_pairs-Among request entries))

-- The pair of a decision stands in the catalog and is permitted.
pub record IsSource (request : AiRequest) (entries : List ProviderCatalogEntry) (id : String)
    (model : AiModelDescriptor) (c : RouteCandidate) : Type 0 where
  pub among : Among entries c.entry
  pub permitted : IsPermitted request c.entry c.model
  pub same_id : id ≡ c.entry.provider.id
  pub same_model : model ≡ c.model

module _ (locale_compare : String → String → Ordering) where
  IsSource-of_sorted :
      (request : AiRequest) (entries : List ProviderCatalogEntry) (sorted : List RouteCandidate)
      (checked : List String) (provider : AiProvider) (id : String) (model : AiModelDescriptor)
      → All (λ c. Among entries c.entry × IsPermitted request c.entry c.model) sorted
      → decide locale_compare checked sorted ≡ route provider id model
      → (c : RouteCandidate) × IsSource request entries id model c
  IsSource-of_sorted request entries [] checked provider id model p h = absurd (cc h)
  IsSource-of_sorted request entries (c ∷ cs) checked provider id model p h =
      (c, record { among = p.0.0; permitted = p.0.1; same_id = cc h; same_model = cc h })

  pub route_ai_request-IsSource :
      (request : AiRequest) (entries : List ProviderCatalogEntry) (provider : AiProvider)
      (id : String) (model : AiModelDescriptor)
      → route_ai_request locale_compare request entries ≡ route provider id model
      → (c : RouteCandidate) × IsSource request entries id model c
  route_ai_request-IsSource request entries provider id model h =
      let P = λ (c : RouteCandidate). Among entries c.entry × IsPermitted request c.entry c.model in
      let cmp = compare_routes locale_compare request.router_mode in
      IsSource-of_sorted request entries (sort_by cmp (permitted_pairs request entries))
        (considered_ids request entries) provider id model
        (All-sort_by cmp P (permitted_pairs request entries) (
          All-zip (λ c. Among entries c.entry) (λ c. IsPermitted request c.entry c.model)
            (permitted_pairs request entries) (permitted_pairs-Among request entries)
            (permitted_pairs-IsPermitted locale_compare request entries)))
        (sym (route_ai_request-eq locale_compare request entries) ∙ h)
