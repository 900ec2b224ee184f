-- ===== src/Router/Choice.antt =====
-- Theorems on the decisions of packages/ai-router/src/router.ts.
use Prim.Native.Nat.{Ordering}
use mathlib.Core.List.{Memᴰ}
use amazon_research_agent.Base.{
  String, List, [], ◌∷◌, ◌≡◌, refl, sym, ◌∙◌, arith, subst, All, map, filter, All-append, All-map,
  All-zip, All-filter_of_All, All-of_map, All-of_filter, length,
}
use amazon_research_agent.Base.Order.{
  sort_by, IsOrder, AtMost, IsSorted, sort_by-IsSorted, All-sort_by, All-of_sort_by, length-sort_by,
}
use amazon_research_agent.Shared.Ai.{AiRequest, AiModelDescriptor}
use amazon_research_agent.Router.{
  AiProvider, ProviderCatalogEntry, RouteCandidate, route, defer, Collected, compare_routes, decide,
  route_ai_request, candidate,
}
use amazon_research_agent.Router.Policy.{
  permitted_pairs, considered_ids, is_permitted, IsPermitted, IsPermitted-of_true,
  collect-candidates, collect-checked,
}
use amazon_research_agent.Router.Order.{compare_routes-IsOrder}

module _ (locale_compare : String → String → Ordering) where
  -- Routing is the decision on the sorted list of the permitted pairs.
  pub route_ai_request-eq :
      (request : AiRequest) (entries : List ProviderCatalogEntry)
      → route_ai_request locale_compare request entries
        ≡ decide locale_compare (considered_ids request entries) (
            sort_by
              (compare_routes locale_compare request.router_mode)
              (permitted_pairs request entries))
  unfolding route_ai_request
  route_ai_request-eq request entries =
      let none_yet : Collected = record { candidates = []; checked_provider_ids = [] } in
      rw (collect-candidates request entries none_yet, collect-checked request entries none_yet)

  pub permitted_pairs-IsPermitted :
      (request : AiRequest) (entries : List ProviderCatalogEntry)
      → All (λ c. IsPermitted request c.entry c.model) (permitted_pairs request entries)
  unfolding permitted_pairs candidate
  permitted_pairs-IsPermitted request [] = tt
  permitted_pairs-IsPermitted request (entry ∷ entries) =
      let P = λ (c : RouteCandidate). IsPermitted request c.entry c.model in
      All-append P
        (map (candidate request entry) (filter (is_permitted request entry) entry.models))
        (permitted_pairs request entries)
        (All-of_map (candidate request entry) P (filter (is_permitted request entry) entry.models) (
          All-of_filter (λ m. P (candidate request entry m)) (is_permitted request entry)
            (IsPermitted-of_true request entry) entry.models))
        (permitted_pairs-IsPermitted request entries)

  -- A pair of an entry of the catalog and a model that it offers, with the ranks of the request.
  pub record IsListed (request : AiRequest) (entries : List ProviderCatalogEntry)
      (c : RouteCandidate) : Type 0 where
    pub in_catalog : Memᴰ c.entry entries
    pub offered : Memᴰ c.model c.entry.models
    pub ranked : c ≡ candidate request c.entry c.model

  All-Mem {ℓ} : {A : Type ℓ} (xs : List A) → All (λ x. Memᴰ x xs) xs
  All-Mem [] = tt
  All-Mem (x ∷ xs) = (Memᴰ.head refl, All-map (λ y m. Memᴰ.tail m) xs (All-Mem xs))

  IsListed-cons :
      (request : AiRequest) (entry : ProviderCatalogEntry) (entries : List ProviderCatalogEntry)
      (c : RouteCandidate)
      → IsListed request entries c
      → IsListed request (entry ∷ entries) c
  IsListed-cons request entry entries c l = record {
    in_catalog = Memᴰ.tail l.in_catalog;
    offered = l.offered;
    ranked = l.ranked;
  }

  permitted_pairs-IsListed :
      (request : AiRequest) (entries : List ProviderCatalogEntry)
      → All (IsListed request entries) (permitted_pairs request entries)
  unfolding permitted_pairs candidate
  permitted_pairs-IsListed request [] = tt
  permitted_pairs-IsListed request (entry ∷ entries) =
      let P = IsListed request (entry ∷ entries) in
      let kept = filter (is_permitted request entry) entry.models in
      All-append P (map (candidate request entry) kept) (permitted_pairs request entries)
        (All-of_map (candidate request entry) P kept (
          All-map {P = λ m. Memᴰ m entry.models} {Q = λ m. P (candidate request entry m)}
            (λ m offered. record { in_catalog = Memᴰ.head refl; offered = offered; ranked = refl })
            kept
            (All-filter_of_All (λ m. Memᴰ m entry.models) (is_permitted request entry) entry.models
              (All-Mem entry.models))))
        (All-map (IsListed-cons request entry entries) (permitted_pairs request entries)
          (permitted_pairs-IsListed request entries))

  -- The pair that stands behind a decision.
  pub record IsChoice (request : AiRequest) (entries : List ProviderCatalogEntry)
      (provider : AiProvider) (id : String) (model : AiModelDescriptor) (c : RouteCandidate)
      : Type 0 where
    pub same_provider : provider ≡ c.entry.provider
    pub same_id : id ≡ c.entry.provider.id
    pub same_model : model ≡ c.model
    pub listed : IsListed request entries c
    pub permitted : IsPermitted request c.entry c.model
    pub least :
        All
          (AtMost (compare_routes locale_compare request.router_mode) c)
          (permitted_pairs request entries)

  AtMost-self :
      (f : RouteCandidate → RouteCandidate → Ordering)
      → IsOrder f
      → (a : RouteCandidate) → AtMost f a a
  AtMost-self f o a = ground (arith, o.flip a a)

  head_of_sorted :
      (request : AiRequest) (entries : List ProviderCatalogEntry) (sorted : List RouteCandidate)
      (checked : List String) (provider : AiProvider) (id : String) (model : AiModelDescriptor)
      → IsOrder (compare_routes locale_compare request.router_mode)
      → sort_by
          (compare_routes locale_compare request.router_mode)
          (permitted_pairs request entries)
        ≡ sorted
      → IsSorted (compare_routes locale_compare request.router_mode) sorted
      → All (λ c. IsPermitted request c.entry c.model × IsListed request entries c) sorted
      → decide locale_compare checked sorted ≡ route provider id model
      → (c : RouteCandidate) × IsChoice request entries provider id model c
  head_of_sorted request entries [] checked provider id model o e s p h = absurd (cc h)
  head_of_sorted request entries (c ∷ cs) checked provider id model o e s p h =
      let cmp = compare_routes locale_compare request.router_mode in
      (
        c,
        record {
          same_provider = cc h;
          same_id = cc h;
          same_model = cc h;
          listed = p.0.1;
          permitted = p.0.0;
          least =
              All-of_sort_by cmp (AtMost cmp c) (permitted_pairs request entries)
                (subst (λ l. All (AtMost cmp c) l) (sym e) (AtMost-self cmp o c, s.0));
        },
      )

  -- When the collation is an order, a decision to route names an entry of the catalog and a model that
  -- the entry offers, which the policy permits: the entry is enabled and available, in the role, not
  -- excluded, and paid only where the request allows that. No permitted pair of the catalog comes
  -- before it in the order of the request's mode.
  pub route_ai_request-IsChoice :
      (request : AiRequest) (entries : List ProviderCatalogEntry) (provider : AiProvider)
      (id : String) (model : AiModelDescriptor)
      → IsOrder locale_compare
      → route_ai_request locale_compare request entries ≡ route provider id model
      → (c : RouteCandidate) × IsChoice request entries provider id model c
  route_ai_request-IsChoice request entries provider id model o h =
      let cmp = compare_routes locale_compare request.router_mode in
      let order = compare_routes-IsOrder locale_compare o request.router_mode in
      head_of_sorted request entries (sort_by cmp (permitted_pairs request entries))
        (considered_ids request entries) provider id model order refl
        (sort_by-IsSorted cmp order (permitted_pairs request entries))
        (All-sort_by cmp (λ c. IsPermitted request c.entry c.model × IsListed request entries c)
          (permitted_pairs request entries)
          (All-zip (λ c. IsPermitted request c.entry c.model) (IsListed request entries)
            (permitted_pairs request entries) (permitted_pairs-IsPermitted request entries)
            (permitted_pairs-IsListed request entries)))
        (sym (route_ai_request-eq request entries) ∙ h)

  decide-defer :
      (checked checked' : List String) (sorted : List RouteCandidate)
      → decide locale_compare checked sorted ≡ defer checked'
      → (length sorted ≡ 0) × (checked ≡ checked')
  decide-defer checked checked' [] h = ground arith
  decide-defer checked checked' (c ∷ cs) h = absurd (cc h)

  nil_of_length : (xs : List RouteCandidate) → length xs ≡ 0 → xs ≡ []
  nil_of_length [] h = refl
  nil_of_length (x ∷ xs) h = absurd (omega arith)

  -- A request is deferred only when the catalog has no permitted pair, and the deferral names the
  -- providers that the policy considered, in the catalog's order.
  pub route_ai_request-defer :
      (request : AiRequest) (entries : List ProviderCatalogEntry) (checked : List String)
      → route_ai_request locale_compare request entries ≡ defer checked
      → (permitted_pairs request entries ≡ []) × (checked ≡ considered_ids request entries)
  route_ai_request-defer request entries checked h =
      let cmp = compare_routes locale_compare request.router_mode in
      let (short, same) =
        decide-defer (considered_ids request entries) checked
          (sort_by cmp (permitted_pairs request entries))
          (sym (route_ai_request-eq request entries) ∙ h) in
      (
        nil_of_length (permitted_pairs request entries)
            (sym (length-sort_by cmp (permitted_pairs request entries)) ∙ short),
        sym same,
      )
