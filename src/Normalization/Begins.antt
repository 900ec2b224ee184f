-- ===== src/Normalization/Begins.antt =====
-- Lemmas on the attempts that apps/worker/src/providers/normalization-execution-coordinator.ts
-- begins: what the decision of the router says of them.
use Prim.Native.Nat.{Ordering}
use amazon_research_agent.Base.{
  String, Bool, true, false, not, ◌&&◌, ◌||◌, Option, none, some, List, [], ◌∷◌, ◌≡◌, refl, arith,
  map, filter, All, includes, includes-append, is_empty, str_eq, str_eq_refl, inl, inr, Bool-cases,
}
use amazon_research_agent.Shared.Ai.{AiModelDescriptor, is_payg}
use amazon_research_agent.Router.{
  AiProvider, ProviderCatalogEntry, RouteCandidate, route, route_ai_request, excluded_provider_ids,
  permits_payg,
}
use amazon_research_agent.Router.Sources.{IsSource, route_ai_request-IsSource}
use amazon_research_agent.Normalization.Dependencies.{NormalizationExecutionTarget}
use amazon_research_agent.Normalization.Coordinator.{
  is_none, routing_request, is_paid_primary, paid_primary_ids, begin_attempt,
}
use amazon_research_agent.Normalization.Lifecycle.{may_begin, is_payg_only, same_option}

-- The ids of a catalog that the parser of requests does not change.
abbrev pub IsTrimmed : (String → String) → List ProviderCatalogEntry → Type 0
IsTrimmed trim entries = All (λ e. trim e.provider.id ≡ e.provider.id) entries

module _ (trim : String → String) (locale_compare : String → String → Ordering) where
  trimmed_ids :
      (p : ProviderCatalogEntry → Bool) (entries : List ProviderCatalogEntry)
      → IsTrimmed trim entries
      → map trim (map (λ e. e.provider.id) (filter p entries))
        ≡ map (λ e. e.provider.id) (filter p entries)
  trimmed_ids p [] h = refl
  trimmed_ids p (e ∷ es) h = elim (Bool-cases (p e)) [
    | inl t ↦ rw (t, h.0, trimmed_ids p es h.1)
    | inr t ↦ rw (t, trimmed_ids p es h.1)
  ]

  paid_ids-trimmed :
      (first : Bool) (entries : List ProviderCatalogEntry)
      → IsTrimmed trim entries
      → map trim (paid_primary_ids first entries) ≡ paid_primary_ids first entries
  unfolding paid_primary_ids
  paid_ids-trimmed false entries h = refl
  paid_ids-trimmed true entries h = trimmed_ids is_paid_primary entries h

  same_option_refl : (o : Option String) → same_option o o ≡ true
  same_option_refl none = refl
  same_option_refl (some a) = str_eq_refl a

  pub not_excluded :
      (paid excluded : List String) (entries : List ProviderCatalogEntry) (id : String)
      (model : AiModelDescriptor) (c : RouteCandidate)
      → IsSource (routing_request trim paid excluded) entries id model c
      → includes (map trim excluded) id ≡ false
  unfolding routing_request excluded_provider_ids includes
  not_excluded paid excluded entries id model c h = ground (
    arith,
    h.permitted.not_excluded,
    h.same_id,
    includes-append (map trim excluded) [] c.entry.provider.id,
  )

  paid_or_not :
      (first : Bool) (excluded : List String) (entries : List ProviderCatalogEntry) (id : String)
      (model : AiModelDescriptor) (c : RouteCandidate)
      → IsTrimmed trim entries
      → IsSource (routing_request trim (paid_primary_ids first entries) excluded) entries id model c
      → (includes (paid_primary_ids first entries) id || not (is_payg_only entries id)) ≡ true
  unfolding routing_request permits_payg is_payg_only
  paid_or_not first excluded entries id model c t h = ground (
    arith,
    h.permitted.pays,
    h.same_id,
    paid_ids-trimmed first entries t,
    h.among (λ e. str_eq e.provider.id id && not (is_payg e.provider.billing_type)),
    str_eq_refl id,
  )

  first_or_free :
      (first : Bool) (entries : List ProviderCatalogEntry) (id : String)
      → (first || not (includes (paid_primary_ids first entries) id)) ≡ true
  unfolding paid_primary_ids includes
  first_or_free first entries id = ground arith

  -- An attempt at the target of a decision may be begun.
  pub decision-may_begin :
      (entries : List ProviderCatalogEntry) (first : Bool) (excluded : List String)
      (parent : Option String) (provider : AiProvider) (id : String) (model : AiModelDescriptor)
      (target : NormalizationExecutionTarget)
      → IsTrimmed trim entries
      → (is_empty excluded || not (is_none parent)) ≡ true
      → route_ai_request locale_compare
          (routing_request trim (paid_primary_ids first entries) excluded)
          entries
        ≡ route provider id model
      → target.provider_id ≡ id
      → may_begin trim entries excluded parent first
          (begin_attempt target parent (includes (paid_primary_ids first entries) id))
        ≡ true
  unfolding may_begin
  decision-may_begin entries first excluded parent provider id model target t i h same =
      let request = routing_request trim (paid_primary_ids first entries) excluded in
      let (c, source) =
        route_ai_request-IsSource locale_compare request entries provider id model h in
      ground (
        arith,
        not_excluded (paid_primary_ids first entries) excluded entries id model c source,
        paid_or_not first excluded entries id model c t source,
        first_or_free first entries id,
        same_option_refl parent,
      )
