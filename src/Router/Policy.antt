-- ===== src/Router/Policy.antt =====
-- The policy of packages/ai-router/src/router.ts, and lemmas on the loops that collect candidates.
use mathlib.Core.List.{append_assoc, append-nil}
use amazon_research_agent.Base.{
  String, Bool, true, false, not, ◌&&◌, ◌||◌, List, [], ◌∷◌, ◌++◌, ◌≡◌, refl, sym, ap, ◌∙◌, arith,
  filter, map, includes, is_empty, if◌then◌else◌,
}
use amazon_research_agent.Shared.Ai.{AiRequest, AiModelDescriptor, is_payg}
use amazon_research_agent.Router.{
  ProviderCatalogEntry, RouteCandidate, Collected, candidate, model_candidates, visit, collect,
  excluded_provider_ids, permits_payg, has_role, supports_capabilities,
}

-- The policy on an entry, without its availability: the ids that a deferral names.
unfoldable pub is_considered : AiRequest → ProviderCatalogEntry → Bool
is_considered request entry =
    not (includes (excluded_provider_ids request) entry.provider.id)
    && (is_empty request.paid_primary_provider_ids
        || includes request.paid_primary_provider_ids entry.provider.id)
    && has_role request.role entry.roles

-- The policy on an entry and one of its models.
unfoldable pub is_permitted : AiRequest → ProviderCatalogEntry → AiModelDescriptor → Bool
unfolding is_considered
is_permitted request entry model =
    is_considered request entry
    && entry.enabled
    && entry.health.available
    && (not (is_payg entry.provider.billing_type) || permits_payg request entry.provider.id)
    && (not (is_payg model.billing_type) || permits_payg request entry.provider.id)
    && supports_capabilities model request.required_capabilities

unfoldable pub permitted_pairs : AiRequest → List ProviderCatalogEntry → List RouteCandidate
permitted_pairs request [] = []
permitted_pairs request (entry ∷ entries) =
    map (candidate request entry) (filter (is_permitted request entry) entry.models)
    ++ permitted_pairs request entries

unfoldable pub considered_ids : AiRequest → List ProviderCatalogEntry → List String
considered_ids request [] = []
considered_ids request (entry ∷ entries) =
    let rest = considered_ids request entries in
    if is_considered request entry then entry.provider.id ∷ rest else rest

-- On an entry that is open, the inner loop is the filter by the policy.
model_candidates-eq_filter :
    (request : AiRequest) (entry : ProviderCatalogEntry) (models : List AiModelDescriptor)
    → is_considered request entry ≡ true
    → entry.enabled ≡ true
    → entry.health.available ≡ true
    → (not (is_payg entry.provider.billing_type) || permits_payg request entry.provider.id) ≡ true
    → model_candidates request entry models
      ≡ map (candidate request entry) (filter (is_permitted request entry) models)
unfolding model_candidates is_permitted
model_candidates-eq_filter request entry [] a b c d = refl
model_candidates-eq_filter request entry (model ∷ models) a b c d =
    ground (arith, model_candidates-eq_filter request entry models a b c d)

-- Of an entry that is shut, no model passes.
filter_of_shut :
    (request : AiRequest) (entry : ProviderCatalogEntry) (models : List AiModelDescriptor)
    → (is_considered request entry
        && entry.enabled
        && entry.health.available
        && (not (is_payg entry.provider.billing_type) || permits_payg request entry.provider.id))
      ≡ false
    → filter (is_permitted request entry) models ≡ []
unfolding is_permitted
filter_of_shut request entry [] h = refl
filter_of_shut request entry (model ∷ models) h =
    ground (arith, filter_of_shut request entry models h)

visit-candidates :
    (request : AiRequest) (entry : ProviderCatalogEntry) (c : Collected)
    → (visit request entry c).candidates
      ≡ c.candidates
        ++ map (candidate request entry) (filter (is_permitted request entry) entry.models)
unfolding visit is_considered
visit-candidates request entry c = ground (
  arith,
  filter_of_shut request entry entry.models,
  model_candidates-eq_filter request entry entry.models,
  append-nil c.candidates,
)

visit-checked :
    (request : AiRequest) (entry : ProviderCatalogEntry) (c : Collected)
    → (visit request entry c).checked_provider_ids
      ≡ c.checked_provider_ids
        ++ (if is_considered request entry then entry.provider.id ∷ [] else [])
unfolding visit is_considered
visit-checked request entry c = ground (arith, append-nil c.checked_provider_ids)

-- The loops of the router, with their `continue`s, collect the permitted pairs of the catalog in
-- its order.
pub collect-candidates :
    (request : AiRequest) (entries : List ProviderCatalogEntry) (c : Collected)
    → (collect request entries c).candidates ≡ c.candidates ++ permitted_pairs request entries
unfolding collect permitted_pairs
collect-candidates request [] c = sym (append-nil c.candidates)
collect-candidates request (entry ∷ entries) c =
    let pairs = map (candidate request entry) (filter (is_permitted request entry) entry.models) in
    collect-candidates request entries (visit request entry c)
    ∙ ap (λ l. l ++ permitted_pairs request entries) (visit-candidates request entry c)
    ∙ append_assoc c.candidates pairs (permitted_pairs request entries)

considered_ids-cons :
    (request : AiRequest) (entry : ProviderCatalogEntry) (entries : List ProviderCatalogEntry)
    → (if is_considered request entry then entry.provider.id ∷ [] else [])
        ++ considered_ids request entries
      ≡ considered_ids request (entry ∷ entries)
unfolding considered_ids
considered_ids-cons request entry entries = ground arith

pub collect-checked :
    (request : AiRequest) (entries : List ProviderCatalogEntry) (c : Collected)
    → (collect request entries c).checked_provider_ids
      ≡ c.checked_provider_ids ++ considered_ids request entries
unfolding collect
collect-checked request [] c = unfold considered_ids in sym (append-nil c.checked_provider_ids)
collect-checked request (entry ∷ entries) c =
    let ids = if is_considered request entry then entry.provider.id ∷ [] else [] in
    collect-checked request entries (visit request entry c)
    ∙ ap (λ l. l ++ considered_ids request entries) (visit-checked request entry c)
    ∙ append_assoc c.checked_provider_ids ids (considered_ids request entries)
    ∙ ap (λ l. c.checked_provider_ids ++ l) (considered_ids-cons request entry entries)

-- What the policy says of a pair, field by field.
pub record IsPermitted (request : AiRequest) (entry : ProviderCatalogEntry)
    (model : AiModelDescriptor) : Type 0 where
  pub not_excluded : includes (excluded_provider_ids request) entry.provider.id ≡ false
  pub paid_primary :
      (is_empty request.paid_primary_provider_ids
        || includes request.paid_primary_provider_ids entry.provider.id)
      ≡ true
  pub in_role : has_role request.role entry.roles ≡ true
  pub is_enabled : entry.enabled ≡ true
  pub is_available : entry.health.available ≡ true
  pub pays :
      (is_payg entry.provider.billing_type || is_payg model.billing_type)
        && not (permits_payg request entry.provider.id)
      ≡ false
  pub capable : supports_capabilities model request.required_capabilities ≡ true

pub IsPermitted-of_true :
    (request : AiRequest) (entry : ProviderCatalogEntry) (model : AiModelDescriptor)
    → is_permitted request entry model ≡ true
    → IsPermitted request entry model
unfolding is_permitted
IsPermitted-of_true request entry model h = ground arith
