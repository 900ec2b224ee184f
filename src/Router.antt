-- ===== src/Router.antt =====
-- packages/ai-router/src/router.ts: which provider and model answer a request. The provider's
-- methods, which routing does not call, are left out; the collation `localeCompare` is a parameter.
pub mod Policy
pub mod Order
pub mod Choice
pub mod Sources
use Prim.Native.Nat.{compare, Ordering}
use amazon_research_agent.Base.{
  ℕ, String, Bool, true, false, not, ◌&&◌, ◌||◌, Option, none, some, List, [], ◌∷◌, ◌++◌, all, any,
  includes, is_empty, if◌then◌else◌, str_eq,
}
use amazon_research_agent.Base.Order.{sort_by, or_else}
use amazon_research_agent.Shared.Ai.{
  AiRole, strong_cross_validation, same_role, BillingType, free, subscription, payg, is_payg,
  RouterMode, saver, balanced, highest_quality, ProviderCapability, same_capability, AiRequest,
  AiModelDescriptor,
}

pub record AiProvider : Type 0 where
  pub id : String
  pub billing_type : BillingType

pub record ProviderHealth : Type 0 where
  pub available : Bool
  pub checked_at : String
  pub reason : Option String
  pub retry_after_seconds : Option ℕ

pub record ProviderCatalogEntry : Type 0 where
  pub provider : AiProvider
  pub enabled : Bool
  pub priority : ℕ
  pub roles : Option (List AiRole)
  pub role_priority : Option (AiRole → Option ℕ)
  pub paid_primary : Option Bool
  pub health : ProviderHealth
  pub models : List AiModelDescriptor

pub data RouteDecision : Type 0 where
  route : AiProvider → String → AiModelDescriptor → RouteDecision
  defer : List String → RouteDecision

pub record RouteCandidate : Type 0 where
  pub entry : ProviderCatalogEntry
  pub model : AiModelDescriptor
  pub role_priority : ℕ
  pub billing_rank : ℕ

unfoldable pub billing_rank : BillingType → ℕ
billing_rank free = 0
billing_rank subscription = 1
billing_rank payg = 2

unfoldable pub supports_capabilities : AiModelDescriptor → List ProviderCapability → Bool
supports_capabilities model required =
    all (λ capability. any (λ c. same_capability c capability) model.capabilities) required

unfoldable pub compare_candidates : RouterMode → RouteCandidate → RouteCandidate → Ordering
compare_candidates saver left right = or_else (compare left.billing_rank right.billing_rank) (
    or_else (compare left.role_priority right.role_priority)
      (compare left.model.quality_rank right.model.quality_rank))
compare_candidates highest_quality left right =
    or_else (compare left.model.quality_rank right.model.quality_rank) (
      or_else (compare left.role_priority right.role_priority)
        (compare left.billing_rank right.billing_rank))
compare_candidates balanced left right = or_else (compare left.role_priority right.role_priority) (
    or_else (compare left.billing_rank right.billing_rank)
      (compare left.model.quality_rank right.model.quality_rank))

-- An absent id and the empty text are both falsy.
abbrev truthy : Option String → List String
truthy none = []
truthy (some id) = if str_eq id "" then [] else id ∷ []

-- The ids that may not be routed to: for a cross validation, also the provider to be validated.
unfoldable pub excluded_provider_ids : AiRequest → List String
excluded_provider_ids request =
    request.exclude_provider_ids
    ++ (if same_role request.role strong_cross_validation
        then truthy request.primary_provider_id
        else [])

unfoldable pub permits_payg : AiRequest → String → Bool
permits_payg request provider_id =
    request.allow_paid_fallback || includes request.paid_primary_provider_ids provider_id

abbrev pub has_role : AiRole → Option (List AiRole) → Bool
has_role role none = false
has_role role (some roles) = any (λ r. same_role r role) roles

abbrev from_or : Option ℕ → ℕ → ℕ
from_or none d = d
from_or (some n) d = n

abbrev pub role_priority_of : AiRole → Option (AiRole → Option ℕ) → ℕ → ℕ
role_priority_of role none priority = priority
role_priority_of role (some table) priority = from_or (table role) priority

unfoldable pub candidate : AiRequest → ProviderCatalogEntry → AiModelDescriptor → RouteCandidate
unfolding billing_rank
candidate request entry model = record {
  entry = entry;
  model = model;
  role_priority = role_priority_of request.role entry.role_priority entry.priority;
  billing_rank = billing_rank model.billing_type;
}

-- The inner loop, whose `continue`s leave a model out.
unfoldable pub model_candidates :
    AiRequest → ProviderCatalogEntry → List AiModelDescriptor → List RouteCandidate
model_candidates request entry [] = []
model_candidates request entry (model ∷ models) =
    let rest = model_candidates request entry models in
    if not (supports_capabilities model request.required_capabilities)
    then rest
    else if is_payg model.billing_type && not (permits_payg request entry.provider.id)
    then rest
    else candidate request entry model ∷ rest

pub record Collected : Type 0 where
  pub candidates : List RouteCandidate
  pub checked_provider_ids : List String

-- One round of the outer loop.
unfoldable pub visit : AiRequest → ProviderCatalogEntry → Collected → Collected
visit request entry c =
    let id = entry.provider.id in
    if includes (excluded_provider_ids request) id
    then c
    else if not (is_empty request.paid_primary_provider_ids)
        && not (includes request.paid_primary_provider_ids id)
    then c
    else if not (has_role request.role entry.roles)
    then c
    else let checked = record c { checked_provider_ids = c.checked_provider_ids ++ id ∷ [] } in
      if not entry.enabled || not entry.health.available
      then checked
      else if is_payg entry.provider.billing_type && not (permits_payg request id)
      then checked
      else record checked {
        candidates = c.candidates ++ model_candidates request entry entry.models;
      }

unfoldable pub collect : AiRequest → List ProviderCatalogEntry → Collected → Collected
collect request [] c = c
collect request (entry ∷ entries) c = collect request entries (visit request entry c)

abbrev pub provider_id_of : RouteCandidate → String
provider_id_of c = c.entry.provider.id

abbrev pub model_id_of : RouteCandidate → String
model_id_of c = c.model.id

module _ (locale_compare : String → String → Ordering) where
  unfoldable pub compare_routes : RouterMode → RouteCandidate → RouteCandidate → Ordering
  compare_routes mode left right = or_else (compare_candidates mode left right) (
      or_else (locale_compare (provider_id_of left) (provider_id_of right))
        (locale_compare (model_id_of left) (model_id_of right)))

  abbrev pub decide : List String → List RouteCandidate → RouteDecision
  decide checked [] = defer checked
  decide checked (c ∷ cs) = route c.entry.provider c.entry.provider.id c.model

  unfoldable pub route_ai_request : AiRequest → List ProviderCatalogEntry → RouteDecision
  route_ai_request request entries =
      let collected =
        collect request entries (record { candidates = []; checked_provider_ids = [] }) in
      decide collected.checked_provider_ids
        (sort_by (compare_routes request.router_mode) collected.candidates)
