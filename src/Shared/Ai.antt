-- ===== src/Shared/Ai.antt =====
-- packages/shared/src/ai.ts: roles, billing, capabilities, requests and models.
use amazon_research_agent.Base.{ℕ, String, Bool, true, false, List, Option, ◌==◌}

pub data AiRole : Type 0 where
  bulk_classification niche_normalization deep_market_analysis strong_cross_validation : AiRole
  review_mining supplier_negotiation daily_digest : AiRole

abbrev pub role_index : AiRole → ℕ
role_index bulk_classification = 0
role_index niche_normalization = 1
role_index deep_market_analysis = 2
role_index strong_cross_validation = 3
role_index review_mining = 4
role_index supplier_negotiation = 5
role_index daily_digest = 6

abbrev pub same_role : AiRole → AiRole → Bool
same_role a b = role_index a == role_index b

pub data BillingType : Type 0 where
  free subscription payg : BillingType

abbrev pub is_payg : BillingType → Bool
is_payg payg = true
is_payg _ = false

pub data RouterMode : Type 0 where
  saver balanced highest_quality : RouterMode

pub data ProviderCapability : Type 0 where
  structured_json chat_completions responses model_discovery health : ProviderCapability

abbrev pub capability_index : ProviderCapability → ℕ
capability_index structured_json = 0
capability_index chat_completions = 1
capability_index responses = 2
capability_index model_discovery = 3
capability_index health = 4

abbrev pub same_capability : ProviderCapability → ProviderCapability → Bool
same_capability a b = capability_index a == capability_index b

-- The fields of a request that routing reads.
pub record AiRequest : Type 0 where
  pub role : AiRole
  pub router_mode : RouterMode
  pub allow_paid_fallback : Bool
  pub paid_primary_provider_ids : List String
  pub required_capabilities : List ProviderCapability
  pub primary_provider_id : Option String
  pub exclude_provider_ids : List String

pub record AiModelDescriptor : Type 0 where
  pub provider_id : String
  pub id : String
  pub display_name : String
  pub capabilities : List ProviderCapability
  pub billing_type : BillingType
  pub quality_rank : ℕ
