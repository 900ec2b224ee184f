-- ===== src/Budget.antt =====
-- packages/api-budget/src/index.ts: the in-memory budget of paid calls, its cache and its reserve.
-- Numbers of calls and times in milliseconds are integers; `authorize` runs its reservations one
-- after the other on the promise chain, so a burst of calls is a list.
pub mod Limits
pub mod Grants
use amazon_research_agent.Base.{
  String, Bool, true, false, Option, none, some, List, [], ◌∷◌, ◌*◌, if◌then◌else◌, ◌≡◌,
}
use amazon_research_agent.Base.Int.{ℤ, pos, ◌+ℤ◌, ◌-ℤ◌, ltb_ℤ}
use amazon_research_agent.Base.Table
use amazon_research_agent.Base.Table.{Table}
use amazon_research_agent.Shared.Endpoints.{
  JungleScoutEndpoint, product_database, keywords_by_keyword, historical_search_volume,
  sales_estimates, share_of_voice, ApiCallPurpose, is_normal_validation,
}

-- Milliseconds for which a response of the endpoint stays fresh.
unfoldable pub default_cache_ttl_ms : JungleScoutEndpoint → ℤ
default_cache_ttl_ms product_database = pos (24 * 60 * 60 * 1000)
default_cache_ttl_ms keywords_by_keyword = pos (7 * 24 * 60 * 60 * 1000)
default_cache_ttl_ms historical_search_volume = pos (14 * 24 * 60 * 60 * 1000)
default_cache_ttl_ms sales_estimates = pos (24 * 60 * 60 * 1000)
default_cache_ttl_ms share_of_voice = pos (24 * 60 * 60 * 1000)

pub data ApiAuthorizationDecision : Type 0 where
  cache_hit : String → ApiAuthorizationDecision
  allowed : String → ℤ → ApiAuthorizationDecision
  deferred_budget : String → ApiAuthorizationDecision
  in_flight : String → ApiAuthorizationDecision
  blocked_policy : String → String → ApiAuthorizationDecision

pub record AuthorizeApiCallInput : Type 0 where
  pub purpose : ApiCallPurpose
  pub estimated_calls : ℤ
  pub cache_key : String
  pub endpoint : JungleScoutEndpoint
  pub now : Option ℤ

pub record MemoryApiBudget : Type 0 where
  pub daily_limit : ℤ
  pub used : ℤ
  pub reserved_limit : ℤ
  pub cache : Table ℤ

unfoldable pub new : ℤ → ℤ → ℤ → MemoryApiBudget
new daily used reserve = record {
  daily_limit = daily;
  used = used;
  reserved_limit = reserve;
  cache = [];
}

unfoldable pub seed_cache : String → ℤ → ℤ → MemoryApiBudget → MemoryApiBudget
seed_cache key captured_at ttl_ms b = record b {
  cache = Table.set b.cache key (captured_at +ℤ ttl_ms);
}

abbrev expires_after : Option ℤ → ℤ → Bool
expires_after none now = false
expires_after (some expires_at) now = ltb_ℤ now expires_at

unfoldable pub has_fresh_cache : MemoryApiBudget → String → ℤ → Bool
has_fresh_cache b key now = expires_after (Table.get b.cache key) now

-- Ordinary validation leaves the reserve to the other purposes.
unfoldable pub ceiling : MemoryApiBudget → ApiCallPurpose → ℤ
ceiling b purpose =
    if is_normal_validation purpose then b.daily_limit -ℤ b.reserved_limit else b.daily_limit

unfoldable pub reserve :
    AuthorizeApiCallInput → ℤ → MemoryApiBudget → MemoryApiBudget × ApiAuthorizationDecision
reserve input now b =
    let spent = b.used +ℤ input.estimated_calls in
    if has_fresh_cache b input.cache_key now
    then (b, cache_hit input.cache_key)
    else if ltb_ℤ input.estimated_calls (pos 1)
    then (b, blocked_policy input.cache_key "estimatedCalls must be at least 1")
    else if ltb_ℤ (ceiling b input.purpose) spent
    then (b, deferred_budget input.cache_key)
    else (record b { used = spent }, allowed input.cache_key (b.daily_limit -ℤ spent))

abbrev time_of : Option ℤ → ℤ → ℤ
time_of none clock = clock
time_of (some t) clock = t

-- `clock` is what `new Date()` reads when the call names no time.
unfoldable pub authorize :
    ℤ → AuthorizeApiCallInput → MemoryApiBudget → MemoryApiBudget × ApiAuthorizationDecision
authorize clock input b = reserve input (time_of input.now clock) b

-- Calls of `authorize` in the order in which the chain runs them, each with its clock.
unfoldable pub authorize_all :
    List (ℤ × AuthorizeApiCallInput)
    → MemoryApiBudget
    → MemoryApiBudget × List ApiAuthorizationDecision
authorize_all [] b = (b, [])
authorize_all ((clock, input) ∷ rest) b =
    let (b', decision) = authorize clock input b in
    let (b'', decisions) = authorize_all rest b' in (b'', decision ∷ decisions)
