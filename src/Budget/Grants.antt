-- ===== src/Budget/Grants.antt =====
-- Lemmas on the decisions of packages/api-budget/src/index.ts: the counter, the reserve, the cache.
use amazon_research_agent.Base.{
  List, [], ◌∷◌, ◌≡◌, ◌≢◌, ◌⊎◌, arith, ◌∙◌, ap, String, true, str_eq_refl, if◌then◌else◌,
}
use amazon_research_agent.Base.Int.{
  ℤ, pos, ◌+ℤ◌, ◌-ℤ◌, ◌≤ℤ◌, ltb_ℤ, int_laws, +ℤ_parts, -ℤ_parts, +ℤ_assoc,
}
use amazon_research_agent.Base.Table
use amazon_research_agent.Base.Table.{get-set}
use amazon_research_agent.Shared.Endpoints.{ApiCallPurpose, normal_validation}
use amazon_research_agent.Budget.{
  MemoryApiBudget, AuthorizeApiCallInput, ApiAuthorizationDecision, allowed, cache_hit, reserve,
  authorize, authorize_all, time_of, ceiling, seed_cache, has_fresh_cache,
}

-- The calls that a decision grants.
abbrev pub granted : AuthorizeApiCallInput → ApiAuthorizationDecision → ℤ
granted input (allowed key remaining) = input.estimated_calls
granted input _ = pos 0

abbrev pub total_granted : List (ℤ × AuthorizeApiCallInput) → List ApiAuthorizationDecision → ℤ
total_granted ((clock, input) ∷ calls) (d ∷ ds) = granted input d +ℤ total_granted calls ds
total_granted _ _ = pos 0

reserve-granted :
    (input : AuthorizeApiCallInput) (now : ℤ) (b : MemoryApiBudget)
    → (reserve input now b).0.used ≡ b.used +ℤ granted input (reserve input now b).1
unfolding reserve ◌+ℤ◌
reserve-granted input now b = ground arith

-- The counter grows by the granted calls and by nothing else, over every sequence of
-- authorizations: cache hits, deferrals and blocked calls spend nothing.
pub authorize_all-used :
    (calls : List (ℤ × AuthorizeApiCallInput)) (b : MemoryApiBudget)
    → (authorize_all calls b).0.used ≡ b.used +ℤ total_granted calls (authorize_all calls b).1
unfolding authorize_all authorize
authorize_all-used [] b = omega int_laws
authorize_all-used ((clock, input) ∷ rest) b =
    let now = time_of input.now clock in
    let (b', d) = reserve input now b in
    authorize_all-used rest b'
    ∙ ap (λ u. u +ℤ total_granted rest (authorize_all rest b').1) (reserve-granted input now b)
    ∙ +ℤ_assoc b.used (granted input d) (total_granted rest (authorize_all rest b').1)

-- A call that ordinary validation is granted leaves the whole reserve: the counter after it is at
-- most the daily limit less the reserve, and `remaining` is the daily limit less the counter.
pub reserve-keeps_reserve :
    (input : AuthorizeApiCallInput) (now : ℤ) (b : MemoryApiBudget) (key : String) (remaining : ℤ)
    → input.purpose ≡ normal_validation
    → (reserve input now b).1 ≡ allowed key remaining
    → ((reserve input now b).0.used ≤ℤ b.daily_limit -ℤ b.reserved_limit)
      × (remaining ≡ b.daily_limit -ℤ (reserve input now b).0.used)
      × (b.reserved_limit ≤ℤ remaining)
unfolding reserve ceiling
reserve-keeps_reserve input now b key remaining p h = ground (
  arith,
  +ℤ_parts b.used input.estimated_calls,
  -ℤ_parts b.daily_limit b.reserved_limit,
  -ℤ_parts b.daily_limit (b.used +ℤ input.estimated_calls),
)

-- What ordinary validation is granted, a call of any other purpose with the same estimate is
-- granted too, in the same state and with the same result, when the reserve is not negative.
pub reserve-priority :
    (input : AuthorizeApiCallInput) (other : ApiCallPurpose) (now : ℤ) (b : MemoryApiBudget)
    (key : String) (remaining : ℤ)
    → pos 0 ≤ℤ b.reserved_limit
    → input.purpose ≡ normal_validation
    → (reserve input now b).1 ≡ allowed key remaining
    → reserve (record input { purpose = other }) now b ≡ reserve input now b
unfolding reserve ceiling
reserve-priority input other now b key remaining nonneg p h =
    ground (arith, +ℤ_parts b.used input.estimated_calls, -ℤ_parts b.daily_limit b.reserved_limit)

-- A call that is not granted leaves the budget as it was, and its decision names the call's key;
-- it is a cache hit, or its estimate is below one call, or the sum passes its purpose's ceiling.
pub reserve-refused :
    (input : AuthorizeApiCallInput) (now : ℤ) (b : MemoryApiBudget)
    → ((key : String) (remaining : ℤ) → (reserve input now b).1 ≢ allowed key remaining)
    → ((reserve input now b).0 ≡ b)
      × ((((reserve input now b).1 ≡ cache_hit input.cache_key)
            × (has_fresh_cache b input.cache_key now ≡ true))
          ⊎ ((ltb_ℤ input.estimated_calls (pos 1) ≡ true)
              ⊎ (ltb_ℤ (ceiling b input.purpose) (b.used +ℤ input.estimated_calls) ≡ true)))
unfolding reserve
reserve-refused input now b h =
    ground (arith, h input.cache_key (b.daily_limit -ℤ (b.used +ℤ input.estimated_calls)))

fresh_after_seed :
    (key : String) (captured_at ttl_ms now : ℤ) (b : MemoryApiBudget)
    → has_fresh_cache (seed_cache key captured_at ttl_ms b) key now
      ≡ ltb_ℤ now (captured_at +ℤ ttl_ms)
unfolding has_fresh_cache seed_cache
fresh_after_seed key captured_at ttl_ms now b =
    rw (get-set b.cache key (captured_at +ℤ ttl_ms) key) (rw (str_eq_refl key))

-- After `seedCache`, a call of that key made before its expiry is a cache hit that spends nothing,
-- whatever its purpose and estimate; at the expiry and later it is decided, and spends, as on the
-- budget with no cache at all.
pub reserve-seed_cache :
    (input : AuthorizeApiCallInput) (captured_at ttl_ms now : ℤ) (b : MemoryApiBudget)
    → let after = reserve input now (seed_cache input.cache_key captured_at ttl_ms b) in
      let uncached = reserve input now (record b { cache = [] }) in
      let fresh = ltb_ℤ now (captured_at +ℤ ttl_ms) in
      (after.1 ≡ (if fresh then cache_hit input.cache_key else uncached.1))
      × (after.0.used ≡ (if fresh then b.used else uncached.0.used))
unfolding reserve fresh_after_seed seed_cache ceiling Table.get has_fresh_cache
reserve-seed_cache input captured_at ttl_ms now b =
    ground (arith, fresh_after_seed input.cache_key captured_at ttl_ms now b)
