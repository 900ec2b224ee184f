-- ===== src/Tests/Budgets.antt =====
-- Runs of packages/api-budget/src/index.ts.
use amazon_research_agent.Base.{◌≡◌, refl, some, List, [], ◌∷◌, arith}
use amazon_research_agent.Base.Int.{ℤ, pos, ◌≤ℤ◌, ◌+ℤ◌, ◌-ℤ◌}
use amazon_research_agent.Base.Table
use amazon_research_agent.Shared.Endpoints.{product_database, normal_validation, manual_research}
use amazon_research_agent.Budget.{
  MemoryApiBudget, AuthorizeApiCallInput, allowed, deferred_budget, reserve, authorize,
  authorize_all, ceiling, has_fresh_cache,
}
use amazon_research_agent.Budget.Limits.{IsWithinLimits, authorize_all-IsWithinLimits}
use amazon_research_agent.Budget.Grants.{reserve-keeps_reserve}

abbrev fresh_budget : MemoryApiBudget
fresh_budget = record { daily_limit = pos 3; used = pos 0; reserved_limit = pos 1; cache = [] }

abbrev ordinary : AuthorizeApiCallInput
ordinary = record {
  purpose = normal_validation;
  estimated_calls = pos 2;
  cache_key = "k";
  endpoint = product_database;
  now = some (pos 10);
}

abbrev manual : AuthorizeApiCallInput
manual = record ordinary { purpose = manual_research; estimated_calls = pos 1 }

abbrev burst : List (ℤ × AuthorizeApiCallInput)
burst = (pos 5, ordinary) ∷ (pos 6, ordinary) ∷ (pos 7, manual) ∷ []

burst_decisions : authorize_all burst fresh_budget ≡ (
  record { daily_limit = pos 3; used = pos 3; reserved_limit = pos 1; cache = [] },
  allowed "k" (pos 1) ∷ deferred_budget "k" ∷ allowed "k" (pos 0) ∷ [],
)
unfolding authorize_all authorize reserve ceiling has_fresh_cache Table.get ◌+ℤ◌ ◌-ℤ◌
burst_decisions = refl

authorize_all-IsWithinLimits_example : IsWithinLimits (authorize_all burst fresh_budget).0
authorize_all-IsWithinLimits_example = authorize_all-IsWithinLimits burst fresh_budget (omega arith)

granted_once : (reserve ordinary (pos 10) fresh_budget).1 ≡ allowed "k" (pos 1)
unfolding reserve ceiling has_fresh_cache Table.get ◌+ℤ◌ ◌-ℤ◌
granted_once = refl

reserve-keeps_reserve_example :
    ((reserve ordinary (pos 10) fresh_budget).0.used ≤ℤ pos 3 -ℤ pos 1)
    × (pos 1 ≡ pos 3 -ℤ (reserve ordinary (pos 10) fresh_budget).0.used)
    × (pos 1 ≤ℤ pos 1)
reserve-keeps_reserve_example =
    reserve-keeps_reserve ordinary (pos 10) fresh_budget "k" (pos 1) refl granted_once

abbrev big : AuthorizeApiCallInput
big = record ordinary { estimated_calls = pos 9 }

big_deferred : reserve big (pos 10) fresh_budget ≡ (fresh_budget, deferred_budget "k")
unfolding reserve ceiling has_fresh_cache Table.get ◌+ℤ◌ ◌-ℤ◌
big_deferred = refl
