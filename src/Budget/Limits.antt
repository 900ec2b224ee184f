-- ===== src/Budget/Limits.antt =====
-- Lemmas on sequences of authorizations of packages/api-budget/src/index.ts.
use amazon_research_agent.Base.{List, [], ◌∷◌, arith}
use amazon_research_agent.Base.Int.{ℤ, pos, ◌≤ℤ◌, +ℤ_parts, -ℤ_parts}
use amazon_research_agent.Budget.{
  MemoryApiBudget, AuthorizeApiCallInput, reserve, authorize, authorize_all, time_of, ceiling,
}

-- The counter is between nothing and the daily limit, and the reserve is part of the limit.
pub record IsWithinLimits (b : MemoryApiBudget) : Type 0 where
  pub used_nonneg : pos 0 ≤ℤ b.used
  pub used_capped : b.used ≤ℤ b.daily_limit
  pub reserve_nonneg : pos 0 ≤ℤ b.reserved_limit

reserve-IsWithinLimits :
    (input : AuthorizeApiCallInput) (now : ℤ) (b : MemoryApiBudget)
    → IsWithinLimits b
    → IsWithinLimits (reserve input now b).0
unfolding reserve ceiling
reserve-IsWithinLimits input now b h =
    ground (arith, +ℤ_parts b.used input.estimated_calls, -ℤ_parts b.daily_limit b.reserved_limit)

-- From a budget within its limits, every sequence of authorizations ends within them.
pub authorize_all-IsWithinLimits :
    (calls : List (ℤ × AuthorizeApiCallInput)) (b : MemoryApiBudget)
    → IsWithinLimits b
    → IsWithinLimits (authorize_all calls b).0
unfolding authorize_all authorize
authorize_all-IsWithinLimits [] b h = h
authorize_all-IsWithinLimits ((clock, input) ∷ rest) b h =
    authorize_all-IsWithinLimits rest (authorize clock input b).0
      (reserve-IsWithinLimits input (time_of input.now clock) b h)
