-- ===== src/Shared/Numbers.antt =====
-- JavaScript's floating-point numbers, as an interface: the operations that the program calls.
-- Comparisons with NaN are false, so `lt` and `le` are separate tests.
use amazon_research_agent.Base.{ℕ, Bool}

pub record Numbers : Type 1 where
  pub Number : Type 0
  pub of : ℕ → Number
  pub add : Number → Number → Number
  pub sub : Number → Number → Number
  pub mul : Number → Number → Number
  pub div : Number → Number → Number
  pub lt : Number → Number → Bool
  pub le : Number → Number → Bool
  pub eq : Number → Number → Bool
  pub is_finite : Number → Bool
  pub abs : Number → Number
