-- ===== src/Planner/Quotas.antt =====
-- The quotas of the buckets: largest remainders.
use Prim.Native.Nat.{Ordering}
use amazon_research_agent.Base.{ℕ, zero, suc, ◌+◌, ◌*◌, ◌/◌, ◌-◌, ◌≤◌, [], ◌∷◌, ◌≡◌, arith, ap}
use amazon_research_agent.Base.Order.{sort_by}
use amazon_research_agent.Planner.{
  DailyResearchAllocation, QuotaEntry, quotas_of, quota_entry, sum_quotas, distribute, read_quotas,
  compare_entries, total_percent, no_quotas, ResearchPlanBucket, new, watch, strong,
}

abbrev entry : ResearchPlanBucket → ℕ → ℕ → QuotaEntry
entry b q k = record { bucket = b; quota = q; scaled = k }

module _ (compare_remainders : ℕ → ℕ → Ordering) where
  -- Whatever the order of the remainders, at most two slots go out one by one.
  spread :
      (p q r i j k remaining : ℕ)
      → remaining ≤ 2
      → let a =
          read_quotas
            (distribute remaining (
              sort_by
                (compare_entries compare_remainders)
                (entry new p i ∷ entry watch q j ∷ entry strong r k ∷ [])))
            no_quotas in
        (a.for_new + a.for_watch + a.for_strong ≡ p + q + r + remaining)
        × (p ≤ a.for_new)
        × (a.for_new ≤ p + 1)
        × (q ≤ a.for_watch)
        × (a.for_watch ≤ q + 1)
        × (r ≤ a.for_strong)
        × (a.for_strong ≤ r + 1)
  unfolding compare_entries read_quotas distribute sort_by
  spread p q r i j k zero h = ground arith
  spread p q r i j k (suc zero) h = ground arith
  spread p q r i j k (suc (suc zero)) h = ground arith
  spread p q r i j k (suc (suc (suc n))) h = absurd (omega arith)

  -- The quotas of an allocation that totals 100 add up to the slots, and each bucket gets its exact
  -- share rounded down or one slot more, in whichever order the remainders stand.
  pub quotas_of-total :
      (slots : ℕ) (allocation : DailyResearchAllocation)
      → total_percent allocation ≡ 100
      → let q = quotas_of compare_remainders slots allocation in
        (total_percent q ≡ slots)
        × (slots * allocation.for_new / 100 ≤ q.for_new)
        × (q.for_new ≤ slots * allocation.for_new / 100 + 1)
        × (slots * allocation.for_watch / 100 ≤ q.for_watch)
        × (q.for_watch ≤ slots * allocation.for_watch / 100 + 1)
        × (slots * allocation.for_strong / 100 ≤ q.for_strong)
        × (q.for_strong ≤ slots * allocation.for_strong / 100 + 1)
  unfolding quotas_of quota_entry sum_quotas
  quotas_of-total slots allocation h =
      let p = slots * allocation.for_new in
      let q = slots * allocation.for_watch in
      let r = slots * allocation.for_strong in
      let total : p + q + r ≡ slots * 100 = omega (arith, ap (λ (t : ℕ). slots * t) h) in
      omega (
        arith,
        total,
        spread (p / 100) (q / 100) (r / 100) p q r (slots - (p / 100 + (q / 100 + (r / 100 + 0))))
            (omega (arith, total)),
      )
