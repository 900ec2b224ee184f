-- ===== src/Tests/Plans.antt =====
-- Runs of packages/research-engine/src/planner.ts.
use Prim.Native.Nat.{compare, Ordering}
use amazon_research_agent.Base.{
  ℕ, ◌%◌, ◌≡◌, ◌⊎◌, refl, List, [], ◌∷◌, String, arith, true, false, All, map, includes,
}
use amazon_research_agent.Base.Int.{pos, negsuc, ◌≤ℤ◌, ◌+ℤ◌}
use amazon_research_agent.Base.Order.{sort_by}
use amazon_research_agent.Base.Result.{ok, err}
use amazon_research_agent.Planner.{
  DailyResearchCandidate, DailyResearchAllocation, DailyResearchPlanInput, ResearchPlan,
  ResearchPlanBucket, new, watch, negative_slots, allocation_not_100, plan_daily_research,
  calculate_quotas, quotas_of, plan_of, select, fill_buckets, take_quotas, push_all, fill, eligible,
  compare_candidates, compare_entries, quota_entry, sum_quotas, distribute, read_quotas,
}
use amazon_research_agent.Planner.Slots.{plan-slots}
use amazon_research_agent.Planner.Plans.{item_id, plan-covers}

-- Exact remainders, and a collation that makes no difference between texts.
abbrev exact_remainders : ℕ → ℕ → Ordering
exact_remainders a b = compare (b % 100) (a % 100)

abbrev no_collation : String → String → Ordering
no_collation a b = Ordering.eq

abbrev split : DailyResearchAllocation
split = record { for_new = 60; for_watch = 30; for_strong = 10 }

quotas_run :
    quotas_of exact_remainders 7 split ≡ record { for_new = 4; for_watch = 2; for_strong = 1 }
unfolding quotas_of quota_entry sum_quotas distribute read_quotas compare_entries sort_by
quotas_run = refl

abbrev stale : String → ResearchPlanBucket → ℕ → DailyResearchCandidate ℕ
stale id b v = record { id = id; bucket = b; information_value = v; is_fresh = false }

abbrev pool : List (DailyResearchCandidate ℕ)
pool =
    stale "a" new 5
    ∷ stale "b" watch 9
    ∷ record (stale "c" new 8) { is_fresh = true }
    ∷ stale "d" new 7
    ∷ []

abbrev three_slots : DailyResearchPlanInput
three_slots = record { slots = pos 4; allocation = split }

abbrev made_plan : ResearchPlan
made_plan = record {
  items =
      record { id = "d"; bucket = new }
      ∷ record { id = "a"; bucket = new }
      ∷ record { id = "b"; bucket = watch }
      ∷ [];
  unfilled_slots = pos 1;
}

plan_run : plan_daily_research compare no_collation exact_remainders pool three_slots ≡ ok made_plan
unfolding plan_daily_research calculate_quotas quotas_of plan_of select fill_buckets take_quotas
    push_all fill eligible compare_candidates compare_entries quota_entry sum_quotas distribute
    read_quotas sort_by includes
plan_run = refl

plan_errors :
    (plan_daily_research compare no_collation exact_remainders pool
        (record three_slots { slots = negsuc 0 })
      ≡ err negative_slots)
    × (plan_daily_research compare no_collation exact_remainders pool
          (record three_slots { allocation = record split { for_new = 61 } })
        ≡ err allocation_not_100)
unfolding plan_daily_research calculate_quotas
plan_errors = (refl, refl)

plan-slots_example : (pos 3 +ℤ pos 1 ≡ pos 4) × (pos 0 ≤ℤ pos 1)
plan-slots_example =
    plan-slots compare no_collation pool exact_remainders three_slots made_plan plan_run

plan-covers_example :
    All (λ c. (c.is_fresh ≡ true) ⊎ (includes (map item_id made_plan.items) c.id ≡ true)) pool
plan-covers_example =
    plan-covers compare no_collation pool exact_remainders three_slots made_plan plan_run
      (omega arith)
