-- ===== src/Planner/Plans.antt =====
-- Theorems on the plans of packages/research-engine/src/planner.ts.
use Prim.Native.Nat.{Ordering}
use amazon_research_agent.Base.{
  ℕ, ◌≤◌, ◌<◌, List, [], ◌∷◌, ◌≡◌, arith, refl, ap, sym, ◌∙◌, subst, length, filter, filter-map,
  length-map, map, min, String, true, All, All-of_map, any, includes, ◌⊎◌,
}
use amazon_research_agent.Base.Int.{pos, sub_ℕ, ◌≤ℤ◌}
use amazon_research_agent.Base.Result.{ok}
use amazon_research_agent.Planner.{
  DailyResearchCandidate, DailyResearchPlanInput, ResearchPlan, ResearchPlanItem,
  ResearchPlanBucket, plan_daily_research, plan_of, select, quotas_of, item_of, id_of, is_eligible,
  share, same_bucket,
}
use amazon_research_agent.Planner.Slots.{plan-inversion}
use amazon_research_agent.Planner.Stale.{is_source, select-IsStale}
use amazon_research_agent.Planner.Coverage.{select-covers}
use amazon_research_agent.Planner.Shares.{select-share, select-AreIds, count_in}

abbrev pub item_id : ResearchPlanItem → String
item_id i = i.id

ids-map_item :
    {V : Type 0} (cs : List (DailyResearchCandidate V))
    → map item_id (map item_of cs) ≡ map id_of cs
ids-map_item [] = refl
ids-map_item (c ∷ cs) = ap (λ l. c.id ∷ l) (ids-map_item cs)

module _ {V : Type 0} (compare_values : V → V → Ordering)
    (locale_compare : String → String → Ordering) (candidates : List (DailyResearchCandidate V))
    (compare_remainders : ℕ → ℕ → Ordering) (input : DailyResearchPlanInput) (plan : ResearchPlan)
    (made : plan_daily_research compare_values locale_compare compare_remainders candidates input
      ≡ ok plan) where
  -- Every item of a plan that is made has the id and the bucket of a candidate of the input that is
  -- not fresh.
  pub plan-IsStale : All (λ i. any (is_source i) candidates ≡ true) plan.items
  unfolding plan_of
  plan-IsStale =
      let (slots, e, percent, is_plan) =
        plan-inversion compare_values locale_compare candidates compare_remainders input plan
          made in
      let q = quotas_of compare_remainders slots input.allocation in
      subst (λ p. All (λ i. any (is_source i) candidates ≡ true) p.items) (sym is_plan)
        (All-of_map item_of (λ i. any (is_source i) candidates ≡ true)
          (select compare_values locale_compare candidates slots q).selected
          (select-IsStale compare_values locale_compare candidates slots q))

  fewer : (slots n : ℕ) → pos 1 ≤ℤ sub_ℕ slots n → n < slots
  fewer slots n h = ground arith

  -- When a plan that is made leaves at least one slot unfilled, the id of every candidate that is
  -- not fresh is among its items.
  pub plan-covers :
      pos 1 ≤ℤ plan.unfilled_slots
      → All (λ c. (c.is_fresh ≡ true) ⊎ (includes (map item_id plan.items) c.id ≡ true)) candidates
  unfolding plan_of
  plan-covers unfilled =
      let (slots, e, percent, is_plan) =
        plan-inversion compare_values locale_compare candidates compare_remainders input plan
          made in
      let q = quotas_of compare_remainders slots input.allocation in
      let chosen = select compare_values locale_compare candidates slots q in
      let ids =
        select-AreIds compare_values locale_compare candidates slots q
        ∙ sym (ids-map_item chosen.selected) in
      let few =
        fewer slots (length chosen.selected)
          (subst (λ (p : ResearchPlan). pos 1 ≤ℤ p.unfilled_slots) is_plan unfilled) in
      subst
        (λ p.
          All (λ c. (c.is_fresh ≡ true) ⊎ (includes (map item_id p.items) c.id ≡ true)) candidates)
        (sym is_plan)
        (subst (λ l. All (λ c. (c.is_fresh ≡ true) ⊎ (includes l c.id ≡ true)) candidates) ids
          (select-covers compare_values locale_compare candidates slots q few))

  -- A plan that is made has, of each bucket, at least the quota of the bucket, or as many items as
  -- the bucket has candidates that are not fresh if these are fewer.
  pub plan-shares :
      (slots : ℕ) (b : ResearchPlanBucket)
      → input.slots ≡ pos slots
      → min
          (share (quotas_of compare_remainders slots input.allocation) b)
          (length (filter (is_eligible b) candidates))
        ≤ length (filter (λ i. same_bucket i.bucket b) plan.items)
  unfolding plan_of
  plan-shares slots b is_slots =
      let (slots', e, percent, is_plan) =
        plan-inversion compare_values locale_compare candidates compare_remainders input plan
          made in
      let same : slots ≡ slots' = cc (is_slots, e) in
      let q = quotas_of compare_remainders slots' input.allocation in
      let chosen = (select compare_values locale_compare candidates slots' q).selected in
      let counted : length
            (filter (λ (i : ResearchPlanItem). same_bucket i.bucket b) (map item_of chosen))
          ≡ count_in b chosen =
        ap length (filter-map item_of (λ (i : ResearchPlanItem). same_bucket i.bucket b) chosen)
        ∙ length-map (filter (λ c. same_bucket c.bucket b) chosen) item_of in
      subst
        (λ p.
          min (share (quotas_of compare_remainders slots input.allocation) b)
            (length (filter (is_eligible b) candidates))
          ≤ length (filter (λ (i : ResearchPlanItem). same_bucket i.bucket b) p.items))
        (sym is_plan)
        (rw (same, counted) (select-share compare_values locale_compare candidates slots' q b))
