-- ===== src/Planner/Slots.antt =====
-- Lemmas on the number of items of a plan of packages/research-engine/src/planner.ts.
use Prim.Native.Nat.{Ordering}
use amazon_research_agent.Base.{
  ℕ, suc, ◌+◌, ◌≤◌, List, [], ◌∷◌, ◌≡◌, arith, refl, map, length, take, length-append, length-take,
  String, inl, inr, ◌⊎◌, ap, sym, ◌∙◌,
}
use amazon_research_agent.Base.Int.{ℤ, pos, negsuc, sub_ℕ, ◌+ℤ◌, ◌≤ℤ◌}
use amazon_research_agent.Base.Result.{ok}
use amazon_research_agent.Planner.{
  DailyResearchCandidate, DailyResearchAllocation, DailyResearchPlanInput, ResearchPlan,
  ResearchPlanBucket, Selection, push, push_all, fill, fill_buckets, take_quotas, select, plan_of,
  plan_daily_research, calculate_quotas, eligible, share, buckets, quotas_of, total_percent,
  item_of,
}
use amazon_research_agent.Planner.Quotas.{quotas_of-total}

module _ {V : Type 0} where
  pub length-push_all :
      (cs : List (DailyResearchCandidate V)) (s : Selection V)
      → length (push_all cs s).selected ≡ length s.selected + length cs
  unfolding push_all
  length-push_all [] s = omega arith
  length-push_all (c ∷ cs) s =
      omega (arith, length-push_all cs (push s c), length-append s.selected (c ∷ []))

  pub length-fill :
      (slots : ℕ) (cs : List (DailyResearchCandidate V)) (s : Selection V)
      → length s.selected ≤ slots
      → length (fill slots cs s).selected ≤ slots
  unfolding fill
  length-fill slots [] s h = h
  length-fill slots (c ∷ cs) s h = ground (
    arith,
    length-fill slots cs s,
    length-fill slots cs (push s c),
    length-append s.selected (c ∷ []),
  )

room :
    (items chosen slots : ℕ)
    → items ≡ chosen
    → chosen ≤ slots
    → (pos items +ℤ sub_ℕ slots chosen ≡ pos slots) × (pos 0 ≤ℤ sub_ℕ slots chosen)
unfolding ◌+ℤ◌
room items chosen slots e h = ground arith

module _ {V : Type 0} (compare_values : V → V → Ordering)
    (locale_compare : String → String → Ordering)
    (candidates : List (DailyResearchCandidate V)) where
  length-fill_buckets :
      (slots : ℕ) (bs : List ResearchPlanBucket) (s : Selection V)
      → length s.selected ≤ slots
      → length (fill_buckets compare_values locale_compare candidates slots bs s).selected ≤ slots
  unfolding fill_buckets
  length-fill_buckets slots [] s h = h
  length-fill_buckets slots (b ∷ bs) s h =
      let cs = eligible compare_values locale_compare candidates b in
      ground (arith, length-fill_buckets slots bs (fill slots cs s), length-fill slots cs s h)

  length-take_quotas :
      (q : DailyResearchAllocation) (s : Selection V)
      → length (take_quotas compare_values locale_compare candidates q buckets s).selected
        ≤ length s.selected + total_percent q
  unfolding take_quotas
  length-take_quotas q s =
      let part = λ (b : ResearchPlanBucket).
        take (share q b) (eligible compare_values locale_compare candidates b) in
      let s1 = push_all (part ResearchPlanBucket.new) s in
      let s2 = push_all (part ResearchPlanBucket.watch) s1 in
      omega (
        arith,
        length-push_all (part ResearchPlanBucket.new) s,
        length-push_all (part ResearchPlanBucket.watch) s1,
        length-push_all (part ResearchPlanBucket.strong) s2,
        length-take q.for_new
            (eligible compare_values locale_compare candidates ResearchPlanBucket.new),
        length-take q.for_watch
            (eligible compare_values locale_compare candidates ResearchPlanBucket.watch),
        length-take q.for_strong
            (eligible compare_values locale_compare candidates ResearchPlanBucket.strong),
      )

  pub length-select :
      (slots : ℕ) (q : DailyResearchAllocation)
      → total_percent q ≡ slots
      → length (select compare_values locale_compare candidates slots q).selected ≤ slots
  unfolding select
  length-select slots q h =
      length-fill_buckets slots buckets
        (take_quotas compare_values locale_compare candidates q buckets
          (record { selected = []; selected_ids = [] }))
        (omega (arith, h, length-take_quotas q (record { selected = []; selected_ids = [] })))

  length-map_item : (cs : List (DailyResearchCandidate V)) → length (map item_of cs) ≡ length cs
  length-map_item [] = refl
  length-map_item (c ∷ cs) = ap suc (length-map_item cs)

  -- A plan that is made comes from slots that are not negative and an allocation of 100 percent.
  pub plan-inversion :
      (compare_remainders : ℕ → ℕ → Ordering) (input : DailyResearchPlanInput) (plan : ResearchPlan)
      → plan_daily_research compare_values locale_compare compare_remainders candidates input
        ≡ ok plan
      → (slots : ℕ) × (input.slots ≡ pos slots)
        × (total_percent input.allocation ≡ 100)
        × (plan
            ≡ plan_of compare_values locale_compare candidates
                (slots, quotas_of compare_remainders slots input.allocation))
  unfolding plan_daily_research calculate_quotas
  plan-inversion compare_remainders input plan h = elim (ℤ-cases input.slots) [
    | inl (n, e) ↦ (n, e, ground arith, ground arith)
    | inr (n, e) ↦ absurd (ground arith)
  ]
    where
      ℤ-cases : (z : ℤ) → ((n : ℕ) × (z ≡ pos n)) ⊎ ((n : ℕ) × (z ≡ negsuc n))
      ℤ-cases (pos n) = inl (n, refl)
      ℤ-cases (negsuc n) = inr (n, refl)

  -- In every plan that is made, the items and the unfilled slots add up to the slots of the run, and
  -- the number of unfilled slots is not negative.
  pub plan-slots :
      (compare_remainders : ℕ → ℕ → Ordering) (input : DailyResearchPlanInput) (plan : ResearchPlan)
      → plan_daily_research compare_values locale_compare compare_remainders candidates input
        ≡ ok plan
      → (pos (length plan.items) +ℤ plan.unfilled_slots ≡ input.slots)
        × (pos 0 ≤ℤ plan.unfilled_slots)
  unfolding plan_of
  plan-slots compare_remainders input plan h =
      let (slots, e, percent, made) = plan-inversion compare_remainders input plan h in
      let q = quotas_of compare_remainders slots input.allocation in
      let fits =
        room
          (length (map item_of (select compare_values locale_compare candidates slots q).selected))
          (length (select compare_values locale_compare candidates slots q).selected) slots
          (length-map_item (select compare_values locale_compare candidates slots q).selected)
          (length-select slots q
            (quotas_of-total compare_remainders slots input.allocation percent).0) in
      rw made (fits.0 ∙ sym e, fits.1)
