-- ===== src/Planner/Stale.antt =====
-- Lemmas on the items of a plan of packages/research-engine/src/planner.ts.
use Prim.Native.Nat.{Ordering}
use amazon_research_agent.Base.{
  ℕ, List, [], ◌∷◌, ◌≡◌, arith, take, String, Bool, true, not, ◌&&◌, Bool-cases, inl, inr, All,
  All-append, All-take, All-any_self, All-filter_of_implied, filter, any, str_eq, str_eq_refl,
}
use amazon_research_agent.Base.Order.{All-sort_by}
use amazon_research_agent.Planner.{
  DailyResearchCandidate, DailyResearchAllocation, ResearchPlanBucket, Selection, push, push_all,
  fill, fill_buckets, take_quotas, select, eligible, is_eligible, is_full, share, buckets,
  compare_candidates, same_bucket, item_of, ResearchPlanItem,
}

-- The candidate is stale, and has the item's id and bucket.
abbrev pub is_source : {V : Type 0} → ResearchPlanItem → DailyResearchCandidate V → Bool
is_source i c = str_eq c.id i.id && same_bucket c.bucket i.bucket && not c.is_fresh

abbrev pub is_stale_source :
    {V : Type 0} → DailyResearchCandidate V → DailyResearchCandidate V → Bool
is_stale_source a c = is_source (item_of a) c

module _ {V : Type 0} (P : DailyResearchCandidate V → Type 0) where
  All-push_all :
      (cs : List (DailyResearchCandidate V)) (s : Selection V)
      → All P cs
      → All P s.selected
      → All P (push_all cs s).selected
  unfolding push_all
  All-push_all [] s hc hs = hs
  All-push_all (c ∷ cs) s hc hs =
      All-push_all cs (push s c) hc.1 (All-append P s.selected (c ∷ []) hs (hc.0, tt))

  All-fill :
      (slots : ℕ) (cs : List (DailyResearchCandidate V)) (s : Selection V)
      → All P cs
      → All P s.selected
      → All P (fill slots cs s).selected
  unfolding fill
  All-fill slots [] s hc hs = hs
  All-fill slots (c ∷ cs) s hc hs = ground (
    arith,
    All-fill slots cs s hc.1 hs,
    All-fill slots cs (push s c) hc.1 (All-append P s.selected (c ∷ []) hs (hc.0, tt)),
  )

module _ {V : Type 0} (compare_values : V → V → Ordering)
    (locale_compare : String → String → Ordering)
    (candidates : List (DailyResearchCandidate V)) where
  stale_sources :
      (b : ResearchPlanBucket)
      → All
          (λ a. any (is_stale_source a) candidates ≡ true)
          (eligible compare_values locale_compare candidates b)
  unfolding eligible
  stale_sources b =
      All-sort_by (compare_candidates compare_values locale_compare)
        (λ a. any (is_stale_source a) candidates ≡ true) (filter (is_eligible b) candidates)
        (All-filter_of_implied (λ a. any (is_stale_source a) candidates ≡ true) (is_eligible b)
          candidates
          (All-any_self (is_eligible b) is_stale_source (λ c e. ground (arith, str_eq_refl c.id))
            candidates))

  take_quotas-IsStale :
      (q : DailyResearchAllocation) (bs : List ResearchPlanBucket) (s : Selection V)
      → All (λ a. any (is_stale_source a) candidates ≡ true) s.selected
      → All
          (λ a. any (is_stale_source a) candidates ≡ true)
          (take_quotas compare_values locale_compare candidates q bs s).selected
  unfolding take_quotas
  take_quotas-IsStale q [] s h = h
  take_quotas-IsStale q (b ∷ bs) s h =
      let P = λ (a : DailyResearchCandidate V). any (is_stale_source a) candidates ≡ true in
      let cs = eligible compare_values locale_compare candidates b in
      take_quotas-IsStale q bs (push_all (take (share q b) cs) s)
        (All-push_all P (take (share q b) cs) s (All-take P (share q b) cs (stale_sources b)) h)

  fill_buckets-IsStale :
      (slots : ℕ) (bs : List ResearchPlanBucket) (s : Selection V)
      → All (λ a. any (is_stale_source a) candidates ≡ true) s.selected
      → All
          (λ a. any (is_stale_source a) candidates ≡ true)
          (fill_buckets compare_values locale_compare candidates slots bs s).selected
  unfolding fill_buckets
  fill_buckets-IsStale slots [] s h = h
  fill_buckets-IsStale slots (b ∷ bs) s h =
      let P = λ (a : DailyResearchCandidate V). any (is_stale_source a) candidates ≡ true in
      let cs = eligible compare_values locale_compare candidates b in
      elim (Bool-cases (is_full slots s)) [
        | inl e ↦ rw e h
        | inr e ↦ rw e (
            fill_buckets-IsStale slots bs (fill slots cs s)
              (All-fill P slots cs s (stale_sources b) h))
      ]

  -- Every item of the selection is the id and the bucket of a stale candidate of the input.
  pub select-IsStale :
      (slots : ℕ) (q : DailyResearchAllocation)
      → All
          (λ a. any (is_stale_source a) candidates ≡ true)
          (select compare_values locale_compare candidates slots q).selected
  unfolding select
  select-IsStale slots q = fill_buckets-IsStale slots buckets _ (take_quotas-IsStale q buckets _ tt)
