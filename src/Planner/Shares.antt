-- ===== src/Planner/Shares.antt =====
-- Lemmas on the buckets of a plan of packages/research-engine/src/planner.ts.
use Prim.Native.Nat.{Ordering}
use mathlib.Core.List.{append-nil, map-append, append_assoc}
use amazon_research_agent.Base.{
  ℕ, ◌+◌, ◌≤◌, List, [], ◌∷◌, ◌++◌, ◌≡◌, arith, refl, length, length-append, length-take, String,
  true, &&_true, All-take, All-of_filter, ap, ◌∙◌, sym, filter, filter-append, filter_of_All, map,
  take, min,
}
use amazon_research_agent.Base.Order.{sort_by, All-sort_by, length-sort_by}
use amazon_research_agent.Planner.{
  DailyResearchCandidate, DailyResearchAllocation, ResearchPlanBucket, new, watch, strong,
  Selection, push, push_all, fill, fill_buckets, take_quotas, select, eligible, is_eligible,
  buckets, compare_candidates, id_of, share, same_bucket,
}

module _ {V : Type 0} where
  abbrev pub count_in : ResearchPlanBucket → List (DailyResearchCandidate V) → ℕ
  count_in b cs = length (filter (λ c. same_bucket c.bucket b) cs)

  count_in-append :
      (b : ResearchPlanBucket) (xs ys : List (DailyResearchCandidate V))
      → count_in b (xs ++ ys) ≡ count_in b xs + count_in b ys
  count_in-append b xs ys =
      ap length (filter-append (λ c. same_bucket c.bucket b) xs ys)
      ∙ length-append (filter (λ c. same_bucket c.bucket b) xs)
          (filter (λ c. same_bucket c.bucket b) ys)

  selected-push_all :
      (cs : List (DailyResearchCandidate V)) (s : Selection V)
      → (push_all cs s).selected ≡ s.selected ++ cs
  unfolding push_all
  selected-push_all [] s = sym (append-nil s.selected)
  selected-push_all (c ∷ cs) s =
      selected-push_all cs (push s c) ∙ append_assoc s.selected (c ∷ []) cs

  count_in-push_all :
      (b : ResearchPlanBucket) (cs : List (DailyResearchCandidate V)) (s : Selection V)
      → count_in b (push_all cs s).selected ≡ count_in b s.selected + count_in b cs
  count_in-push_all b cs s =
      ap (count_in b) (selected-push_all cs s) ∙ count_in-append b s.selected cs

  count_in-fill :
      (b : ResearchPlanBucket) (slots : ℕ) (cs : List (DailyResearchCandidate V)) (s : Selection V)
      → count_in b s.selected ≤ count_in b (fill slots cs s).selected
  unfolding fill
  count_in-fill b slots [] s = omega arith
  count_in-fill b slots (c ∷ cs) s = ground (
    arith,
    count_in-fill b slots cs s,
    count_in-fill b slots cs (push s c),
    count_in-append b s.selected (c ∷ []),
  )

  -- The set of ids is that of the selected candidates.
  abbrev AreIds : Selection V → Type 0
  AreIds s = s.selected_ids ≡ map id_of s.selected

  push-AreIds : (s : Selection V) (c : DailyResearchCandidate V) → AreIds s → AreIds (push s c)
  push-AreIds s c h = rw (map-append, h)

  push_all-AreIds :
      (cs : List (DailyResearchCandidate V)) (s : Selection V) → AreIds s → AreIds (push_all cs s)
  unfolding push_all
  push_all-AreIds [] s h = h
  push_all-AreIds (c ∷ cs) s h = push_all-AreIds cs (push s c) (push-AreIds s c h)

  fill-AreIds :
      (slots : ℕ) (cs : List (DailyResearchCandidate V)) (s : Selection V)
      → AreIds s
      → AreIds (fill slots cs s)
  unfolding fill
  fill-AreIds slots [] s h = h
  fill-AreIds slots (c ∷ cs) s h =
      ground (arith, fill-AreIds slots cs s h, fill-AreIds slots cs (push s c) (push-AreIds s c h))

module _ {V : Type 0} (compare_values : V → V → Ordering)
    (locale_compare : String → String → Ordering)
    (candidates : List (DailyResearchCandidate V)) where
  fill_buckets-AreIds :
      (slots : ℕ) (bs : List ResearchPlanBucket) (s : Selection V)
      → AreIds s
      → AreIds (fill_buckets compare_values locale_compare candidates slots bs s)
  unfolding fill_buckets
  fill_buckets-AreIds slots [] s h = h
  fill_buckets-AreIds slots (b ∷ bs) s h =
      let cs = eligible compare_values locale_compare candidates b in
      ground (arith, fill_buckets-AreIds slots bs (fill slots cs s) (fill-AreIds slots cs s h))

  take_quotas-AreIds :
      (q : DailyResearchAllocation) (bs : List ResearchPlanBucket) (s : Selection V)
      → AreIds s
      → AreIds (take_quotas compare_values locale_compare candidates q bs s)
  unfolding take_quotas
  take_quotas-AreIds q [] s h = h
  take_quotas-AreIds q (b ∷ bs) s h =
      let cs = take (share q b) (eligible compare_values locale_compare candidates b) in
      take_quotas-AreIds q bs (push_all cs s) (push_all-AreIds cs s h)

  pub select-AreIds :
      (slots : ℕ) (q : DailyResearchAllocation)
      → AreIds (select compare_values locale_compare candidates slots q)
  unfolding select
  select-AreIds slots q = fill_buckets-AreIds slots buckets _ (take_quotas-AreIds q buckets _ refl)

  count_in-fill_buckets :
      (b : ResearchPlanBucket) (slots : ℕ) (bs : List ResearchPlanBucket) (s : Selection V)
      → count_in b s.selected
        ≤ count_in b (fill_buckets compare_values locale_compare candidates slots bs s).selected
  unfolding fill_buckets
  count_in-fill_buckets b slots [] s = omega arith
  count_in-fill_buckets b slots (k ∷ bs) s =
      let cs = eligible compare_values locale_compare candidates k in
      ground (arith, count_in-fill_buckets b slots bs (fill slots cs s), count_in-fill b slots cs s)

  -- The part of its quota that a bucket can fill lies in the bucket.
  count_in-part :
      (b : ResearchPlanBucket) (n : ℕ)
      → count_in b (take n (eligible compare_values locale_compare candidates b))
        ≡ min n (length (filter (is_eligible b) candidates))
  unfolding eligible
  count_in-part b n =
      let P = λ (c : DailyResearchCandidate V). same_bucket c.bucket b ≡ true in
      let kept = filter (is_eligible b) candidates in
      let sorted = sort_by (compare_candidates compare_values locale_compare) kept in
      ap length (
        filter_of_All (λ c. same_bucket c.bucket b) (take n sorted)
          (All-take P n sorted (
            All-sort_by (compare_candidates compare_values locale_compare) P kept
              (All-of_filter P (is_eligible b) (λ c e. (&&_true _ _ e).0) candidates))))
      ∙ length-take n sorted
      ∙ ap (min n) (length-sort_by (compare_candidates compare_values locale_compare) kept)

  count_in-take_quotas :
      (b k : ResearchPlanBucket) (q : DailyResearchAllocation)
      → count_in b (take (share q k) (eligible compare_values locale_compare candidates k))
        ≤ count_in b
            (take_quotas compare_values locale_compare candidates q buckets
              (record { selected = []; selected_ids = [] })).selected
  unfolding take_quotas
  count_in-take_quotas b k q =
      let part = λ (k : ResearchPlanBucket).
        take (share q k) (eligible compare_values locale_compare candidates k) in
      let s0 : Selection V = record { selected = []; selected_ids = [] } in
      let s1 = push_all (part new) s0 in
      let s2 = push_all (part watch) s1 in
      let c1 = count_in-push_all b (part new) s0 in
      let c2 = count_in-push_all b (part watch) s1 in
      let c3 = count_in-push_all b (part strong) s2 in
      elim k as (λ k. count_in b (part k) ≤ count_in b (push_all (part strong) s2).selected) [
        | new ↦ omega (arith, c1, c2, c3)
        | watch ↦ omega (arith, c2, c3)
        | strong ↦ omega (arith, c3)
      ]

  -- The selection has at least the quota of each bucket, or all its stale candidates if these are
  -- fewer.
  pub select-share :
      (slots : ℕ) (q : DailyResearchAllocation) (b : ResearchPlanBucket)
      → min (share q b) (length (filter (is_eligible b) candidates))
        ≤ count_in b (select compare_values locale_compare candidates slots q).selected
  unfolding select
  select-share slots q b =
      let start : Selection V = record { selected = []; selected_ids = [] } in
      omega (
        arith,
        count_in-fill_buckets b slots buckets
            (take_quotas compare_values locale_compare candidates q buckets start),
        count_in-take_quotas b b q,
        count_in-part b (share q b),
      )
