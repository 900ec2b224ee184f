-- ===== src/Planner/Coverage.antt =====
-- Lemmas on the slots that packages/research-engine/src/planner.ts leaves unfilled.
use Prim.Native.Nat.{Ordering}
use amazon_research_agent.Base.{
  ℕ, ◌≤◌, ◌<◌, List, [], ◌∷◌, ◌≡◌, arith, refl, length, length-append, String, true, false,
  Bool-cases, inl, inr, All, All-map, All-zip, All-of_All-filter, ◌⊎◌, sym, subst, filter, includes,
  includes-append, str_eq_refl, if◌then◌else◌,
}
use amazon_research_agent.Base.Order.{All-of_sort_by}
use amazon_research_agent.Planner.{
  DailyResearchCandidate, DailyResearchAllocation, ResearchPlanBucket, new, watch, strong,
  Selection, push, fill, fill_buckets, take_quotas, select, eligible, is_eligible, is_full, buckets,
  compare_candidates,
}

module _ {V : Type 0} where
  abbrev IsHeld : Selection V → DailyResearchCandidate V → Type 0
  IsHeld s c = includes s.selected_ids c.id ≡ true

  push-IsHeld : (s : Selection V) (c : DailyResearchCandidate V) → IsHeld (push s c) c
  unfolding includes
  push-IsHeld s c =
      ground (arith, includes-append s.selected_ids (c.id ∷ []) c.id, str_eq_refl c.id)

  push-keeps : (s : Selection V) (c d : DailyResearchCandidate V) → IsHeld s d → IsHeld (push s c) d
  push-keeps s c d h = ground (arith, includes-append s.selected_ids (c.id ∷ []) d.id)

  -- What is held stays held, and the selection does not shrink.
  fill-keeps :
      (slots : ℕ) (cs : List (DailyResearchCandidate V)) (s : Selection V)
      (d : DailyResearchCandidate V)
      → IsHeld s d
      → IsHeld (fill slots cs s) d
  unfolding fill
  fill-keeps slots [] s d h = h
  fill-keeps slots (c ∷ cs) s d h =
      ground
        (arith, fill-keeps slots cs s d h, fill-keeps slots cs (push s c) d (push-keeps s c d h))

  fill-grows :
      (slots : ℕ) (cs : List (DailyResearchCandidate V)) (s : Selection V)
      → length s.selected ≤ length (fill slots cs s).selected
  unfolding fill
  fill-grows slots [] s = omega arith
  fill-grows slots (c ∷ cs) s = ground (
    arith,
    fill-grows slots cs s,
    fill-grows slots cs (push s c),
    length-append s.selected (c ∷ []),
  )

  fill-eq_of_full :
      (slots : ℕ) (cs : List (DailyResearchCandidate V)) (s : Selection V)
      → is_full slots s ≡ true
      → fill slots cs s ≡ s
  unfolding fill
  fill-eq_of_full slots [] s h = refl
  fill-eq_of_full slots (c ∷ cs) s h = ground arith

  -- One round of the loop on a selection that has room.
  fill-eq_of_room :
      (slots : ℕ) (c : DailyResearchCandidate V) (cs : List (DailyResearchCandidate V))
      (s : Selection V)
      → is_full slots s ≡ false
      → fill slots (c ∷ cs) s ≡ fill slots cs (if includes s.selected_ids c.id then s else push s c)
  unfolding fill
  fill-eq_of_room slots c cs s h = rw h refl

  round-IsHeld :
      (c : DailyResearchCandidate V) (s : Selection V)
      → IsHeld (if includes s.selected_ids c.id then s else push s c) c
  round-IsHeld c s = elim (Bool-cases (includes s.selected_ids c.id)) [
    | inl e ↦ subst (λ b. IsHeld (if b then s else push s c) c) (sym e) e
    | inr e ↦ subst (λ b. IsHeld (if b then s else push s c) c) (sym e) (push-IsHeld s c)
  ]

  fill-covers :
      (slots : ℕ) (cs : List (DailyResearchCandidate V)) (s : Selection V)
      → length (fill slots cs s).selected < slots
      → All (IsHeld (fill slots cs s)) cs
  fill-covers slots [] s h = tt
  fill-covers slots (c ∷ cs) s h = elim (Bool-cases (is_full slots s)) [
    | inl full ↦ absurd (ground (arith, h, fill-eq_of_full slots (c ∷ cs) s full))
    | inr room ↦
        let s' = if includes s.selected_ids c.id then s else push s c in
        let e = fill-eq_of_room slots c cs s room in
        subst (λ t. All (IsHeld t) (c ∷ cs)) (sym e)
          (
            fill-keeps slots cs s' c (round-IsHeld c s),
            fill-covers slots cs s' (subst (λ t. length t.selected < slots) e h),
          )
  ]

module _ {V : Type 0} (compare_values : V → V → Ordering)
    (locale_compare : String → String → Ordering)
    (candidates : List (DailyResearchCandidate V)) where
  fill_buckets-keeps :
      (slots : ℕ) (bs : List ResearchPlanBucket) (s : Selection V) (d : DailyResearchCandidate V)
      → IsHeld s d
      → IsHeld (fill_buckets compare_values locale_compare candidates slots bs s) d
  unfolding fill_buckets
  fill_buckets-keeps slots [] s d h = h
  fill_buckets-keeps slots (b ∷ bs) s d h =
      let cs = eligible compare_values locale_compare candidates b in
      ground (arith, fill_buckets-keeps slots bs (fill slots cs s) d (fill-keeps slots cs s d h))

  fill_buckets-grows :
      (slots : ℕ) (bs : List ResearchPlanBucket) (s : Selection V)
      → length s.selected
        ≤ length (fill_buckets compare_values locale_compare candidates slots bs s).selected
  unfolding fill_buckets
  fill_buckets-grows slots [] s = omega arith
  fill_buckets-grows slots (b ∷ bs) s =
      let cs = eligible compare_values locale_compare candidates b in
      ground (arith, fill_buckets-grows slots bs (fill slots cs s), fill-grows slots cs s)

  fill_buckets-eq_of_room :
      (slots : ℕ) (b : ResearchPlanBucket) (bs : List ResearchPlanBucket) (s : Selection V)
      → is_full slots s ≡ false
      → fill_buckets compare_values locale_compare candidates slots (b ∷ bs) s
        ≡ fill_buckets compare_values locale_compare candidates slots bs
            (fill slots (eligible compare_values locale_compare candidates b) s)
  unfolding fill_buckets
  fill_buckets-eq_of_room slots b bs s h = rw h refl

  fill_buckets-full :
      (slots : ℕ) (b : ResearchPlanBucket) (bs : List ResearchPlanBucket) (s : Selection V)
      → is_full slots s ≡ true
      → fill_buckets compare_values locale_compare candidates slots (b ∷ bs) s ≡ s
  unfolding fill_buckets
  fill_buckets-full slots b bs s h = rw h refl

  abbrev AreHeld : Selection V → ResearchPlanBucket → Type 0
  AreHeld s b = All (IsHeld s) (eligible compare_values locale_compare candidates b)

  fill_buckets-covers :
      (slots : ℕ) (bs : List ResearchPlanBucket) (s : Selection V)
      → length (fill_buckets compare_values locale_compare candidates slots bs s).selected < slots
      → All (AreHeld (fill_buckets compare_values locale_compare candidates slots bs s)) bs
  fill_buckets-covers slots [] s h = tt
  fill_buckets-covers slots (b ∷ bs) s h =
      let cs = eligible compare_values locale_compare candidates b in
      elim (Bool-cases (is_full slots s)) [
        | inl full ↦ absurd (ground (arith, h, fill_buckets-full slots b bs s full))
        | inr room ↦
            let e = fill_buckets-eq_of_room slots b bs s room in
            let h' = subst (λ (t : Selection V). length t.selected < slots) e h in
            subst (λ t. All (AreHeld t) (b ∷ bs)) (sym e)
              (
                All-map (λ d. fill_buckets-keeps slots bs (fill slots cs s) d) cs
                    (fill-covers slots cs s
                      (omega (arith, h', fill_buckets-grows slots bs (fill slots cs s)))),
                fill_buckets-covers slots bs (fill slots cs s) h',
              )
      ]

  all_buckets :
      (P : DailyResearchCandidate V → Type 0) (c : DailyResearchCandidate V)
      → (is_eligible new c ≡ true → P c)
      → (is_eligible watch c ≡ true → P c)
      → (is_eligible strong c ≡ true → P c)
      → (c.is_fresh ≡ true) ⊎ P c
  all_buckets P c a b s = elim (Bool-cases c.is_fresh) [
    | inl e ↦ inl e
    | inr e ↦ inr (of_bucket e c.bucket refl)
  ]
    where
      of_bucket : c.is_fresh ≡ false → (k : ResearchPlanBucket) → c.bucket ≡ k → P c
      of_bucket f new e = a (ground arith)
      of_bucket f watch e = b (ground arith)
      of_bucket f strong e = s (ground arith)

  -- When the selection leaves a slot unfilled, the id of every candidate that is not fresh is in it.
  pub select-covers :
      (slots : ℕ) (q : DailyResearchAllocation)
      → length (select compare_values locale_compare candidates slots q).selected < slots
      → All
          (λ c.
            (c.is_fresh ≡ true)
            ⊎ (includes (select compare_values locale_compare candidates slots q).selected_ids c.id
                ≡ true))
          candidates
  unfolding select
  select-covers slots q h =
      let start : Selection V = record { selected = []; selected_ids = [] } in
      let first = take_quotas compare_values locale_compare candidates q buckets start in
      let last = fill_buckets compare_values locale_compare candidates slots buckets first in
      let held = fill_buckets-covers slots buckets first h in
      let part =
        λ (b : ResearchPlanBucket)
            (k : All (IsHeld last) (eligible compare_values locale_compare candidates b)).
          All-of_All-filter (IsHeld last) (is_eligible b) candidates (
            All-of_sort_by (compare_candidates compare_values locale_compare) (IsHeld last)
              (filter (is_eligible b) candidates) (unfold eligible in k)) in
      All-map (λ c k. all_buckets (IsHeld last) c k.0 k.1.0 k.1.1) candidates
        (All-zip (λ c. is_eligible new c ≡ true → IsHeld last c)
          (λ c.
            (is_eligible watch c ≡ true → IsHeld last c)
            × (is_eligible strong c ≡ true → IsHeld last c))
          candidates (part new held.0)
          (All-zip (λ c. is_eligible watch c ≡ true → IsHeld last c)
            (λ c. is_eligible strong c ≡ true → IsHeld last c) candidates (part watch held.1.0)
            (part strong held.1.1.0)))
