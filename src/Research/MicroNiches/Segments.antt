-- ===== src/Research/MicroNiches/Segments.antt =====
-- Theorems on the segments of prices of packages/research-engine/src/micro-niche.ts.
use amazon_research_agent.Base.{
  ℕ, Option, none, some, List, [], ◌∷◌, ◌++◌, ◌≡◌, refl, arith, ◌+◌, ◌≤◌, ◌⊎◌, inl, inr, length,
  length-append, map, suc, All, subst, Bool-cases, ltb,
}
use amazon_research_agent.Base.Order.{sort_by, length-sort_by}
use amazon_research_agent.Shared.Numbers.{Numbers}
use amazon_research_agent.Research.Families.{ProductFamily, known}
use amazon_research_agent.Research.MicroNiches.{
  PriceSegment, find_gap, segments_of, segment_prices, family_median_price, whole, halves, by_price,
}

abbrev pub total_count : {N : Type 0} → List (PriceSegment N) → ℕ
total_count [] = 0
total_count (segment ∷ segments) = segment.family_count + total_count segments

module _ (n : Numbers) where
  open n use {Number}

  -- A split keeps every price, and leaves at least three above it.
  abbrev IsSplit : List Number → List Number → Option (List Number × Number × List Number) → Type 0
  IsSplit low rest none = Unit
  IsSplit low rest (some (below, current, above)) =
      (length below + length above ≡ length low + length rest)
      × (length low ≤ length below)
      × (3 ≤ length above)

  IsSplit-later :
      (low rest : List Number) (next : Number) (split : Option (List Number × Number × List Number))
      → IsSplit (low ++ next ∷ []) rest split
      → IsSplit low (next ∷ rest) split
  IsSplit-later low rest next none h = tt
  IsSplit-later low rest next (some (below, current, above)) h =
      let size = length-append low (next ∷ []) in
      (omega (arith, h.0, size), omega (arith, h.1, size), h.2)

  find_gap-IsSplit :
      (low : List Number) (current : Number) (rest : List Number)
      → IsSplit low rest (find_gap n low current rest)
  unfolding find_gap
  find_gap-IsSplit low current [] = tt
  find_gap-IsSplit low current (next ∷ high) = ground (
    arith,
    IsSplit-later low high next (find_gap n (low ++ next ∷ []) next high)
        (find_gap-IsSplit (low ++ next ∷ []) next high),
  )

  -- What the segments say of their counts.
  abbrev IsCounted : ℕ → List (PriceSegment Number) → Type 0
  IsCounted count segments =
      (total_count segments ≡ count)
      × All (λ s. (s.family_count ≡ count) ⊎ (3 ≤ s.family_count)) segments

  halves-IsCounted :
      (least : Number) (prices low rest : List Number)
      (split : Option (List Number × Number × List Number))
      → suc (length prices) ≡ length low + length rest
      → 3 ≤ length low
      → IsSplit low rest split
      → IsCounted (suc (length prices)) (halves n (whole n least prices) split)
  halves-IsCounted least prices low rest none c l h = (omega arith, (inl refl, tt))
  halves-IsCounted least prices low rest (some (below, current, above)) c l h =
      (omega (arith, h.0), (inr (omega (arith, h.1)), (inr h.2, tt)))

  segments_of-IsCounted : (prices : List Number) → IsCounted (length prices) (segments_of n prices)
  unfolding segments_of
  segments_of-IsCounted [] = (refl, tt)
  segments_of-IsCounted (a ∷ []) = (omega arith, (inl refl, tt))
  segments_of-IsCounted (a ∷ b ∷ []) = (omega arith, (inl refl, tt))
  segments_of-IsCounted (a ∷ b ∷ c ∷ prices) =
      elim (Bool-cases (ltb (length (a ∷ b ∷ c ∷ prices)) 6)) [
        | inl few ↦ rw few (omega arith, (inl refl, tt))
        | inr many ↦ rw many (
            halves-IsCounted a (b ∷ c ∷ prices) (a ∷ b ∷ c ∷ []) prices
              (find_gap n (a ∷ b ∷ c ∷ []) c prices) (omega arith) (omega arith)
              (find_gap-IsSplit (a ∷ b ∷ c ∷ []) c prices))
      ]

  -- The segments of a list of families count each family with a median price once, and no others; a
  -- segment that does not count all of them counts at least three.
  pub segment_prices-counts :
      (families : List (ProductFamily Number))
      → let count = length (known (map (family_median_price n) families)) in
        (total_count (segment_prices n families) ≡ count)
        × All (λ s. (s.family_count ≡ count) ⊎ (3 ≤ s.family_count)) (segment_prices n families)
  unfolding segment_prices
  segment_prices-counts families =
      let prices = known (map (family_median_price n) families) in
      subst (λ count. IsCounted count (segments_of n (sort_by (by_price n) prices)))
        (length-sort_by (by_price n) prices) (segments_of-IsCounted (sort_by (by_price n) prices))
