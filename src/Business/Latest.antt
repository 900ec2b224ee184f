-- ===== src/Business/Latest.antt =====
-- packages/shared/src/research-business.ts: which evidence row of a candidate counts. `Date.parse`
-- and the order of texts by code unit are parameters; a timestamp that does not parse counts as
-- minus infinity.
pub mod Greatest
use Prim.Native.Nat.{Ordering}
use amazon_research_agent.Base.{
  String, Bool, true, false, ◌&&◌, ◌||◌, Option, none, some, List, [], ◌∷◌, ◌≡◌, ◌⊎◌, refl, arith,
  All, All-map, Bool-cases, inl, inr, if◌then◌else◌,
}
use amazon_research_agent.Base.Int.{ℤ, ltb_ℤ}
use amazon_research_agent.Base.Order.{is_gt}

pub record ResearchBusinessEvidenceRow (P : Type 0) : Type 0 where
  pub id : String
  pub created_at : String
  pub payload : P

-- The order of timestamps: `none` is minus infinity.
unfoldable pub compare_time : Option ℤ → Option ℤ → Ordering
compare_time none none = Ordering.eq
compare_time none (some b) = Ordering.lt
compare_time (some a) none = Ordering.gt
compare_time (some a) (some b) =
    if ltb_ℤ a b then Ordering.lt else if ltb_ℤ b a then Ordering.gt else Ordering.eq

abbrev pub is_eq : Ordering → Bool
is_eq Ordering.eq = true
is_eq _ = false

module _ {P : Type 0} (parse_date : String → Option ℤ)
    (compare_text : String → String → Ordering) where
  -- `row` takes the place of `latest`.
  unfoldable pub is_newer : ResearchBusinessEvidenceRow P → ResearchBusinessEvidenceRow P → Bool
  is_newer row latest =
      let times = compare_time (parse_date row.created_at) (parse_date latest.created_at) in
      is_gt times || (is_eq times && is_gt (compare_text row.id latest.id))

  unfoldable pub latest_from :
      ResearchBusinessEvidenceRow P
      → List (ResearchBusinessEvidenceRow P)
      → ResearchBusinessEvidenceRow P
  latest_from latest [] = latest
  latest_from latest (row ∷ rows) = latest_from (if is_newer row latest then row else latest) rows

  unfoldable pub latest_row :
      List (ResearchBusinessEvidenceRow P) → Option (ResearchBusinessEvidenceRow P)
  latest_row [] = none
  latest_row (row ∷ rows) = some (latest_from row rows)

  -- `parse` is the schema's `safeParse`.
  unfoldable pub select_latest_research_business :
      {E : Type 0} → (P → Option E) → List (ResearchBusinessEvidenceRow P) → Option E
  select_latest_research_business parse rows = elim (latest_row rows) [
    | none ↦ none
    | some row ↦ parse row.payload
  ]
