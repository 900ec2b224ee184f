-- ===== src/Business/Latest/Greatest.antt =====
-- Lemmas on the choice of a row in packages/shared/src/research-business.ts.
use Prim.Native.Nat.{Ordering}
use mathlib.Core.List.{Memᴰ}
use amazon_research_agent.Base.{
  String, Option, none, some, List, [], ◌∷◌, ◌≡◌, refl, subst, arith, All, Bool-cases, inl, inr,
  if◌then◌else◌,
}
use amazon_research_agent.Base.Int.{ℤ}
use amazon_research_agent.Base.Order.{IsOrder, AtMost, is_gt, or_else, swap, gt-AtMost}
use amazon_research_agent.Base.Comparators.{by_key-IsOrder, or_else-IsOrder}
use amazon_research_agent.Business.Latest.{
  ResearchBusinessEvidenceRow, compare_time, is_newer, latest_from, latest_row,
}

compare_time-IsOrder : IsOrder compare_time
unfolding compare_time
compare_time-IsOrder = record { flip = flip_time; trans = trans_time }
  where
    flip_time : (a b : Option ℤ) → compare_time b a ≡ swap (compare_time a b)
    flip_time none none = refl
    flip_time none (some b) = refl
    flip_time (some a) none = refl
    flip_time (some a) (some b) = ground arith

    trans_time :
        (a b c : Option ℤ)
        → AtMost compare_time a b
        → AtMost compare_time b c
        → AtMost compare_time a c
    trans_time a b c h k = ground arith

module _ {P : Type 0} (parse_date : String → Option ℤ)
    (compare_text : String → String → Ordering) where
  -- By the time of creation, and then by the id.
  abbrev pub compare_rows : ResearchBusinessEvidenceRow P → ResearchBusinessEvidenceRow P → Ordering
  compare_rows a b =
      or_else (compare_time (parse_date a.created_at) (parse_date b.created_at))
        (compare_text a.id b.id)

  is_newer-eq :
      (a b : ResearchBusinessEvidenceRow P)
      → is_newer parse_date compare_text a b ≡ is_gt (compare_rows a b)
  unfolding is_newer
  is_newer-eq a b = ground arith

  latest_from-mem :
      (latest : ResearchBusinessEvidenceRow P) (rows : List (ResearchBusinessEvidenceRow P))
      → Memᴰ (latest_from parse_date compare_text latest rows) (latest ∷ rows)
  unfolding latest_from
  latest_from-mem latest [] = Memᴰ.head refl
  latest_from-mem latest (row ∷ rows) =
      elim (Bool-cases (is_newer parse_date compare_text row latest)) [
        | inl e ↦ rw e (Memᴰ.tail (latest_from-mem row rows))
        | inr e ↦ rw e (keep (latest_from-mem latest rows))
      ]
    where
      keep :
          {r : ResearchBusinessEvidenceRow P}
          → Memᴰ r (latest ∷ rows)
          → Memᴰ r (latest ∷ row ∷ rows)
      keep (Memᴰ.head e) = Memᴰ.head e
      keep (Memᴰ.tail m) = Memᴰ.tail (Memᴰ.tail m)

  module _ (o : IsOrder compare_text) where
    rows-IsOrder : IsOrder compare_rows
    rows-IsOrder =
        or_else-IsOrder _ _
          (by_key-IsOrder (λ (r : ResearchBusinessEvidenceRow P). parse_date r.created_at)
            compare_time compare_time-IsOrder)
          (by_key-IsOrder (λ (r : ResearchBusinessEvidenceRow P). r.id) compare_text o)

    latest_from-greatest :
        (latest : ResearchBusinessEvidenceRow P) (rows : List (ResearchBusinessEvidenceRow P))
        → All
            (λ r. AtMost compare_rows r (latest_from parse_date compare_text latest rows))
            (latest ∷ rows)
    unfolding latest_from
    latest_from-greatest latest [] = (ground (arith, rows-IsOrder.flip latest latest), tt)
    latest_from-greatest latest (row ∷ rows) =
        let next = if is_newer parse_date compare_text row latest then row else latest in
        let rest = latest_from-greatest next rows in
        let last = latest_from parse_date compare_text next rows in
        (
          rows-IsOrder.trans latest next last
              (ground (
                arith,
                is_newer-eq row latest,
                gt-AtMost compare_rows rows-IsOrder row latest,
                rows-IsOrder.flip latest latest,
              ))
              rest.0,
          (
            rows-IsOrder.trans row next last
                (ground (arith, is_newer-eq row latest, rows-IsOrder.flip row row)) rest.0,
            rest.1,
          ),
        )

    -- The row that counts is one of the candidate's rows, and no row is later than it, by time of
    -- creation and then by id, when the order of ids is an order.
    pub latest_row-greatest :
        (rows : List (ResearchBusinessEvidenceRow P)) (row : ResearchBusinessEvidenceRow P)
        → latest_row parse_date compare_text rows ≡ some row
        → Memᴰ row rows × All (λ r. AtMost compare_rows r row) rows
    unfolding latest_row
    latest_row-greatest [] row h = absurd (cc h)
    latest_row-greatest (first ∷ rows) row h =
        let e : latest_from parse_date compare_text first rows ≡ row = cc h in
        (
          subst (λ r. Memᴰ r (first ∷ rows)) e (latest_from-mem first rows),
          subst (λ r. All (λ r'. AtMost compare_rows r' r) (first ∷ rows)) e
              (latest_from-greatest first rows),
        )
