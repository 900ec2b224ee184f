-- ===== src/Planner.antt =====
-- packages/research-engine/src/planner.ts: which candidates a daily run researches.
-- Percentages are whole numbers (packages/shared/src/settings.ts). What the program takes from the
-- runtime is a parameter: the sign of `right.informationValue - left.informationValue`, the
-- collation `localeCompare`, and the sign of the difference of two floating-point remainders of a
-- division by 100. The whole part of that division is exact.
pub mod Quotas
pub mod Slots
pub mod Stale
pub mod Coverage
pub mod Shares
pub mod Plans
use Prim.Native.Nat.{compare, Ordering}
use amazon_research_agent.Base.{
  ℕ, zero, suc, ◌+◌, ◌*◌, ◌/◌, ◌-◌, String, Bool, true, false, not, ◌&&◌, List, [], ◌∷◌, ◌++◌, map,
  length, take, filter, includes, if◌then◌else◌, ◌==◌,
}
use amazon_research_agent.Base.Int.{ℤ, pos, negsuc, sub_ℕ}
use amazon_research_agent.Base.Order.{sort_by, or_else}
use amazon_research_agent.Base.Result.{Result, ok, err, ◌>>=◌}

pub data ResearchPlanBucket : Type 0 where
  new watch strong : ResearchPlanBucket

abbrev pub bucket_index : ResearchPlanBucket → ℕ
bucket_index new = 0
bucket_index watch = 1
bucket_index strong = 2

abbrev pub same_bucket : ResearchPlanBucket → ResearchPlanBucket → Bool
same_bucket a b = bucket_index a == bucket_index b

pub record DailyResearchCandidate (V : Type 0) : Type 0 where
  pub id : String
  pub bucket : ResearchPlanBucket
  pub information_value : V
  pub is_fresh : Bool

pub record DailyResearchAllocation : Type 0 where
  pub for_new : ℕ
  pub for_watch : ℕ
  pub for_strong : ℕ

abbrev pub share : DailyResearchAllocation → ResearchPlanBucket → ℕ
share a new = a.for_new
share a watch = a.for_watch
share a strong = a.for_strong

abbrev pub assign : DailyResearchAllocation → ResearchPlanBucket → ℕ → DailyResearchAllocation
assign a new n = record a { for_new = n }
assign a watch n = record a { for_watch = n }
assign a strong n = record a { for_strong = n }

pub record DailyResearchPlanInput : Type 0 where
  pub slots : ℤ
  pub allocation : DailyResearchAllocation

pub record ResearchPlanItem : Type 0 where
  pub id : String
  pub bucket : ResearchPlanBucket

pub record ResearchPlan : Type 0 where
  pub items : List ResearchPlanItem
  pub unfilled_slots : ℤ

abbrev pub buckets : List ResearchPlanBucket
buckets = new ∷ watch ∷ strong ∷ []

pub data RangeError : Type 0 where
  negative_slots allocation_not_100 : RangeError

-- `scaled` is the numerator of `exact`, whose floating-point remainder orders the entries.
pub record QuotaEntry : Type 0 where
  pub bucket : ResearchPlanBucket
  pub quota : ℕ
  pub scaled : ℕ

unfoldable pub quota_entry : ℕ → DailyResearchAllocation → ResearchPlanBucket → QuotaEntry
quota_entry slots allocation bucket = record {
  bucket = bucket;
  quota = slots * share allocation bucket / 100;
  scaled = slots * share allocation bucket;
}

unfoldable pub sum_quotas : List QuotaEntry → ℕ
sum_quotas [] = 0
sum_quotas (e ∷ es) = e.quota + sum_quotas es

-- One more slot to each entry until none remains.
unfoldable pub distribute : ℕ → List QuotaEntry → List QuotaEntry
distribute zero es = es
distribute (suc remaining) [] = []
distribute (suc remaining) (e ∷ es) = record e { quota = e.quota + 1 } ∷ distribute remaining es

unfoldable pub read_quotas : List QuotaEntry → DailyResearchAllocation → DailyResearchAllocation
read_quotas [] q = q
read_quotas (e ∷ es) q = read_quotas es (assign q e.bucket e.quota)

abbrev pub no_quotas : DailyResearchAllocation
no_quotas = record { for_new = 0; for_watch = 0; for_strong = 0 }

abbrev pub total_percent : DailyResearchAllocation → ℕ
total_percent a = a.for_new + a.for_watch + a.for_strong

-- `compare_remainders a b` is the sign of remainder b - remainder a.
module _ (compare_remainders : ℕ → ℕ → Ordering) where
  unfoldable pub compare_entries : QuotaEntry → QuotaEntry → Ordering
  compare_entries left right =
      or_else (compare_remainders left.scaled right.scaled)
        (compare (bucket_index left.bucket) (bucket_index right.bucket))

  unfoldable pub quotas_of : ℕ → DailyResearchAllocation → DailyResearchAllocation
  unfolding compare_entries
  quotas_of slots allocation =
      let entries = map (quota_entry slots allocation) buckets in
      let remaining = slots - sum_quotas entries in
      read_quotas (distribute remaining (sort_by compare_entries entries)) no_quotas

  unfoldable pub calculate_quotas :
      DailyResearchPlanInput → Result RangeError (ℕ × DailyResearchAllocation)
  calculate_quotas input = elim input.slots [
    | negsuc n ↦ err negative_slots
    | pos slots ↦
        if total_percent input.allocation == 100
        then ok (slots, quotas_of slots input.allocation)
        else err allocation_not_100
  ]

pub record Selection (V : Type 0) : Type 0 where
  pub selected : List (DailyResearchCandidate V)
  pub selected_ids : List String

abbrev pub push : {V : Type 0} → Selection V → DailyResearchCandidate V → Selection V
push s c = record { selected = s.selected ++ c ∷ []; selected_ids = s.selected_ids ++ c.id ∷ [] }

abbrev pub id_of : {V : Type 0} → DailyResearchCandidate V → String
id_of c = c.id

abbrev pub item_of : {V : Type 0} → DailyResearchCandidate V → ResearchPlanItem
item_of c = record { id = c.id; bucket = c.bucket }

abbrev pub is_eligible : {V : Type 0} → ResearchPlanBucket → DailyResearchCandidate V → Bool
is_eligible b c = same_bucket c.bucket b && not c.is_fresh

abbrev pub is_full : {V : Type 0} → ℕ → Selection V → Bool
is_full slots s = length s.selected == slots

-- The body of the second loop on one bucket; `break` leaves the selection as it is.
module _ {V : Type 0} where
  unfoldable pub push_all : List (DailyResearchCandidate V) → Selection V → Selection V
  push_all [] s = s
  push_all (c ∷ cs) s = push_all cs (push s c)

  unfoldable pub fill : ℕ → List (DailyResearchCandidate V) → Selection V → Selection V
  fill slots [] s = s
  fill slots (c ∷ cs) s =
      let next = fill slots cs (if includes s.selected_ids c.id then s else push s c) in
      if is_full slots s then s else next

module _ {V : Type 0} (compare_values : V → V → Ordering)
    (locale_compare : String → String → Ordering) where
  unfoldable pub compare_candidates : DailyResearchCandidate V → DailyResearchCandidate V → Ordering
  compare_candidates left right =
      or_else (compare_values right.information_value left.information_value)
        (locale_compare left.id right.id)

  unfoldable pub eligible :
      List (DailyResearchCandidate V) → ResearchPlanBucket → List (DailyResearchCandidate V)
  eligible candidates b = sort_by compare_candidates (filter (is_eligible b) candidates)

  -- The first loop: each bucket up to its quota.
  unfoldable pub take_quotas :
      List (DailyResearchCandidate V)
      → DailyResearchAllocation
      → List ResearchPlanBucket
      → Selection V
      → Selection V
  take_quotas candidates quotas [] s = s
  take_quotas candidates quotas (b ∷ bs) s =
      take_quotas candidates quotas bs (push_all (take (share quotas b) (eligible candidates b)) s)

  -- The second loop: what is left of each bucket, while slots are.
  unfoldable pub fill_buckets :
      List (DailyResearchCandidate V) → ℕ → List ResearchPlanBucket → Selection V → Selection V
  fill_buckets candidates slots [] s = s
  fill_buckets candidates slots (b ∷ bs) s =
      let next = fill_buckets candidates slots bs (fill slots (eligible candidates b) s) in
      if is_full slots s then s else next

  unfoldable pub select :
      List (DailyResearchCandidate V) → ℕ → DailyResearchAllocation → Selection V
  select candidates slots quotas =
      fill_buckets candidates slots buckets
        (take_quotas candidates quotas buckets (record { selected = []; selected_ids = [] }))

  unfoldable pub plan_of :
      List (DailyResearchCandidate V) → ℕ × DailyResearchAllocation → ResearchPlan
  plan_of candidates (slots, quotas) =
      let chosen = (select candidates slots quotas).selected in
      record { items = map item_of chosen; unfilled_slots = sub_ℕ slots (length chosen) }

  unfoldable pub plan_daily_research :
      (ℕ → ℕ → Ordering)
      → List (DailyResearchCandidate V)
      → DailyResearchPlanInput
      → Result RangeError ResearchPlan
  plan_daily_research compare_remainders candidates input = do
    quotas ← calculate_quotas compare_remainders input
    ok (plan_of candidates quotas)
