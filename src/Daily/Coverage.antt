-- ===== src/Daily/Coverage.antt =====
-- Theorems on the fanout of apps/worker/src/jobs/daily-research.ts.
use Prim.Native.Nat.{Ordering}
use mathlib.Core.List.{append-nil, append_assoc}
use amazon_research_agent.Base.{
  String, Bool, true, false, Option, none, some, List, [], ◌∷◌, ◌++◌, ◌≡◌, refl, ap, arith, sym,
  ◌∙◌, includes, if◌then◌else◌, Bool-cases, inl, inr,
}
use amazon_research_agent.Base.Int.{ℤ}
use amazon_research_agent.Base.Sets.{add_id}
use amazon_research_agent.Base.Actions.{Ran, continue_with, ◌and_then◌}
use amazon_research_agent.Base.Result.{ok, err}
use amazon_research_agent.Planner.{ResearchPlanItem}
use amazon_research_agent.Shared.Endpoints.{JungleScoutEndpoint}
use amazon_research_agent.Daily.Checkpoints.{
  DailyResearchCheckpoint, fanout, DailyResearchRunRecord, RunUpdate,
}
use amazon_research_agent.Daily.Fanout.{
  DailyError, DailyDependencies, DailyEvent, handling, Daily, enqueue_item,
  enqueue_decision_aware_child, load_missing_admitted_endpoints, enqueue_missing,
}
use amazon_research_agent.Daily.Runs.{
  persist_daily_research_checkpoint, fan_out, unless_adopted, fanout_update,
}

-- The candidates that a run handles, in order.
unfoldable pub handled : List DailyEvent → List String
handled [] = []
handled (handling id ∷ events) = id ∷ handled events
handled (_ ∷ events) = handled events

pub handled-append :
    (events more : List DailyEvent) → handled (events ++ more) ≡ handled events ++ handled more
unfolding handled
handled-append [] more = refl
handled-append (event ∷ events) more = ground (arith, handled-append events more)

-- The candidates that a run has to handle: the selected ones that are not enqueued, each once.
unfoldable pub pending : List String → List ResearchPlanItem → List String
unfolding add_id
pending enqueued [] = []
pending enqueued (item ∷ items) =
    if includes enqueued item.id
    then pending enqueued items
    else item.id ∷ pending (add_id enqueued item.id) items

if_false_at :
    {A B : Type 0} (b : Bool) (x y : A → B) (a : A) → b ≡ false → (if b then x else y) a ≡ y a
if_false_at b x y a e = rw e refl

module _ {S N : Type 0} (parse_date : String → Option ℤ) (compare_text : String → String → Ordering)
    (deps : DailyDependencies S N) where
  enqueue_missing-handled :
      (now : ℤ) (item : ResearchPlanItem) (locale run_id : String) (mode suffix : Option String)
      (missing : List JungleScoutEndpoint) (s : S)
      → handled
          (enqueue_missing parse_date compare_text deps now item locale run_id mode suffix missing
            s).0
        ≡ []
  unfolding enqueue_missing handled
  enqueue_missing-handled now item locale run_id mode suffix missing s = ground arith

  enqueue_item-handled :
      (now : ℤ) (item : ResearchPlanItem) (locale run_id : String) (mode : Option String) (s : S)
      → handled (enqueue_item parse_date compare_text deps now item locale run_id mode s).0
        ≡ item.id ∷ []
  unfolding enqueue_item enqueue_decision_aware_child load_missing_admitted_endpoints handled
  enqueue_item-handled now item locale run_id mode s =
      grind (arith, enqueue_missing-handled now item locale run_id mode)

  pub persist-handled :
      (run_id : String) (update : RunUpdate) (s : S)
      → handled (persist_daily_research_checkpoint deps run_id update s).0 ≡ []
  unfolding persist_daily_research_checkpoint handled
  persist-handled run_id update s = ground arith

  -- A run of the loop handles the pending candidates in order, all of them unless it stops early.
  abbrev pub IsFannedOut :
      List String
      → List ResearchPlanItem
      → Ran DailyEvent S DailyError (Option DailyResearchCheckpoint × List String)
      → Type 0
  IsFannedOut enqueued items (events, s, ok (none, reached)) =
      (handled events ≡ pending enqueued items) × (reached ≡ enqueued ++ pending enqueued items)
  IsFannedOut enqueued items (events, s, ok (some checkpoint, reached)) =
      (rest : List String) × (handled events ++ rest ≡ pending enqueued items)
  IsFannedOut enqueued items (events, s, err e) =
      (rest : List String) × (handled events ++ rest ≡ pending enqueued items)

  add_id-new :
      (ids : List String) (id : String) → includes ids id ≡ false → add_id ids id ≡ ids ++ id ∷ []
  unfolding add_id
  add_id-new ids id h = rw h refl

  pending-cons :
      (enqueued : List String) (item : ResearchPlanItem) (items : List ResearchPlanItem)
      → includes enqueued item.id ≡ false
      → pending enqueued (item ∷ items) ≡ item.id ∷ pending (add_id enqueued item.id) items
  unfolding pending
  pending-cons enqueued item items h = rw h refl

  -- What was handled before a run of the loop comes before what that run handles.
  prepended :
      (enqueued next first : List String) (items rest : List ResearchPlanItem)
      (before : List DailyEvent)
      (ran : Ran DailyEvent S DailyError (Option DailyResearchCheckpoint × List String))
      → handled before ≡ first
      → pending enqueued items ≡ first ++ pending next rest
      → next ≡ enqueued ++ first
      → IsFannedOut next rest ran
      → IsFannedOut enqueued items (before ++ ran.0, ran.1, ran.2)
  prepended enqueued next first items rest before (events, s, ok (none, reached)) h p n f =
      rw (handled-append before events, h, p)
        (
          ap (λ l. first ++ l) f.0,
          f.1
              ∙ ap (λ l. l ++ pending next rest) n
              ∙ append_assoc enqueued first (pending next rest),
        )
  prepended enqueued next first items rest before (events, s, ok (some checkpoint, reached)) h p n
        f =
      rw (handled-append before events, h, p)
        (f.0, append_assoc first (handled events) f.0 ∙ ap (λ l. first ++ l) f.1)
  prepended enqueued next first items rest before (events, s, err e) h p n f =
      rw (handled-append before events, h, p)
        (f.0, append_assoc first (handled events) f.0 ∙ ap (λ l. first ++ l) f.1)

  after_write :
      (now : ℤ) (run : DailyResearchRunRecord) (locale : String)
      (selected items : List ResearchPlanItem) (enqueued : List String)
      (ran : Ran DailyEvent S DailyError (Option DailyResearchCheckpoint))
      → handled ran.0 ≡ []
      → ((s : S)
          → IsFannedOut enqueued items
              (fan_out deps parse_date compare_text now run locale selected enqueued items s))
      → IsFannedOut enqueued items (
          continue_with ran (
            unless_adopted enqueued
              (fan_out deps parse_date compare_text now run locale selected enqueued items)))
  after_write now run locale selected items enqueued (events, s, ok none) h f =
      prepended enqueued enqueued [] items items events
        (fan_out deps parse_date compare_text now run locale selected enqueued items s) h refl
        (sym (append-nil enqueued)) (f s)
  after_write now run locale selected items enqueued (events, s, ok (some checkpoint)) h f =
      rw (append-nil events, h) (pending enqueued items, refl)
  after_write now run locale selected items enqueued (events, s, err e) h f =
      rw h (pending enqueued items, refl)

  abbrev pub write_and_go_on :
      ℤ
      → DailyResearchRunRecord
      → String
      → List ResearchPlanItem
      → List ResearchPlanItem
      → List String
      → ResearchPlanItem
      → Unit {0}
      → Daily S (Option DailyResearchCheckpoint × List String)
  write_and_go_on now run locale selected items enqueued item t =
      persist_daily_research_checkpoint deps run.id (
        fanout_update (record {
          phase = fanout;
          selected_items = selected;
          enqueued_candidate_ids = add_id enqueued item.id;
        }))
      and_then unless_adopted (add_id enqueued item.id) (
          fan_out deps parse_date compare_text now run locale selected (add_id enqueued item.id)
            items)

  after_item :
      (now : ℤ) (run : DailyResearchRunRecord) (locale : String)
      (selected items : List ResearchPlanItem) (enqueued : List String) (item : ResearchPlanItem)
      (ran : Ran DailyEvent S DailyError Unit)
      → includes enqueued item.id ≡ false
      → handled ran.0 ≡ item.id ∷ []
      → ((s : S)
          → IsFannedOut (add_id enqueued item.id) items (
              fan_out deps parse_date compare_text now run locale selected
                (add_id enqueued item.id)
                items
                s))
      → IsFannedOut enqueued
          (item ∷ items)
          (continue_with ran (write_and_go_on now run locale selected items enqueued item))
  after_item now run locale selected items enqueued item (events, s, ok t) n h f =
      let next = add_id enqueued item.id in
      let update =
        fanout_update
          (record { phase = fanout; selected_items = selected; enqueued_candidate_ids = next }) in
      let written = persist_daily_research_checkpoint deps run.id update s in
      prepended enqueued next (item.id ∷ []) (item ∷ items) items events
        (continue_with written (
          unless_adopted next
            (fan_out deps parse_date compare_text now run locale selected next items)))
        h (pending-cons enqueued item items n) (add_id-new enqueued item.id n)
        (after_write now run locale selected items next written (persist-handled run.id update s) f)
  after_item now run locale selected items enqueued item (events, s, err e) n h f =
      rw (h, pending-cons enqueued item items n) (pending (add_id enqueued item.id) items, refl)

  -- One round of the loop.
  pub fan_out-known :
      (now : ℤ) (run : DailyResearchRunRecord) (locale : String)
      (selected items : List ResearchPlanItem) (enqueued : List String) (item : ResearchPlanItem)
      (s : S)
      → includes enqueued item.id ≡ true
      → (fan_out deps parse_date compare_text now run locale selected enqueued (item ∷ items) s
          ≡ fan_out deps parse_date compare_text now run locale selected enqueued items s)
        × (pending enqueued (item ∷ items) ≡ pending enqueued items)
  unfolding fan_out pending
  fan_out-known now run locale selected items enqueued item s e = (rw e refl, rw e refl)

  pub fan_out-new :
      (now : ℤ) (run : DailyResearchRunRecord) (locale : String)
      (selected items : List ResearchPlanItem) (enqueued : List String) (item : ResearchPlanItem)
      (s : S)
      → includes enqueued item.id ≡ false
      → fan_out deps parse_date compare_text now run locale selected enqueued (item ∷ items) s
        ≡ continue_with
            (enqueue_item parse_date compare_text deps now item locale run.id run.mode s)
            (write_and_go_on now run locale selected items enqueued item)
  unfolding fan_out add_id
  fan_out-new now run locale selected items enqueued item s e =
      if_false_at (includes enqueued item.id) _ _ s e

  pub fan_out-IsFannedOut :
      (now : ℤ) (run : DailyResearchRunRecord) (locale : String)
      (selected items : List ResearchPlanItem) (enqueued : List String) (s : S)
      → IsFannedOut enqueued items
          (fan_out deps parse_date compare_text now run locale selected enqueued items s)
  fan_out-IsFannedOut now run locale selected [] enqueued s =
      unfold fan_out pending handled in (refl, sym (append-nil enqueued))
  fan_out-IsFannedOut now run locale selected (item ∷ items) enqueued s =
      elim (Bool-cases (includes enqueued item.id)) [
        | inl e ↦
            let (same, skipped) = fan_out-known now run locale selected items enqueued item s e in
            let ran =
              fan_out deps parse_date compare_text now run locale selected enqueued items s in
            rw same (
              prepended enqueued enqueued [] (item ∷ items) items [] ran (unfold handled in refl)
                skipped (sym (append-nil enqueued))
                (fan_out-IsFannedOut now run locale selected items enqueued s))
        | inr e ↦ rw (fan_out-new now run locale selected items enqueued item s e) (
            after_item now run locale selected items enqueued item
              (enqueue_item parse_date compare_text deps now item locale run.id run.mode s) e
              (enqueue_item-handled now item locale run.id run.mode s)
              (λ s'.
                fan_out-IsFannedOut now run locale selected items (add_id enqueued item.id) s'))
      ]
