-- ===== src/Daily/Outcomes.antt =====
-- Theorems on the result of a run of apps/worker/src/jobs/daily-research.ts.
use Prim.Native.Nat.{Ordering}
use amazon_research_agent.Base.{
  String, true, Option, none, some, List, [], ◌∷◌, ◌++◌, ◌≡◌, refl, arith, str_eq, includes,
  Bool-cases, inl, inr,
}
use amazon_research_agent.Base.Int.{ℤ}
use amazon_research_agent.Base.Sets.{add_id}
use amazon_research_agent.Base.Actions.{Ran, continue_with}
use amazon_research_agent.Base.Result.{ok, err, Result-cases}
use amazon_research_agent.Planner.{ResearchPlanItem}
use amazon_research_agent.Daily.Checkpoints.{
  DailyResearchCheckpoint, fanout, is_complete, DailyResearchRunRecord, RunUpdate,
  checkpoint_from_run,
}
use amazon_research_agent.Daily.Fanout.{
  DailyError, DailyDependencies, DailyEvent, Daily, enqueue_item,
}
use amazon_research_agent.Daily.Runs.{
  persist_daily_research_checkpoint, fan_out, fanout_update, unless_adopted,
}
use amazon_research_agent.Daily.Coverage.{fan_out-new, fan_out-known, write_and_go_on}

module _ {S N : Type 0} (deps : DailyDependencies S N) (run_id : String) where
  -- A row that the run has read is completed, and keeps the checkpoint.
  pub record IsAdopted (checkpoint : DailyResearchCheckpoint) : Type 0 where
    pub world : S
    pub row : DailyResearchRunRecord
    pub was_read : (deps.read_run run_id world).1 ≡ ok (some row)
    pub same_checkpoint :
        checkpoint_from_run row.selected_candidate_ids row.checkpoint ≡ some checkpoint
    pub row_completed : str_eq row.status "completed" ≡ true
    pub phase_complete : is_complete checkpoint.phase ≡ true

  persist-IsAdopted :
      (update : RunUpdate) (s : S) (checkpoint : DailyResearchCheckpoint)
      → (persist_daily_research_checkpoint deps run_id update s).2 ≡ ok (some checkpoint)
      → IsAdopted checkpoint
  unfolding persist_daily_research_checkpoint
  persist-IsAdopted update s checkpoint h =
      let w = (deps.update_run run_id update s).0 in
      elim (Result-cases (deps.read_run run_id w).1) [
        | inl (none, e) ↦ absurd (ground arith)
        | inl (some row, e) ↦ record {
          world = w;
          row = row;
          was_read = e;
          same_checkpoint = ground arith;
          row_completed = ground arith;
          phase_complete = ground arith;
        }
        | inr (error, e) ↦ absurd (ground arith)
      ]

  -- A step of a run returns a checkpoint only when it was adopted.
  abbrev pub Adopts : Ran DailyEvent S DailyError (Option DailyResearchCheckpoint) → Type 0
  Adopts (events, s, ok (some checkpoint)) = IsAdopted checkpoint
  Adopts (events, s, ok none) = Unit
  Adopts (events, s, err e) = Unit

  abbrev pub LoopAdopts :
      Ran DailyEvent S DailyError (Option DailyResearchCheckpoint × List String) → Type 0
  LoopAdopts (events, s, ok (some checkpoint, reached)) = IsAdopted checkpoint
  LoopAdopts (events, s, ok (none, reached)) = Unit
  LoopAdopts (events, s, err e) = Unit

  Adopts-of_result :
      (ran : Ran DailyEvent S DailyError (Option DailyResearchCheckpoint))
      → ((checkpoint : DailyResearchCheckpoint)
          → ran.2 ≡ ok (some checkpoint)
          → IsAdopted checkpoint)
      → Adopts ran
  Adopts-of_result (events, s, ok (some checkpoint)) h = h checkpoint refl
  Adopts-of_result (events, s, ok none) h = tt
  Adopts-of_result (events, s, err e) h = tt

  pub persist-Adopts :
      (update : RunUpdate) (s : S) → Adopts (persist_daily_research_checkpoint deps run_id update s)
  persist-Adopts update s =
      Adopts-of_result (persist_daily_research_checkpoint deps run_id update s)
        (λ checkpoint. persist-IsAdopted update s checkpoint)

  LoopAdopts-before :
      (before : List DailyEvent)
      (ran : Ran DailyEvent S DailyError (Option DailyResearchCheckpoint × List String))
      → LoopAdopts ran
      → LoopAdopts (before ++ ran.0, ran.1, ran.2)
  LoopAdopts-before before (events, s, ok (some checkpoint, reached)) h = h
  LoopAdopts-before before (events, s, ok (none, reached)) h = tt
  LoopAdopts-before before (events, s, err e) h = tt

  written-LoopAdopts :
      (next : List String) (rest : Daily S (Option DailyResearchCheckpoint × List String))
      (ran : Ran DailyEvent S DailyError (Option DailyResearchCheckpoint))
      → Adopts ran
      → ((s : S) → LoopAdopts (rest s))
      → LoopAdopts (continue_with ran (unless_adopted next rest))
  written-LoopAdopts next rest (events, s, ok none) h f = LoopAdopts-before events (rest s) (f s)
  written-LoopAdopts next rest (events, s, ok (some checkpoint)) h f = h
  written-LoopAdopts next rest (events, s, err e) h f = tt

module _ {S N : Type 0} (parse_date : String → Option ℤ) (compare_text : String → String → Ordering)
    (deps : DailyDependencies S N) (now : ℤ) (run : DailyResearchRunRecord) (locale : String)
    (selected : List ResearchPlanItem) where
  new-LoopAdopts :
      (items : List ResearchPlanItem) (enqueued : List String) (item : ResearchPlanItem)
      (ran : Ran DailyEvent S DailyError Unit)
      → ((s : S)
          → LoopAdopts deps run.id (
              fan_out deps parse_date compare_text now run locale selected
                (add_id enqueued item.id)
                items
                s))
      → LoopAdopts deps run.id (
          continue_with ran (
            write_and_go_on parse_date compare_text deps now run locale selected items enqueued
              item))
  new-LoopAdopts items enqueued item (events, s, ok t) f =
      let next = add_id enqueued item.id in
      let update =
        fanout_update
          (record { phase = fanout; selected_items = selected; enqueued_candidate_ids = next }) in
      let rest = fan_out deps parse_date compare_text now run locale selected next items in
      let written = persist_daily_research_checkpoint deps run.id update s in
      LoopAdopts-before deps run.id events (continue_with written (unless_adopted next rest))
        (written-LoopAdopts deps run.id next rest written (persist-Adopts deps run.id update s) f)
  new-LoopAdopts items enqueued item (events, s, err e) f = tt

  pub fan_out-LoopAdopts :
      (items : List ResearchPlanItem) (enqueued : List String) (s : S)
      → LoopAdopts deps run.id
          (fan_out deps parse_date compare_text now run locale selected enqueued items s)
  fan_out-LoopAdopts [] enqueued s = unfold fan_out in tt
  fan_out-LoopAdopts (item ∷ items) enqueued s = elim (Bool-cases (includes enqueued item.id)) [
    | inl e ↦
        rw
          (fan_out-known parse_date compare_text deps now run locale selected items enqueued item s
            e).0
          (fan_out-LoopAdopts items enqueued s)
    | inr e ↦
        rw
          (fan_out-new parse_date compare_text deps now run locale selected items enqueued item s e)
          (new-LoopAdopts items enqueued item
            (enqueue_item parse_date compare_text deps now item locale run.id run.mode s)
            (fan_out-LoopAdopts items (add_id enqueued item.id)))
  ]
