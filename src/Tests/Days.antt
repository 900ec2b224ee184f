-- ===== src/Tests/Days.antt =====
-- Runs of apps/worker/src/jobs/daily-research.ts.
use amazon_research_agent.Base.{
  ℕ, String, false, Option, none, some, List, [], ◌∷◌, ◌≡◌, refl, arith,
}
use amazon_research_agent.Base.Int.{pos}
use amazon_research_agent.Base.Result.{Result, ok, err}
use amazon_research_agent.Planner.{ResearchPlanItem, new, watch, strong}
use amazon_research_agent.Daily.Pages.{collect_daily_research_pages, window, collect-table}
use amazon_research_agent.Daily.Checkpoints.{
  DailyResearchCheckpoint, fanout, saved, empty_object, DailyResearchRunRecord, or_given,
  advance_daily_research_checkpoint, can_advance_daily_research_checkpoint,
}
use amazon_research_agent.Daily.Advances.{RunChange, publishing, advancing, can_advance-eq_advance}
use amazon_research_agent.Daily.Fanout.{DailyDependencies, daily_error}
use amazon_research_agent.Daily.Endings.{completed_checkpoint}

abbrev table : List String
table = "a" ∷ "b" ∷ "c" ∷ []

abbrev read_table : ℕ → ℕ → Result String (Option (List String))
read_table from to = ok (some (window table from to))

collect-table_example : collect_daily_research_pages read_table 1 ≡ ok (some table)
collect-table_example = collect-table read_table table (λ from to. refl) 1 (omega arith)

abbrev items : List ResearchPlanItem
items =
    record { id = "a"; bucket = new }
    ∷ record { id = "b"; bucket = strong }
    ∷ record { id = "c"; bucket = watch }
    ∷ []

abbrev checkpoint_with : List String → DailyResearchCheckpoint
checkpoint_with ids = record {
  phase = fanout;
  selected_items = items;
  enqueued_candidate_ids = ids;
}

abbrev run : DailyResearchRunRecord
run = record {
  id = "run";
  logical_run_date = "day";
  locale = "en";
  status = "fanout";
  mode = none;
  selected_candidate_ids = some table;
  checkpoint = saved (checkpoint_with ("b" ∷ []));
  started_at = none;
  completed_at = none;
}

abbrev completed_run : DailyResearchRunRecord
completed_run = record run { status = "completed" }

abbrev writes : List RunChange
writes =
    publishing table (checkpoint_with []) "now"
    ∷ advancing "fanout" empty_object none
    ∷ advancing "fanout" (saved (checkpoint_with table)) none
    ∷ []

can_advance-eq_advance_example :
    can_advance_daily_research_checkpoint run (record {
      status = some "fanout";
      checkpoint = some (saved (checkpoint_with []));
      completed_at = none;
    })
    ≡ (advance_daily_research_checkpoint "fanout" (saved (checkpoint_with [])) none run).0
can_advance-eq_advance_example = can_advance-eq_advance run "fanout" (checkpoint_with []) none refl

-- The world is the row of the run.
abbrev days : DailyDependencies DailyResearchRunRecord ℕ
days = record {
  has_client = false;
  now = ok (pos 0);
  now_text = "now";
  read_run = λ id s. (s, ok (some s));
  select_plan = λ s. (s, ok (record { items = items; unfilled_slots = pos 0 }));
  publish_plan = λ id ids checkpoint at s. (s, ok false);
  update_run = λ id update s.
      let (written, s') =
        advance_daily_research_checkpoint (or_given update.status "")
          (or_given update.checkpoint empty_object) update.completed_at s in
      (s', ok written);
  enqueue_job = λ job key s. (s, ok "job");
  load_context = λ id s. (s, err (daily_error "no client"));
  read_settings = λ s. (s, err (daily_error "no client"));
  read_evidence = λ id s. (s, err (daily_error "no client"));
  read_snapshot = λ id s. (s, err (daily_error "no client"));
  read_screening_candidates = λ s. (s, ok []);
  enqueue_normalization = λ id locale s. (s, ok tt);
  rearm_waiting_candidates = λ locale s. (s, ok tt);
  insert_notification = λ id locale s. (s, ok tt);
}

abbrev resumed : DailyResearchCheckpoint
resumed = checkpoint_with ("b" ∷ [])

abbrev at_the_end : DailyResearchCheckpoint
at_the_end = completed_checkpoint items ("b" ∷ "a" ∷ "c" ∷ [])
