-- ===== src/Daily/Continued.antt =====
-- Theorems on what a run of apps/worker/src/jobs/daily-research.ts handles and returns.
use Prim.Native.Nat.{Ordering}
use amazon_research_agent.Base.{String, Option, List, [], ◌++◌, ◌≡◌, ◌⊎◌}
use amazon_research_agent.Base.Int.{ℤ}
use amazon_research_agent.Base.Sets.{id_set}
use amazon_research_agent.Base.Actions.{Ran, ◌and_then◌}
use amazon_research_agent.Base.Result.{ok, err}
use amazon_research_agent.Planner.{ResearchPlanItem}
use amazon_research_agent.Daily.Checkpoints.{DailyResearchCheckpoint, DailyResearchRunRecord}
use amazon_research_agent.Daily.Fanout.{DailyError, DailyDependencies, DailyEvent, Daily}
use amazon_research_agent.Daily.Runs.{fan_out, finish_run}
use amazon_research_agent.Daily.Coverage.{handled, pending}
use amazon_research_agent.Daily.Endings.{completed_checkpoint}
use amazon_research_agent.Daily.Outcomes.{IsAdopted}

module _ {S N : Type 0} (parse_date : String → Option ℤ) (compare_text : String → String → Ordering)
    (deps : DailyDependencies S N) (now : ℤ) (run : DailyResearchRunRecord) (locale : String) where
  -- Where a run from a checkpoint ends: it has handled pending candidates in order, each once, and
  -- returns only after all of them, with their checkpoint, or with one that it has adopted.
  abbrev IsContinued :
      List String
      → List ResearchPlanItem
      → Ran DailyEvent S DailyError DailyResearchCheckpoint
      → Type 0
  IsContinued enqueued selected (events, s, ok checkpoint) =
      ((rest : List String) × (handled events ++ rest ≡ pending enqueued selected))
      × (((handled events ≡ pending enqueued selected)
            × (checkpoint ≡ completed_checkpoint selected (enqueued ++ pending enqueued selected)))
          ⊎ IsAdopted deps run.id checkpoint)
  IsContinued enqueued selected (events, s, err e) =
      (rest : List String) × (handled events ++ rest ≡ pending enqueued selected)

  -- The run after the normalizations.
  abbrev from_loop : DailyResearchCheckpoint → Unit {0} → Daily S DailyResearchCheckpoint
  from_loop checkpoint t =
      fan_out deps parse_date compare_text now run locale checkpoint.selected_items
        (id_set [] checkpoint.enqueued_candidate_ids) checkpoint.selected_items
      and_then finish_run deps parse_date compare_text run locale checkpoint.selected_items
