-- ===== src/Daily/Checkpoints.antt =====
-- The checkpoint of a daily run in apps/worker/src/jobs/daily-research.ts and
-- packages/shared/src/automation.ts, and the row that keeps it in the database, with the functions of
-- supabase/migrations/202608280017_daily_research_plan.sql and
-- supabase/migrations/202608280018_daily_research_checkpoint.sql.
use amazon_research_agent.Base.{
  ℕ, String, Bool, true, false, not, ◌&&◌, ◌||◌, Option, none, some, List, any, includes, is_empty,
  length, leb, ltb, ◌==◌, str_eq, if◌then◌else◌,
}
use amazon_research_agent.Planner.{ResearchPlanItem}

pub data CheckpointPhase : Type 0 where
  fanout fanout_complete : CheckpointPhase

abbrev pub is_complete : CheckpointPhase → Bool
is_complete fanout = false
is_complete fanout_complete = true

pub record DailyResearchCheckpoint : Type 0 where
  pub phase : CheckpointPhase
  pub selected_items : List ResearchPlanItem
  pub enqueued_candidate_ids : List String

-- A column that holds a checkpoint: the empty object, a checkpoint, or another object, of which the
-- database reads a phase and the number of enqueued ids.
pub data StoredCheckpoint : Type 0 where
  empty_object : StoredCheckpoint
  saved : DailyResearchCheckpoint → StoredCheckpoint
  unreadable : Option String → ℕ → StoredCheckpoint

-- `DailyResearchCheckpointSchema.safeParse`.
unfoldable pub parse_checkpoint : StoredCheckpoint → Option DailyResearchCheckpoint
parse_checkpoint empty_object = none
parse_checkpoint (saved checkpoint) = some checkpoint
parse_checkpoint (unreadable phase count) = none

-- The selected ids are an array of ids, or something that the schema refuses.
pub record DailyResearchRunRecord : Type 0 where
  pub id : String
  pub logical_run_date : String
  pub locale : String
  pub status : String
  pub mode : Option String
  pub selected_candidate_ids : Option (List String)
  pub checkpoint : StoredCheckpoint
  pub started_at : Option String
  pub completed_at : Option String

pub record RunUpdate : Type 0 where
  pub status : Option String
  pub checkpoint : Option StoredCheckpoint
  pub completed_at : Option String

abbrev pub or_given : {A : Type 0} → Option A → A → A
or_given none a = a
or_given (some b) a = b

abbrev pub phase_complete : Option DailyResearchCheckpoint → Bool
phase_complete none = false
phase_complete (some checkpoint) = is_complete checkpoint.phase

abbrev pub enqueued_count : Option DailyResearchCheckpoint → ℕ
enqueued_count none = 0
enqueued_count (some checkpoint) = length checkpoint.enqueued_candidate_ids

unfoldable pub can_advance_daily_research_checkpoint : DailyResearchRunRecord → RunUpdate → Bool
unfolding parse_checkpoint
can_advance_daily_research_checkpoint current next =
    let next_status = or_given next.status current.status in
    let current_parsed = parse_checkpoint current.checkpoint in
    let next_parsed = parse_checkpoint (or_given next.checkpoint current.checkpoint) in
    if str_eq current.status "completed" || phase_complete current_parsed
    then str_eq next_status "completed"
      && phase_complete next_parsed
      && leb (enqueued_count current_parsed) (enqueued_count next_parsed)
    else leb (enqueued_count current_parsed) (enqueued_count next_parsed)
      && (str_eq next_status "fanout" || str_eq next_status "completed")

-- The checkpoint of a run whose selected ids are those of its items.
unfoldable pub checkpoint_from_run :
    Option (List String) → StoredCheckpoint → Option DailyResearchCheckpoint
unfolding parse_checkpoint
checkpoint_from_run none stored = none
checkpoint_from_run (some ids) stored = elim (parse_checkpoint stored) [
  | none ↦ none
  | some checkpoint ↦
      if not (length checkpoint.selected_items == length ids)
        || any (λ item. not (includes ids item.id)) checkpoint.selected_items
      then none
      else some checkpoint
]

abbrev is_empty_object : StoredCheckpoint → Bool
is_empty_object empty_object = true
is_empty_object _ = false

abbrev is_empty_array : Option (List String) → Bool
is_empty_array none = false
is_empty_array (some ids) = is_empty ids

unfoldable pub is_unpublished_run : DailyResearchRunRecord → Bool
is_unpublished_run run = is_empty_array run.selected_candidate_ids && is_empty_object run.checkpoint

-- What the database reads of a checkpoint.
abbrev pub phase_text : CheckpointPhase → String
phase_text fanout = "fanout"
phase_text fanout_complete = "fanout_complete"

abbrev pub stored_phase : StoredCheckpoint → Option String
stored_phase empty_object = none
stored_phase (saved checkpoint) = some (phase_text checkpoint.phase)
stored_phase (unreadable phase count) = phase

abbrev pub stored_count : StoredCheckpoint → ℕ
stored_count empty_object = 0
stored_count (saved checkpoint) = length checkpoint.enqueued_candidate_ids
stored_count (unreadable phase count) = count

abbrev pub is_text : String → Option String → Bool
is_text text none = false
is_text text (some t) = str_eq t text

abbrev pub or_first : Option String → Option String → Option String
or_first none b = b
or_first (some a) b = some a

-- `publish_daily_research_plan` on the row of the run, and whether it was found.
unfoldable pub publish_daily_research_plan :
    List String
    → DailyResearchCheckpoint
    → String
    → DailyResearchRunRecord
    → Bool × DailyResearchRunRecord
publish_daily_research_plan ids checkpoint started_at run =
    if (str_eq run.status "queued" || str_eq run.status "planning" || str_eq run.status "fanout")
      && is_empty_array run.selected_candidate_ids
      && is_empty_object run.checkpoint
    then (
      true,
      record run {
        status = "fanout";
        selected_candidate_ids = some ids;
        checkpoint = saved checkpoint;
        started_at = or_first run.started_at (some started_at);
      },
    )
    else (false, run)

-- `advance_daily_research_checkpoint` on the row of the run. A comparison with a phase that is
-- missing is no success.
unfoldable pub advance_daily_research_checkpoint :
    String
    → StoredCheckpoint
    → Option String
    → DailyResearchRunRecord
    → Bool × DailyResearchRunRecord
advance_daily_research_checkpoint next_status next completed_at run =
    if str_eq run.status "completed" || is_text "fanout_complete" (stored_phase run.checkpoint)
    then (
      str_eq next_status "completed"
          && is_text "fanout_complete" (stored_phase next)
          && leb (stored_count run.checkpoint) (stored_count next),
      run,
    )
    else if ltb (stored_count next) (stored_count run.checkpoint)
        || not (str_eq next_status "fanout" || str_eq next_status "completed")
    then (false, run)
    else (
      true,
      record run {
        status = next_status;
        checkpoint = next;
        completed_at =
            if str_eq next_status "completed"
            then or_first run.completed_at completed_at
            else run.completed_at;
      },
    )
