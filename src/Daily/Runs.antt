-- ===== src/Daily/Runs.antt =====
-- `runDailyResearch` of apps/worker/src/jobs/daily-research.ts.
use Prim.Native.Nat.{Ordering}
use amazon_research_agent.Base.{
  String, Bool, false, not, ◌&&◌, ◌||◌, Option, none, some, List, [], ◌∷◌, map, includes, str_eq,
  if◌then◌else◌,
}
use amazon_research_agent.Base.Int.{ℤ}
use amazon_research_agent.Base.Sets.{add_id, id_set}
use amazon_research_agent.Base.Actions.{Ran, return, throw, ◌and_then◌, calling}
use amazon_research_agent.Base.Result.{ok, err}
use amazon_research_agent.Planner.{ResearchPlanItem}
use amazon_research_agent.Daily.Checkpoints.{
  DailyResearchCheckpoint, fanout, fanout_complete, is_complete, saved, DailyResearchRunRecord,
  RunUpdate, checkpoint_from_run, is_unpublished_run,
}
use amazon_research_agent.Daily.Fanout.{
  DailyError, daily_error, other_value, DailyResearchJobPayload, DailyDependencies, DailyEvent,
  publishing, updating, normalizing, notifying, enqueueing, Daily, reading, enqueue_item, when_do,
  send_digest, digest_key,
}

abbrev pub is_locale : String → Bool
is_locale locale = str_eq locale "ko" || str_eq locale "en"

abbrev checkpoint_of : Option DailyResearchRunRecord → Option DailyResearchCheckpoint
checkpoint_of none = none
checkpoint_of (some run) = checkpoint_from_run run.selected_candidate_ids run.checkpoint

abbrev is_completed : Option DailyResearchRunRecord → Bool
is_completed none = false
is_completed (some run) = str_eq run.status "completed"

abbrev pub fanout_update : DailyResearchCheckpoint → RunUpdate
fanout_update checkpoint = record {
  status = some "fanout";
  checkpoint = some (saved checkpoint);
  completed_at = none;
}

abbrev pub completion_update : String → DailyResearchCheckpoint → RunUpdate
completion_update at checkpoint = record {
  status = some "completed";
  checkpoint = some (saved checkpoint);
  completed_at = some at;
}

-- The loop returns the checkpoint of another worker, or goes on.
abbrev pub unless_adopted :
    {S : Type 0}
    → List String
    → Daily S (Option DailyResearchCheckpoint × List String)
    → Option DailyResearchCheckpoint
    → Daily S (Option DailyResearchCheckpoint × List String)
unless_adopted enqueued rest (some checkpoint) = return (some checkpoint, enqueued)
unless_adopted enqueued rest none = rest

module _ {S N : Type 0} (deps : DailyDependencies S N) where
  -- The checkpoint that another worker has completed, when a write is refused for it.
  unfoldable pub persist_daily_research_checkpoint :
      String → RunUpdate → Daily S (Option DailyResearchCheckpoint)
  unfolding checkpoint_from_run
  persist_daily_research_checkpoint run_id update =
      calling (updating update) (deps.update_run run_id update) and_then λ written.
      if written
      then return none
      else reading (deps.read_run run_id) and_then λ latest. elim (checkpoint_of latest) [
        | none ↦ throw (daily_error "Rejected stale daily research checkpoint write.")
        | some adopted ↦
            if is_completed latest && is_complete adopted.phase
            then return (some adopted)
            else throw (daily_error "Rejected stale daily research checkpoint write.")
      ]

  unfoldable pub normalize_all : List String → String → Daily S Unit
  normalize_all [] locale = return tt
  normalize_all (id ∷ ids) locale =
      calling (normalizing id) (deps.enqueue_normalization id locale) and_then λ _.
      normalize_all ids locale

  unfoldable pub enqueue_eligible_normalization_jobs : String → Daily S Unit
  unfolding normalize_all
  enqueue_eligible_normalization_jobs locale =
      reading deps.read_screening_candidates and_then λ candidates.
      normalize_all candidates locale and_then λ _. reading (deps.rearm_waiting_candidates locale)

  -- The `catch` of the digest passes over errors.
  abbrev pub ignoring_errors :
      {A : Type 0} → A → Ran DailyEvent S DailyError Unit → Ran DailyEvent S DailyError A
  ignoring_errors a (events, s, ok t) = (events, s, ok a)
  ignoring_errors a (events, s, err (daily_error message)) = (events, s, ok a)
  ignoring_errors a (events, s, err other_value) = (events, s, err other_value)

  unfoldable pub enqueue_digest_best_effort :
      String → String → DailyResearchCheckpoint → Daily S DailyResearchCheckpoint
  enqueue_digest_best_effort run_id locale checkpoint = λ s. ignoring_errors checkpoint (
      (calling (enqueueing (send_digest run_id) (digest_key run_id))
            (deps.enqueue_job (send_digest run_id) (digest_key run_id))
          and_then λ id.
              when_do deps.has_client (calling notifying (deps.insert_notification run_id locale)))
        s)

  unfoldable pub publish_selected_plan : DailyResearchRunRecord → Daily S DailyResearchCheckpoint
  unfolding checkpoint_from_run is_unpublished_run
  publish_selected_plan run =
      if not (is_unpublished_run run)
      then throw (daily_error "Daily research run has an invalid or partially persisted plan.")
      else reading deps.select_plan and_then λ plan.
          let ids = map (λ item. item.id) plan.items in
          let checkpoint : DailyResearchCheckpoint = record {
            phase = fanout;
            selected_items = plan.items;
            enqueued_candidate_ids = [];
          } in
          calling (publishing ids checkpoint)
            (deps.publish_plan run.id ids checkpoint deps.now_text)
          and_then λ published. reading (deps.read_run run.id) and_then λ persisted.
              elim (checkpoint_of persisted) [
                | some checkpoint ↦ return checkpoint
                | none ↦ throw (
                    daily_error (
                      if published
                      then "Daily research plan was published but could not be re-read before fanout."
                      else "Daily research plan was not persisted by this worker."))
              ]

  -- The durable run of the job, and its checkpoint, published when there is none.
  unfoldable pub open_run :
      DailyResearchJobPayload → Daily S (DailyResearchRunRecord × DailyResearchCheckpoint)
  unfolding publish_selected_plan checkpoint_from_run
  open_run payload =
      let mismatch : String = "Daily research job payload does not match its durable run." in
      reading (deps.read_run payload.research_run_id) and_then λ found. elim found [
        | none ↦ throw (daily_error mismatch)
        | some run ↦
            if not (str_eq run.logical_run_date payload.logical_run_date)
            then throw (daily_error mismatch)
            else if not (is_locale run.locale)
            then throw (daily_error "invalid locale")
            else if not (str_eq run.locale payload.locale)
            then throw (daily_error mismatch)
            else elim (checkpoint_from_run run.selected_candidate_ids run.checkpoint) [
              | some checkpoint ↦ return (run, checkpoint)
              | none ↦ publish_selected_plan run and_then λ checkpoint. return (run, checkpoint)
            ]
      ]

  module _ (parse_date : String → Option ℤ) (compare_text : String → String → Ordering) where
    -- The loop over the items that are left: the checkpoint of another worker that has completed the
    -- run meanwhile, or the ids that are enqueued at the end.
    unfoldable pub fan_out :
        ℤ
        → DailyResearchRunRecord
        → String
        → List ResearchPlanItem
        → List String
        → List ResearchPlanItem
        → Daily S (Option DailyResearchCheckpoint × List String)
    unfolding add_id enqueue_item persist_daily_research_checkpoint
    fan_out now run locale selected enqueued [] = return (none, enqueued)
    fan_out now run locale selected enqueued (item ∷ items) =
        if includes enqueued item.id
        then (λ s. fan_out now run locale selected enqueued items s)
        else enqueue_item parse_date compare_text deps now item locale run.id run.mode and_then λ _.
            let next = add_id enqueued item.id in
            persist_daily_research_checkpoint run.id (
              fanout_update (record {
                phase = fanout;
                selected_items = selected;
                enqueued_candidate_ids = next;
              }))
            and_then unless_adopted next (fan_out now run locale selected next items)

    unfoldable pub finish_run :
        DailyResearchRunRecord
        → String
        → List ResearchPlanItem
        → Option DailyResearchCheckpoint × List String
        → Daily S DailyResearchCheckpoint
    unfolding persist_daily_research_checkpoint enqueue_digest_best_effort
    finish_run run locale selected (some adopted, enqueued) =
        enqueue_digest_best_effort run.id locale adopted
    finish_run run locale selected (none, enqueued) =
        let checkpoint : DailyResearchCheckpoint = record {
          phase = fanout_complete;
          selected_items = selected;
          enqueued_candidate_ids = enqueued;
        } in
        persist_daily_research_checkpoint run.id (completion_update deps.now_text checkpoint)
        and_then λ completed. elim completed [
          | none ↦ enqueue_digest_best_effort run.id locale checkpoint
          | some adopted ↦ enqueue_digest_best_effort run.id locale adopted
        ]

    -- The run from its checkpoint on.
    unfoldable pub continue_run :
        ℤ
        → DailyResearchRunRecord
        → String
        → DailyResearchCheckpoint
        → Daily S DailyResearchCheckpoint
    unfolding id_set enqueue_eligible_normalization_jobs fan_out finish_run
    continue_run now run locale checkpoint =
        when_do deps.has_client (enqueue_eligible_normalization_jobs locale) and_then λ _.
        fan_out now run locale checkpoint.selected_items
          (id_set [] checkpoint.enqueued_candidate_ids) checkpoint.selected_items
        and_then finish_run run locale checkpoint.selected_items

    unfoldable pub run_daily_research : DailyResearchJobPayload → Daily S DailyResearchCheckpoint
    unfolding open_run continue_run
    run_daily_research payload = elim deps.now [
      | err e ↦ throw e
      | ok now ↦ open_run payload and_then λ (run, checkpoint).
          continue_run now run payload.locale checkpoint
    ]
