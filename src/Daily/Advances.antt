-- ===== src/Daily/Advances.antt =====
-- Theorems on the row of a daily run under the functions of
-- supabase/migrations/202608280017_daily_research_plan.sql and
-- supabase/migrations/202608280018_daily_research_checkpoint.sql.
use amazon_research_agent.Base.{
  String, Bool, true, false, ◌||◌, Option, some, List, [], ◌∷◌, ◌≡◌, refl, arith, ◌≤◌, str_eq,
}
use amazon_research_agent.Daily.Checkpoints.{
  DailyResearchCheckpoint, StoredCheckpoint, saved, unreadable, empty_object,
  DailyResearchRunRecord, stored_count, stored_phase, is_text, publish_daily_research_plan,
  advance_daily_research_checkpoint, can_advance_daily_research_checkpoint, parse_checkpoint,
  phase_complete, phase_text, is_complete, CheckpointPhase, fanout, fanout_complete, enqueued_count,
}

-- A write to the row, by whichever worker.
pub data RunChange : Type 0 where
  publishing : List String → DailyResearchCheckpoint → String → RunChange
  advancing : String → StoredCheckpoint → Option String → RunChange

unfoldable pub change : RunChange → DailyResearchRunRecord → DailyResearchRunRecord
change (publishing ids checkpoint at) run = (publish_daily_research_plan ids checkpoint at run).1
change (advancing status checkpoint at) run =
    (advance_daily_research_checkpoint status checkpoint at run).1

unfoldable pub changes : List RunChange → DailyResearchRunRecord → DailyResearchRunRecord
unfolding change
changes [] run = run
changes (c ∷ cs) run = changes cs (change c run)

change-count :
    (c : RunChange) (run : DailyResearchRunRecord)
    → stored_count run.checkpoint ≤ stored_count (change c run).checkpoint
unfolding change publish_daily_research_plan advance_daily_research_checkpoint
change-count (publishing ids checkpoint at) run = ground arith
change-count (advancing status checkpoint at) run = ground arith

-- Whichever workers publish plans and save checkpoints for a run, and in whichever order, the number
-- of enqueued candidates that its row keeps never falls.
pub changes-count :
    (cs : List RunChange) (run : DailyResearchRunRecord)
    → stored_count run.checkpoint ≤ stored_count (changes cs run).checkpoint
unfolding changes
changes-count [] run = omega arith
changes-count (c ∷ cs) run = omega (arith, change-count c run, changes-count cs (change c run))

abbrev pub is_final : DailyResearchRunRecord → Bool
is_final run =
    str_eq run.status "completed" || is_text "fanout_complete" (stored_phase run.checkpoint)

abbrev pub is_readable : StoredCheckpoint → Bool
is_readable (unreadable phase count) = false
is_readable _ = true

phase_text-eq :
    (phase : CheckpointPhase) → str_eq (phase_text phase) "fanout_complete" ≡ is_complete phase
phase_text-eq fanout = refl
phase_text-eq fanout_complete = refl

-- What both sides read of a row's checkpoint.
stored_phase-eq :
    (stored : StoredCheckpoint)
    → is_readable stored ≡ true
    → (is_text "fanout_complete" (stored_phase stored) ≡ phase_complete (parse_checkpoint stored))
      × (stored_count stored ≡ enqueued_count (parse_checkpoint stored))
unfolding parse_checkpoint
stored_phase-eq empty_object h = (refl, refl)
stored_phase-eq (saved checkpoint) h = (phase_text-eq checkpoint.phase, refl)
stored_phase-eq (unreadable phase count) h = absurd (cc h)

-- The check of the worker and the function of the database agree: on a row whose checkpoint can be
-- read, the database accepts an update with a status and a checkpoint exactly when the worker's check
-- says that the run can advance by it.
pub can_advance-eq_advance :
    (run : DailyResearchRunRecord) (status : String) (next : DailyResearchCheckpoint)
    (completed_at : Option String)
    → is_readable run.checkpoint ≡ true
    → can_advance_daily_research_checkpoint run (record {
      status = some status;
      checkpoint = some (saved next);
      completed_at = completed_at;
    })
      ≡ (advance_daily_research_checkpoint status (saved next) completed_at run).0
unfolding can_advance_daily_research_checkpoint advance_daily_research_checkpoint
can_advance-eq_advance run status next completed_at h =
    ground (arith, stored_phase-eq run.checkpoint h, stored_phase-eq (saved next) refl)
