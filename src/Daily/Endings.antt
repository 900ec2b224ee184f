-- ===== src/Daily/Endings.antt =====
-- Lemmas on the end of a run of apps/worker/src/jobs/daily-research.ts.
use amazon_research_agent.Base.{
  String, Option, none, some, List, [], ◌∷◌, ◌++◌, ◌≡◌, refl, arith, sym, subst, ◌⊎◌, inl, inr,
}
use amazon_research_agent.Base.Actions.{Ran, continue_with}
use amazon_research_agent.Base.Result.{ok, err}
use amazon_research_agent.Planner.{ResearchPlanItem}
use amazon_research_agent.Daily.Checkpoints.{DailyResearchCheckpoint, fanout_complete}
use amazon_research_agent.Daily.Fanout.{DailyError, DailyDependencies, DailyEvent, Daily, when_do}
use amazon_research_agent.Daily.Runs.{
  enqueue_digest_best_effort, enqueue_eligible_normalization_jobs, normalize_all,
}
use amazon_research_agent.Daily.Coverage.{handled, handled-append}
use amazon_research_agent.Daily.Outcomes.{IsAdopted, Adopts}

-- The checkpoint of a run that has handled all that was pending.
abbrev pub completed_checkpoint : List ResearchPlanItem → List String → DailyResearchCheckpoint
completed_checkpoint selected enqueued = record {
  phase = fanout_complete;
  selected_items = selected;
  enqueued_candidate_ids = enqueued;
}

module _ {S N : Type 0} (deps : DailyDependencies S N) (run_id : String) where
  -- The last steps handle nothing, and return the checkpoint, unless another one was adopted.
  abbrev pub IsEnd :
      DailyResearchCheckpoint → Ran DailyEvent S DailyError DailyResearchCheckpoint → Type 0
  IsEnd own (events, s, ok checkpoint) =
      (handled events ≡ []) × ((checkpoint ≡ own) ⊎ IsAdopted deps run_id checkpoint)
  IsEnd own (events, s, err e) = handled events ≡ []

  pub digest-IsEnd :
      (locale : String) (checkpoint : DailyResearchCheckpoint) (s : S)
      → IsEnd checkpoint (enqueue_digest_best_effort deps run_id locale checkpoint s)
  unfolding enqueue_digest_best_effort handled
  digest-IsEnd locale checkpoint s = ground arith

  IsEnd-before :
      (own : DailyResearchCheckpoint) (before : List DailyEvent)
      (ran : Ran DailyEvent S DailyError DailyResearchCheckpoint)
      → handled before ≡ []
      → IsEnd own ran
      → IsEnd own (before ++ ran.0, ran.1, ran.2)
  IsEnd-before own before (events, s, ok checkpoint) h f = rw (handled-append before events, h) f
  IsEnd-before own before (events, s, err e) h f = rw (handled-append before events, h) f

  IsEnd-of_adopted :
      (own adopted : DailyResearchCheckpoint)
      (ran : Ran DailyEvent S DailyError DailyResearchCheckpoint)
      → IsAdopted deps run_id adopted
      → IsEnd adopted ran
      → IsEnd own ran
  IsEnd-of_adopted own adopted (events, s, ok checkpoint) a (h, inl same) =
      (h, inr (subst (λ c. IsAdopted deps run_id c) (sym same) a))
  IsEnd-of_adopted own adopted (events, s, ok checkpoint) a (h, inr other) = (h, inr other)
  IsEnd-of_adopted own adopted (events, s, err e) a h = h

  abbrev pub after_completion :
      String
      → DailyResearchCheckpoint
      → Option DailyResearchCheckpoint
      → Daily S DailyResearchCheckpoint
  after_completion locale own none = enqueue_digest_best_effort deps run_id locale own
  after_completion locale own (some adopted) = enqueue_digest_best_effort deps run_id locale adopted

  pub completion-IsEnd :
      (locale : String) (own : DailyResearchCheckpoint)
      (ran : Ran DailyEvent S DailyError (Option DailyResearchCheckpoint))
      → handled ran.0 ≡ []
      → Adopts deps run_id ran
      → IsEnd own (continue_with ran (after_completion locale own))
  completion-IsEnd locale own (events, s, ok none) h a =
      IsEnd-before own events (enqueue_digest_best_effort deps run_id locale own s) h
        (digest-IsEnd locale own s)
  completion-IsEnd locale own (events, s, ok (some adopted)) h a =
      let digest = enqueue_digest_best_effort deps run_id locale adopted s in
      IsEnd-before own events digest h
        (IsEnd-of_adopted own adopted digest a (digest-IsEnd locale adopted s))
  completion-IsEnd locale own (events, s, err e) h a = h

  normalize_all-handled :
      (ids : List String) (locale : String) (s : S)
      → handled (normalize_all deps ids locale s).0 ≡ []
  unfolding normalize_all handled
  normalize_all-handled [] locale s = refl
  normalize_all-handled (id ∷ ids) locale s =
      let call = deps.enqueue_normalization id locale s in
      ground (arith, normalize_all-handled ids locale call.0)

  pub normalization-handled :
      (locale : String) (s : S)
      → handled (when_do deps.has_client (enqueue_eligible_normalization_jobs deps locale) s).0 ≡ []
  unfolding enqueue_eligible_normalization_jobs handled
  normalization-handled locale s = grind (arith, normalize_all-handled, handled-append)
