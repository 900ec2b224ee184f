-- ===== src/Tests/Children.antt =====
-- The jobs of one candidate of apps/worker/src/jobs/daily-research.ts.
use amazon_research_agent.Base.{ℕ, true, false, none, [], ◌∷◌, ◌≡◌, refl, All, includes}
use amazon_research_agent.Base.Int.{pos}
use amazon_research_agent.Base.Result.{ok, err}
use amazon_research_agent.Business.Evidence.{unknown}
use amazon_research_agent.Business.Admission.{admit, has_known_profitability_failure}
use amazon_research_agent.Business.Assessment.{assessed, stage_of, first_gaps}
use amazon_research_agent.Business.Costs.{
  sum_known, amazon_fees, estimated_launch_cash, estimated_unit_contribution,
  profitability_targets_pass, estimated_margin,
}
use amazon_research_agent.Shared.Endpoints.{normal_validation}
use amazon_research_agent.Planner.{ResearchPlanItem, watch}
use amazon_research_agent.Daily.Fanout.{
  DailyDependencies, handling, enqueueing, market_probe, probe_key, daily_error, enqueue_item,
}
use amazon_research_agent.Daily.Endpoints.{context_of}
use amazon_research_agent.Daily.Children.{EnqueuesWanted, IsDue, enqueue_item-EnqueuesWanted}
use amazon_research_agent.Tests.Candidates.{cents, clock, candidate_with, targets}
use amazon_research_agent.Tests.Routes.{by_length}

-- The world does not change, and has no result of any endpoint.
abbrev asked : DailyDependencies Unit ℕ
asked = record {
  has_client = true;
  now = ok (pos 0);
  now_text = "now";
  read_run = λ id s. (s, ok none);
  select_plan = λ s. (s, err (daily_error "not planned"));
  publish_plan = λ id ids checkpoint at s. (s, ok false);
  update_run = λ id update s. (s, ok true);
  enqueue_job = λ job key s. (s, ok "job");
  load_context =
      λ id s. (s, ok (context_of cents clock (pos 0) (candidate_with unknown) targets none));
  read_settings = λ s. (
    s,
    ok (record {
      new_freshness_hours = 24;
      watch_freshness_hours = 24;
      strong_freshness_hours = 24;
    }),
  );
  read_evidence = λ id s. (s, ok []);
  read_snapshot = λ id s. (s, ok none);
  read_screening_candidates = λ s. (s, ok []);
  enqueue_normalization = λ id locale s. (s, ok tt);
  rearm_waiting_candidates = λ locale s. (s, ok tt);
  insert_notification = λ id locale s. (s, ok tt);
}

abbrev jar : ResearchPlanItem
jar = record { id = "jar"; bucket = watch }

enqueue_item-EnqueuesWanted_example :
    All
      (EnqueuesWanted
        (IsDue cents clock by_length (pos 0) asked (candidate_with unknown) targets jar)
        "jar")
      (enqueue_item clock by_length asked (pos 0) jar "en" "run" none tt).0
enqueue_item-EnqueuesWanted_example =
    enqueue_item-EnqueuesWanted cents clock by_length (pos 0) asked (candidate_with unknown) targets
      jar none none "en" "run" tt tt refl refl

asks_for_products :
    (enqueue_item clock by_length asked (pos 0) jar "en" "run" none tt).0
    ≡ handling "jar"
      ∷ enqueueing (market_probe "jar" "en" "run" normal_validation) (probe_key "run" watch "jar")
      ∷ []
unfolding enqueue_item admit includes assessed stage_of first_gaps sum_known amazon_fees
    estimated_launch_cash estimated_unit_contribution profitability_targets_pass estimated_margin
    has_known_profitability_failure
asks_for_products = refl
