-- ===== src/Tests/PermitRuns.antt =====
-- Runs of apps/worker/src/providers/adapter-semaphore.ts.
use amazon_research_agent.Base.{true, false, List, [], ◌∷◌, ◌≡◌, refl}
use amazon_research_agent.Semaphores.{
  SemaphoreState, acquire, pass_on, release, drop_waiter, PermitEvent, arriving, aborting,
  listening, leaving, grants, leave, permit_step, permit_run, no_permits,
}
use amazon_research_agent.Semaphores.Exclusion.{IsSound, permit_run-IsSound}

abbrev events : List PermitEvent
events =
    arriving 1 false
    ∷ arriving 2 false
    ∷ arriving 3 false
    ∷ aborting 2
    ∷ listening 2
    ∷ leaving 1
    ∷ []

third_holds : (permit_run events no_permits).holders ≡ 3 ∷ []
unfolding permit_run permit_step acquire release pass_on drop_waiter grants leave
third_holds = refl

permit_run-IsSound_example : IsSound (permit_run events no_permits)
permit_run-IsSound_example = permit_run-IsSound events

abbrev busy : SemaphoreState
busy = record {
  is_held = true;
  queue =
      record { id = 2; active = true; signal_aborted = true }
      ∷ record { id = 3; active = true; signal_aborted = false }
      ∷ [];
}
