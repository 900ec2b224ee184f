-- ===== src/Tests/Workers.antt =====
-- Runs of a job by apps/worker/src/main.ts, on the table of jobs.
use amazon_research_agent.Base.{Option, ℕ, ◌≡◌, refl, List, [], ◌∷◌, String, none, some}
use amazon_research_agent.Base.Result.{ok, err}
use amazon_research_agent.Queue.{JobRow, Job, QueueError, job_lease_lost}
use amazon_research_agent.Worker.{
  WorkerError, finish, completed_job, from_queue, with_message, other_value, JobHandler, lease_lost,
  run_job, retry_delay_milliseconds, retry_delays_ms,
}
use amazon_research_agent.Worker.Runs.{IsCompletion, run_job-IsCompletion}
use amazon_research_agent.Queue.Durable
use amazon_research_agent.Queue.Store
use amazon_research_agent.Queue.Store.{update}
use amazon_research_agent.Queue.Changes.{held, finished}
use amazon_research_agent.Queue.Repository.{supabase_repository}
use amazon_research_agent.Worker.LostLeases.{durable, run_job-lost_completion, run_job-lost_failure}
use amazon_research_agent.Tests.Queues.{
  running_job, is_blank, whole, json, lease_of, running-IsConsistent, first-IsSuperseded,
}

abbrev text : QueueError → String
text e = "error"

-- A job claimed with the first attempt.
abbrev old_job : Job ℕ
old_job = record { row = record running_job { attempts = 1 }; lease_identity = lease_of 1 }

abbrev jobs : List (JobRow ℕ)
jobs = running_job ∷ []

abbrev returns : JobHandler (List (JobRow ℕ)) ℕ
returns checkpoint s = (s, checkpoint, ok (some 9))

abbrev throws : JobHandler (List (JobRow ℕ)) ℕ
throws checkpoint s = (s, checkpoint, err (with_message "broken"))

first_delay : retry_delay_milliseconds 1 ≡ ok 60000
unfolding retry_delay_milliseconds retry_delays_ms
first_delay = refl

abbrev no_failure : Option WorkerError
no_failure = none

-- The job under its current lease.
abbrev current_job : Job ℕ
current_job = record { row = running_job; lease_identity = lease_of 2 }

completes :
    run_job text whole
      (durable json 0 is_blank whole 100)
      (some returns)
      other_value
      current_job
      0
      none
      100
      jobs
    ≡ (finished 100 9 running_job ∷ [], ok completed_job)
unfolding run_job finish Durable.complete_job supabase_repository Store.complete_job update held
completes = refl

run_job-IsCompletion_example :
    (no_failure ≡ none)
    × IsCompletion text whole
        (durable json 0 is_blank whole 100)
        other_value
        returns
        current_job
        0
        100
        jobs
        (finished 100 9 running_job ∷ [])
run_job-IsCompletion_example =
    run_job-IsCompletion text whole (durable json 0 is_blank whole 100) other_value returns
      current_job 0 100 jobs (finished 100 9 running_job ∷ []) none completes

run_job-lost_completion_example :
    run_job text whole
      (durable json 0 is_blank whole 100)
      (some returns)
      other_value
      old_job
      0
      none
      100
      jobs
    ≡ (jobs, ok lease_lost)
run_job-lost_completion_example =
    run_job-lost_completion json 0 is_blank whole text whole other_value returns old_job 0 0
      (some 9) 100 jobs jobs (some 9) refl running-IsConsistent first-IsSuperseded refl

run_job-lost_failure_example :
    run_job text whole
      (durable json 0 is_blank whole 100)
      (some throws)
      other_value
      old_job
      0
      none
      100
      jobs
    ≡ (jobs, err (from_queue (job_lease_lost "j1" "fail")))
run_job-lost_failure_example =
    run_job-lost_failure json 0 is_blank whole text whole other_value throws old_job 0 0 (some 0)
      100 jobs jobs (with_message "broken") 60000 refl refl first_delay running-IsConsistent
      first-IsSuperseded refl
