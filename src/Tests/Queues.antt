-- ===== src/Tests/Queues.antt =====
-- Runs of the queue of packages/queue/src/queue.ts over the table of jobs.
use mathlib.Core.List.{Memᴰ}
use amazon_research_agent.Base.{
  ℕ, ◌≡◌, refl, List, [], ◌∷◌, String, Bool, true, false, none, some, Option, str_eq, arith,
}
use amazon_research_agent.Base.Int.{pos}
use amazon_research_agent.Base.Result.{ok, err}
use amazon_research_agent.Base.Order.{sort_by}
use amazon_research_agent.Queue.{
  JobStatus, running, completed, send_digest, JobRow, JobLeaseIdentity, EnqueueJobInput,
  job_lease_lost,
}
use amazon_research_agent.Queue.Store
use amazon_research_agent.Queue.Store.{eligible_rows, claim_row, insert}
use amazon_research_agent.Queue.Changes.{held, claimed, claimable, new_row}
use amazon_research_agent.Queue.Repository.{supabase_repository}
use amazon_research_agent.Queue.Durable
use amazon_research_agent.Queue.Durable.Enqueue.{enqueue_at, enqueue-idempotent}
use amazon_research_agent.Queue.Durable.Leases.{at, run-lease_lost}
use amazon_research_agent.Queue.Steps.{Step, run, heartbeating}
use amazon_research_agent.Queue.Steps.Consistent.{IsConsistent, run-IsConsistent, run-terminal}
use amazon_research_agent.Queue.Steps.Fencing.{IsSuperseded}

abbrev pub job_at : JobStatus → ℕ → Option String → Option ℕ → JobRow ℕ
job_at status attempts owner end = record {
  id = "j1";
  kind = send_digest;
  payload = 0;
  status = status;
  priority = pos 100;
  available_at = 0;
  leased_until = end;
  leased_by = owner;
  attempts = attempts;
  max_attempts = 5;
  idempotency_key = "digest";
  checkpoint = 0;
  last_error = none;
  created_at = 0;
  updated_at = 0;
}

abbrev pub is_blank : String → Bool
is_blank t = str_eq t ""

abbrev pub whole : String → String
whole t = t

abbrev pub json : ℕ → Option (Option ℕ)
json u = some (some u)

abbrev pub lease_of : ℕ → JobLeaseIdentity
lease_of epoch = record { job_id = "j1"; owner = "w"; epoch = epoch }

abbrev pub running_job : JobRow ℕ
running_job = job_at running 2 (some "w") (some 500)

abbrev pub done_job : JobRow ℕ
done_job = job_at completed 2 none none

abbrev steps : List (Step ℕ)
steps = heartbeating (lease_of 2) 60 100 ∷ []

pub running-IsConsistent : IsConsistent (running_job ∷ [])
running-IsConsistent = record {
  keyed = (tt, tt);
  leased = (record { attempts_capped = omega arith; owner_known = refl; end_known = refl }, tt);
}

done-IsConsistent : IsConsistent (done_job ∷ [])
done-IsConsistent = record {
  keyed = (tt, tt);
  leased = (record { attempts_capped = omega arith; owner_known = refl; end_known = refl }, tt);
}

pub first-IsSuperseded : IsSuperseded (lease_of 1) (running_job ∷ [])
first-IsSuperseded = record { job_known = refl; claimed_since = (λ _. omega arith, tt) }

run-IsConsistent_example : IsConsistent (run 0 is_blank whole steps (running_job ∷ []))
run-IsConsistent_example =
    run-IsConsistent 0 is_blank whole steps (running_job ∷ []) running-IsConsistent

run-terminal_example : Memᴰ done_job (run 0 is_blank whole steps (done_job ∷ []))
run-terminal_example =
    run-terminal 0 is_blank whole steps (done_job ∷ []) done_job done-IsConsistent refl
      (Memᴰ.head refl)

run-lease_lost_example :
    (Durable.complete_job json is_blank
        (at json 0 is_blank whole 100)
        (lease_of 1)
        7
        (run 0 is_blank whole steps (running_job ∷ []))
      ≡ (run 0 is_blank whole steps (running_job ∷ []), err (job_lease_lost "j1" "complete")))
    × (Durable.fail_job json is_blank
          (at json 0 is_blank whole 100)
          (lease_of 1)
          "late"
          900
          7
          (run 0 is_blank whole steps (running_job ∷ []))
        ≡ (run 0 is_blank whole steps (running_job ∷ []), err (job_lease_lost "j1" "fail")))
run-lease_lost_example =
    run-lease_lost json 0 is_blank whole (lease_of 1) steps (running_job ∷ []) 7 (some 7) "late" 900
      100 running-IsConsistent first-IsSuperseded refl

abbrev digest : EnqueueJobInput ℕ
digest = record {
  kind = send_digest;
  payload = 3;
  idempotency_key = "digest";
  priority = none;
  available_at = none;
}

first_enqueue : enqueue_at json 0 is_blank whole 10 "j2" digest [] ≡ (
  new_row 0 "j2" 10 3 (record {
    kind = send_digest;
    payload = some 3;
    idempotency_key = "digest";
    priority = pos 100;
    available_at = none;
  })
      ∷ [],
  ok "j2",
)
unfolding Durable.enqueue_job supabase_repository insert
first_enqueue = refl

abbrev enqueued : List (JobRow ℕ)
enqueued =
    new_row 0 "j2" 10 3 (record {
      kind = send_digest;
      payload = some 3;
      idempotency_key = "digest";
      priority = pos 100;
      available_at = none;
    })
    ∷ []

enqueued-IsConsistent : IsConsistent enqueued
enqueued-IsConsistent = record {
  keyed = (tt, tt);
  leased = (record { attempts_capped = omega arith; owner_known = refl; end_known = refl }, tt);
}

enqueue-idempotent_example :
    enqueue_at json 0 is_blank whole 20 "j3" digest (run 0 is_blank whole steps enqueued)
    ≡ (run 0 is_blank whole steps enqueued, ok "j2")
enqueue-idempotent_example =
    enqueue-idempotent json 0 is_blank whole 10 20 "j2" "j3" digest digest [] enqueued "j2" 3 steps
      refl first_enqueue enqueued-IsConsistent refl refl

abbrev expired_job : JobRow ℕ
expired_job = job_at running 2 (some "w") (some 50)

claim_again :
    Store.claim_jobs is_blank (λ _. false) 100 "v" 1 60 (expired_job ∷ [])
    ≡ (claimed 100 "v" 60 expired_job ∷ [], some (claimed 100 "v" 60 expired_job ∷ []))
unfolding Store.claim_jobs eligible_rows claimable claim_row sort_by
claim_again = refl

holds : held (lease_of 2) 100 running_job ≡ true
unfolding held
holds = refl
