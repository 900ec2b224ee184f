-- ===== src/Queue/Steps/Fencing.antt =====
-- Lemmas on leases that another claim of the job has superseded.
use amazon_research_agent.Base.{
  ℕ, String, Bool, true, false, List, [], ◌∷◌, str_eq, ◌≡◌, refl, sym, ap, ◌∙◌, subst, arith, inl,
  inr, All, ◌<◌, any, Option, str_eq_iff,
}
use amazon_research_agent.Queue.{JobRow, JobLeaseIdentity}
use amazon_research_agent.Queue.Store.{
  heartbeat_job, checkpoint_job, complete_job, fail_job, update,
}
use amazon_research_agent.Queue.Changes.{held, extended, json_or}
use amazon_research_agent.Queue.Steps.{Step, apply, run}
use amazon_research_agent.Queue.Steps.Rows.{IsAdvance, Related}
use amazon_research_agent.Queue.Steps.Inserts.{IsStep, apply-IsStep}
use amazon_research_agent.Queue.Steps.Consistent.{IsConsistent, apply-IsConsistent}

-- The job is in the table, and has been claimed again since the lease was granted.
pub record IsSuperseded {J : Type 0} (lease : JobLeaseIdentity) (jobs : List (JobRow J))
    : Type 0 where
  pub job_known : any (λ j. str_eq j.id lease.job_id) jobs ≡ true
  pub claimed_since : All (λ j. str_eq j.id lease.job_id ≡ true → lease.epoch < j.attempts) jobs

module _ {J : Type 0} (lease : JobLeaseIdentity) where
  known_kept :
      (jobs jobs' : List (JobRow J))
      → Related IsAdvance jobs jobs'
      → any (λ j. str_eq j.id lease.job_id) jobs' ≡ any (λ j. str_eq j.id lease.job_id) jobs
  known_kept [] [] r = refl
  known_kept (j ∷ js) (k ∷ ks) r = cc (r.0.same_id, known_kept js ks r.1)
  known_kept [] (k ∷ ks) r = absurd r
  known_kept (j ∷ js) [] r = absurd r

  claimed_since_kept :
      (jobs jobs' : List (JobRow J))
      → Related IsAdvance jobs jobs'
      → All (λ j. str_eq j.id lease.job_id ≡ true → lease.epoch < j.attempts) jobs
      → All (λ j. str_eq j.id lease.job_id ≡ true → lease.epoch < j.attempts) jobs'
  claimed_since_kept [] [] r h = tt
  claimed_since_kept (j ∷ js) (k ∷ ks) r h = (
    λ e.
        let later = h.0 (subst (λ i. str_eq i lease.job_id ≡ true) r.0.same_id e) in
        omega (arith, later, r.0.attempts_grow),
    claimed_since_kept js ks r.1 h.1,
  )
  claimed_since_kept [] (k ∷ ks) r h = absurd r
  claimed_since_kept (j ∷ js) [] r h = absurd r

  -- A known job's identifier is not a new row's.
  other_id :
      (r : JobRow J) (jobs : List (JobRow J))
      → All (λ k. str_eq k.id r.id ≡ false) jobs
      → any (λ j. str_eq j.id lease.job_id) jobs ≡ true
      → str_eq r.id lease.job_id ≡ false
  other_id r [] f h = absurd (cc h)
  other_id r (j ∷ js) f h = ground (
    arith,
    f.0,
    str_eq_iff j.id r.id,
    str_eq_iff r.id lease.job_id,
    str_eq_iff j.id lease.job_id,
    other_id r js f.1,
  )

  IsSuperseded-step :
      (jobs jobs' : List (JobRow J))
      → IsStep jobs jobs'
      → IsSuperseded lease jobs
      → IsSuperseded lease jobs'
  unfolding IsStep
  IsSuperseded-step jobs jobs' (inl r) h = record {
    job_known = known_kept jobs jobs' r ∙ h.job_known;
    claimed_since = claimed_since_kept jobs jobs' r h.claimed_since;
  }
  IsSuperseded-step jobs jobs' (inr (r, e, new)) h =
      let other = other_id r jobs new.id_fresh h.job_known in
      subst (IsSuperseded lease) (sym e) (record {
        job_known = ground (arith, h.job_known);
        claimed_since = (λ same. absurd (cc (same, other)), h.claimed_since);
      })

  -- No row is held by the lease, so that a guarded update changes nothing.
  update_idle :
      (now : ℕ) (f : JobRow J → JobRow J) (jobs : List (JobRow J))
      → All (λ j. str_eq j.id lease.job_id ≡ true → lease.epoch < j.attempts) jobs
      → update (held lease now) f jobs ≡ (jobs, false)
  unfolding update held
  update_idle now f [] h = refl
  update_idle now f (j ∷ js) h =
      let rest = update_idle now f js h.1 in
      ground (arith, h.0, ap (λ r. r.0) rest, ap (λ r. r.1) rest)

  module _ (empty : J) (blank : String → Bool) (cut : String → String) where
    run-IsSuperseded :
        (steps : List (Step J)) (jobs : List (JobRow J))
        → IsConsistent jobs
        → IsSuperseded lease jobs
        → IsSuperseded lease (run empty blank cut steps jobs)
    unfolding run
    run-IsSuperseded [] jobs h s = s
    run-IsSuperseded (step ∷ steps) jobs h s =
        run-IsSuperseded steps (apply empty blank cut step jobs)
          (apply-IsConsistent empty blank cut step jobs h)
          (IsSuperseded-step jobs _ (apply-IsStep empty blank cut step jobs h.keyed) s)

    -- When a job has been claimed again since a lease on it was granted, then after every sequence of
    -- calls the lease can neither complete nor fail the job: the table stays as it is, and the call
    -- reports that no row was found.
    pub run-fenced :
        (steps : List (Step J)) (jobs : List (JobRow J)) (checkpoint : Option J)
        (error_text : String) (retry_at now : ℕ)
        → IsConsistent jobs
        → IsSuperseded lease jobs
        → (complete_job empty lease checkpoint now (run empty blank cut steps jobs)
            ≡ (run empty blank cut steps jobs, false))
          × (fail_job cut lease error_text retry_at checkpoint now (run empty blank cut steps jobs)
              ≡ (run empty blank cut steps jobs, false))
    unfolding complete_job fail_job
    run-fenced steps jobs checkpoint error_text retry_at now h s =
        let late = (run-IsSuperseded steps jobs h s).claimed_since in
        (update_idle now _ _ late, update_idle now _ _ late)

    -- When a job has been claimed again since a lease on it was granted, then after every sequence of
    -- calls no heartbeat and no checkpoint under the lease changes the table.
    pub run-fenced_extension :
        (steps : List (Step J)) (jobs : List (JobRow J)) (checkpoint : Option J) (seconds now : ℕ)
        → IsConsistent jobs
        → IsSuperseded lease jobs
        → ((heartbeat_job lease seconds now (run empty blank cut steps jobs)).0
            ≡ run empty blank cut steps jobs)
          × ((checkpoint_job empty lease checkpoint seconds now (run empty blank cut steps jobs)).0
              ≡ run empty blank cut steps jobs)
    unfolding heartbeat_job checkpoint_job
    run-fenced_extension steps jobs checkpoint seconds now h s =
        let late = (run-IsSuperseded steps jobs h s).claimed_since in
        let beat = ap (λ r. r.0) (update_idle now (extended now seconds) _ late) in
        let saved = λ (j : JobRow J). record (extended now seconds j) {
          checkpoint = json_or checkpoint empty;
        } in
        let save = ap (λ r. r.0) (update_idle now saved _ late) in
        (ground (arith, beat), ground (arith, save))
