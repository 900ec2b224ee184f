-- ===== src/Queue/Durable/Enqueue.antt =====
-- Lemmas on enqueueing by packages/queue/src/queue.ts under a key that is known.
use amazon_research_agent.Base.{
  ℕ, String, Bool, true, false, List, [], ◌∷◌, str_eq, str_eq_refl, ◌≡◌, sym, subst, arith, any,
  Option, some, All, inl, inr, ◌∙◌, refl, str_eq_iff,
}
use amazon_research_agent.Base.Result.{Result, ok}
use amazon_research_agent.Queue.{JobRow, EnqueueJobInput, QueueError}
use amazon_research_agent.Queue.Store.{insert}
use amazon_research_agent.Queue.Changes.{conflicts}
use amazon_research_agent.Queue.Repository.{supabase_repository, find_id}
use amazon_research_agent.Queue.Durable.{enqueue_job}
use amazon_research_agent.Queue.Steps.{Step, apply, run}
use amazon_research_agent.Queue.Steps.Rows.{IsAdvance, Related}
use amazon_research_agent.Queue.Steps.Inserts.{IsStep, apply-IsStep}
use amazon_research_agent.Queue.Steps.Consistent.{IsConsistent, apply-IsConsistent}

module _ {J U : Type 0} (to_json : U → Option (Option J)) (empty : J) (blank : String → Bool)
    (cut : String → String) where
  -- A call at its clock, with the identifier that the database would draw.
  abbrev pub enqueue_at :
      ℕ → String → EnqueueJobInput U → List (JobRow J) → List (JobRow J) × Result QueueError String
  enqueue_at now new_id input jobs =
      enqueue_job to_json blank (supabase_repository empty blank cut now new_id (λ _. false)) input
        jobs

  found_conflicts :
      (key id new_id : String) (jobs : List (JobRow J))
      → find_id key jobs ≡ some id
      → any (conflicts new_id key) jobs ≡ true
  unfolding find_id
  found_conflicts key id new_id [] h = absurd (cc h)
  found_conflicts key id new_id (j ∷ js) h = ground (arith, found_conflicts key id new_id js)

  -- A success leaves the job in the table, under its key.
  enqueue-stored :
      (now : ℕ) (new_id : String) (input : EnqueueJobInput U) (jobs jobs' : List (JobRow J))
      (job : String)
      → str_eq new_id "" ≡ false
      → enqueue_at now new_id input jobs ≡ (jobs', ok job)
      → (find_id input.idempotency_key jobs' ≡ some job) × (str_eq job "" ≡ false)
  unfolding enqueue_job supabase_repository insert find_id
  enqueue-stored now new_id input jobs jobs' job n e =
      ground (arith, str_eq_refl input.idempotency_key)

  enqueue-named :
      (now : ℕ) (new_id : String) (input : EnqueueJobInput U) (jobs jobs' : List (JobRow J))
      (job : String)
      → enqueue_at now new_id input jobs ≡ (jobs', ok job)
      → blank input.idempotency_key ≡ false
  unfolding enqueue_job
  enqueue-named now new_id input jobs jobs' job e = ground arith

  enqueue-again :
      (now : ℕ) (new_id : String) (input : EnqueueJobInput U) (jobs : List (JobRow J))
      (job : String) (payload : J)
      → blank input.idempotency_key ≡ false
      → to_json input.payload ≡ some (some payload)
      → find_id input.idempotency_key jobs ≡ some job
      → str_eq job "" ≡ false
      → enqueue_at now new_id input jobs ≡ (jobs, ok job)
  unfolding enqueue_job supabase_repository insert
  enqueue-again now new_id input jobs job payload b p f n =
      ground (arith, found_conflicts input.idempotency_key job new_id jobs)

  -- A job's identifier is found under its key after every call.
  found_kept :
      (key : String) (jobs jobs' : List (JobRow J))
      → Related IsAdvance jobs jobs'
      → find_id key jobs' ≡ find_id key jobs
  unfolding find_id
  found_kept key [] [] r = refl
  found_kept key (j ∷ js) (k ∷ ks) r = cc (r.0.same_id, r.0.same_key, found_kept key js ks r.1)
  found_kept key [] (k ∷ ks) r = absurd r
  found_kept key (j ∷ js) [] r = absurd r

  other_key :
      (key id : String) (row : JobRow J) (jobs : List (JobRow J))
      → All (λ k. str_eq k.idempotency_key row.idempotency_key ≡ false) jobs
      → find_id key jobs ≡ some id
      → str_eq row.idempotency_key key ≡ false
  unfolding find_id
  other_key key id row [] f h = absurd (cc h)
  other_key key id row (j ∷ js) f h = ground (
    arith,
    f.0,
    other_key key id row js f.1,
    str_eq_iff j.idempotency_key row.idempotency_key,
    str_eq_iff row.idempotency_key key,
    str_eq_iff j.idempotency_key key,
  )

  found-step :
      (key id : String) (jobs jobs' : List (JobRow J))
      → IsStep jobs jobs'
      → find_id key jobs ≡ some id
      → find_id key jobs' ≡ some id
  unfolding IsStep find_id
  found-step key id jobs jobs' (inl r) h = found_kept key jobs jobs' r ∙ h
  found-step key id jobs jobs' (inr (row, e, new)) h =
      subst (λ l. find_id key l ≡ some id) (sym e)
        (ground (arith, other_key key id row jobs new.key_fresh h))

  found-run :
      (key id : String) (steps : List (Step J)) (jobs : List (JobRow J))
      → IsConsistent jobs
      → find_id key jobs ≡ some id
      → find_id key (run empty blank cut steps jobs) ≡ some id
  unfolding run
  found-run key id [] jobs h f = f
  found-run key id (step ∷ steps) jobs h f =
      found-run key id steps (apply empty blank cut step jobs)
        (apply-IsConsistent empty blank cut step jobs h)
        (found-step key id jobs _ (apply-IsStep empty blank cut step jobs h.keyed) f)

  -- After a job is enqueued in a table that is then consistent, and after every sequence of further
  -- calls, enqueueing any payload that serializes to more than null under the same key returns the
  -- same job and leaves the table as it is, when the first call draws an identifier that is not empty.
  pub enqueue-idempotent :
      (now later : ℕ) (new_id next_id : String) (input again : EnqueueJobInput U)
      (jobs jobs' : List (JobRow J)) (job : String) (payload : J) (steps : List (Step J))
      → str_eq new_id "" ≡ false
      → enqueue_at now new_id input jobs ≡ (jobs', ok job)
      → IsConsistent jobs'
      → again.idempotency_key ≡ input.idempotency_key
      → to_json again.payload ≡ some (some payload)
      → enqueue_at later next_id again (run empty blank cut steps jobs')
        ≡ (run empty blank cut steps jobs', ok job)
  enqueue-idempotent now later new_id next_id input again jobs jobs' job payload steps n e c k p =
      let stored = enqueue-stored now new_id input jobs jobs' job n e in
      let named = enqueue-named now new_id input jobs jobs' job e in
      let found = found-run input.idempotency_key job steps jobs' c stored.0 in
      enqueue-again later next_id again (run empty blank cut steps jobs') job payload
        (subst (λ i. blank i ≡ false) (sym k) named) p
        (subst (λ i. find_id i (run empty blank cut steps jobs') ≡ some job) (sym k) found) stored.1
