-- ===== src/Queue/Store.antt =====
-- supabase/migrations/202608290021_provider_attempt_transactions.sql and
-- supabase/migrations/20260905024323_queue_authority_recovery.sql: the functions on the table of
-- jobs. `now` is the clock that one call reads; a statement is atomic.
use amazon_research_agent.Base.{
  ℕ, String, Bool, not, ◌||◌, Option, none, some, List, ◌∷◌, map, if◌then◌else◌, ltb, any, filter,
  take, length,
}
use amazon_research_agent.Base.Order.{sort_by}
use amazon_research_agent.Queue.{JobLeaseIdentity, JobRow, JobInsert}
use amazon_research_agent.Queue.Changes.{
  claimable, claimed, compare_claims, conflicts, exhausted_lease, extended, finished, held, json_or,
  new_row, released, same_id, terminalized, valid_lease_seconds,
}

pub data InsertOutcome : Type 0 where
  inserted : String → InsertOutcome
  unique_violation not_null_violation : InsertOutcome

module _ {J : Type 0} where
  -- The rows that a claim locks: rows locked by another transaction are skipped.
  unfoldable pub eligible_rows : ℕ → (String → Bool) → ℕ → List (JobRow J) → List (JobRow J)
  eligible_rows now locked limit jobs =
      take limit (sort_by compare_claims (filter (claimable now locked) jobs))

  unfoldable pub claim_row : List (JobRow J) → ℕ → String → ℕ → JobRow J → JobRow J
  claim_row picked now worker seconds j =
      if any (same_id j) picked then claimed now worker seconds j else j

  -- The new rows and the rows returned; `none` is an exception. `blank` tells a worker's name that
  -- `btrim` leaves empty.
  unfoldable pub claim_jobs :
      (String → Bool)
      → (String → Bool)
      → ℕ
      → String
      → ℕ
      → ℕ
      → List (JobRow J)
      → List (JobRow J) × Option (List (JobRow J))
  claim_jobs blank locked now worker limit seconds jobs =
      if blank worker
      then (jobs, none)
      else if ltb limit 1 || ltb 100 limit
      then (jobs, none)
      else if not (valid_lease_seconds seconds)
      then (jobs, none)
      else let picked = eligible_rows now locked limit jobs in
        (
          map (claim_row picked now worker seconds) jobs,
          some (map (claimed now worker seconds) (filter (λ j. any (same_id j) picked) jobs)),
        )

  -- `update ... where`, and whether a row was found.
  unfoldable pub update :
      (JobRow J → Bool) → (JobRow J → JobRow J) → List (JobRow J) → List (JobRow J) × Bool
  update p f jobs = (map (λ j. if p j then f j else j) jobs, any p jobs)

  unfoldable pub heartbeat_job :
      JobLeaseIdentity → ℕ → ℕ → List (JobRow J) → List (JobRow J) × Option Bool
  heartbeat_job lease seconds now jobs =
      if ltb lease.epoch 1 || not (valid_lease_seconds seconds)
      then (jobs, none)
      else let (jobs', found) = update (held lease now) (extended now seconds) jobs in
        (jobs', some found)

  -- `empty` is the empty JSON object.
  unfoldable pub checkpoint_job :
      J → JobLeaseIdentity → Option J → ℕ → ℕ → List (JobRow J) → List (JobRow J) × Option Bool
  checkpoint_job empty lease checkpoint seconds now jobs =
      if ltb lease.epoch 1 || not (valid_lease_seconds seconds)
      then (jobs, none)
      else let saved = λ (j : JobRow J). record (extended now seconds j) {
        checkpoint = json_or checkpoint empty;
      } in
        let (jobs', found) = update (held lease now) saved jobs in (jobs', some found)

  unfoldable pub complete_job :
      J → JobLeaseIdentity → Option J → ℕ → List (JobRow J) → List (JobRow J) × Bool
  complete_job empty lease checkpoint now jobs =
      update (held lease now) (finished now (json_or checkpoint empty)) jobs

  -- `cut` is `left(..., 8000)`.
  unfoldable pub fail_job :
      (String → String)
      → JobLeaseIdentity
      → String
      → ℕ
      → Option J
      → ℕ
      → List (JobRow J)
      → List (JobRow J) × Bool
  fail_job cut lease error_text retry_at checkpoint now jobs =
      update (held lease now) (released now (some (cut error_text)) retry_at checkpoint) jobs

  unfoldable pub terminalize_expired_exhausted_jobs : ℕ → List (JobRow J) → List (JobRow J) × ℕ
  terminalize_expired_exhausted_jobs now jobs = (
    (update (exhausted_lease now) (terminalized now) jobs).0,
    length (filter (exhausted_lease now) jobs),
  )

  -- The table's defaults and constraints; `new_id` is the identifier that the database draws.
  unfoldable pub insert :
      J → String → ℕ → JobInsert J → List (JobRow J) → List (JobRow J) × InsertOutcome
  insert empty new_id now input jobs = elim input.payload [
    | none ↦ (jobs, not_null_violation)
    | some payload ↦
        if any (conflicts new_id input.idempotency_key) jobs
        then (jobs, unique_violation)
        else (new_row empty new_id now payload input ∷ jobs, inserted new_id)
  ]
