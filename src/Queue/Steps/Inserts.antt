-- ===== src/Queue/Steps/Inserts.antt =====
-- Lemmas on insertions into the table of jobs, and on calls as steps.
use amazon_research_agent.Base.{
  ℕ, String, Bool, false, Option, some, List, [], ◌∷◌, any, str_eq, ◌≡◌, refl, sym, subst, arith,
  ◌⊎◌, inl, inr, All, All-map, Bool-cases, Option-cases,
}
use amazon_research_agent.Queue.{JobLeaseIdentity, JobRow, JobInsert}
use amazon_research_agent.Queue.Store.{
  insert, heartbeat_job, checkpoint_job, complete_job, fail_job, terminalize_expired_exhausted_jobs,
  update,
}
use amazon_research_agent.Queue.Changes.{
  held, extended, exhausted_lease, new_row, conflicts, json_or,
}
use amazon_research_agent.Queue.Steps.{
  Step, inserting, claiming, heartbeating, checkpointing, completing, failing, terminalizing, apply,
}
use amazon_research_agent.Queue.Steps.Rows.{IsKeyed, IsLeased, IsAdvance, Related, all_stay}
use amazon_research_agent.Queue.Steps.Advance.{
  update-advances, held-extended, held-saved, held-finished, held-released, exhausted-terminalized,
  claim_jobs-advances,
}

module _ {J : Type 0} where
  -- The row that an insertion adds.
  pub record IsNew (jobs : List (JobRow J)) (r : JobRow J) : Type 0 where
    pub id_fresh : All (λ k. str_eq k.id r.id ≡ false) jobs
    pub key_fresh : All (λ k. str_eq k.idempotency_key r.idempotency_key ≡ false) jobs
    pub is_leased : IsLeased r

  fresh_of_conflicts :
      (id key : String) (jobs : List (JobRow J))
      → any (conflicts id key) jobs ≡ false
      → All (λ k. (str_eq k.id id ≡ false) × (str_eq k.idempotency_key key ≡ false)) jobs
  fresh_of_conflicts id key [] h = tt
  fresh_of_conflicts id key (j ∷ js) h = (ground arith, fresh_of_conflicts id key js (ground arith))

  -- A call changes the rows one by one, or adds a new row.
  unfoldable pub IsStep : List (JobRow J) → List (JobRow J) → Type 0
  IsStep jobs jobs' =
      Related IsAdvance jobs jobs' ⊎ ((r : JobRow J) × (jobs' ≡ r ∷ jobs) × IsNew jobs r)

  pub insert-IsStep :
      (empty : J) (id : String) (now : ℕ) (input : JobInsert J) (jobs : List (JobRow J))
      → IsStep jobs (insert empty id now input jobs).0
  unfolding IsStep insert
  insert-IsStep empty id now input jobs = elim (Option-cases input.payload) [
    | inl e ↦ rw e (inl (all_stay jobs))
    | inr (payload, e) ↦ rw e (elim (Bool-cases (any (conflicts id input.idempotency_key) jobs)) [
      | inl c ↦ rw c (inl (all_stay jobs))
      | inr c ↦ rw c (
          inr (
            new_row empty id now payload input,
            refl,
            record {
              id_fresh =
                  All-map (λ k x. x.0) jobs (fresh_of_conflicts id input.idempotency_key jobs c);
              key_fresh =
                  All-map (λ k x. x.1) jobs (fresh_of_conflicts id input.idempotency_key jobs c);
              is_leased = record {
                attempts_capped = omega arith;
                owner_known = refl;
                end_known = refl;
              };
            },
          ))
    ])
  ]

  heartbeat_job-IsStep :
      (lease : JobLeaseIdentity) (seconds now : ℕ) (jobs : List (JobRow J))
      → IsStep jobs (heartbeat_job lease seconds now jobs).0
  unfolding IsStep heartbeat_job
  heartbeat_job-IsStep lease seconds now jobs =
      let moved = update (held lease now) (extended now seconds) jobs in
      let cases : ((heartbeat_job lease seconds now jobs).0 ≡ jobs)
          ⊎ ((heartbeat_job lease seconds now jobs).0 ≡ moved.0) =
        ground arith in
      elim cases [
        | inl e ↦ inl (subst (λ l. Related IsAdvance jobs l) (sym e) (all_stay jobs))
        | inr e ↦ inl (
            subst (λ l. Related IsAdvance jobs l) (sym e)
              (update-advances (held lease now) (extended now seconds)
                (held-extended lease now seconds) jobs))
      ]

  checkpoint_job-IsStep :
      (empty : J) (lease : JobLeaseIdentity) (checkpoint : Option J) (seconds now : ℕ)
      (jobs : List (JobRow J))
      → IsStep jobs (checkpoint_job empty lease checkpoint seconds now jobs).0
  unfolding IsStep checkpoint_job
  checkpoint_job-IsStep empty lease checkpoint seconds now jobs =
      let saved = λ (j : JobRow J). record (extended now seconds j) {
        checkpoint = json_or checkpoint empty;
      } in
      let moved = update (held lease now) saved jobs in
      let cases : ((checkpoint_job empty lease checkpoint seconds now jobs).0 ≡ jobs)
          ⊎ ((checkpoint_job empty lease checkpoint seconds now jobs).0 ≡ moved.0) =
        ground arith in
      elim cases [
        | inl e ↦ inl (subst (λ l. Related IsAdvance jobs l) (sym e) (all_stay jobs))
        | inr e ↦ inl (
            subst (λ l. Related IsAdvance jobs l) (sym e)
              (update-advances (held lease now) saved
                (held-saved lease now seconds (json_or checkpoint empty)) jobs))
      ]

  pub apply-IsStep :
      (empty : J) (blank : String → Bool) (cut : String → String) (step : Step J)
      (jobs : List (JobRow J))
      → IsKeyed jobs
      → IsStep jobs (apply empty blank cut step jobs)
  unfolding IsStep apply heartbeat_job checkpoint_job complete_job fail_job
      terminalize_expired_exhausted_jobs
  apply-IsStep empty blank cut (inserting id now input) jobs h =
      insert-IsStep empty id now input jobs
  apply-IsStep empty blank cut (claiming locked now worker limit seconds) jobs h =
      inl (claim_jobs-advances blank locked now worker limit seconds jobs h)
  apply-IsStep empty blank cut (heartbeating lease seconds now) jobs h =
      heartbeat_job-IsStep lease seconds now jobs
  apply-IsStep empty blank cut (checkpointing lease checkpoint seconds now) jobs h =
      checkpoint_job-IsStep empty lease checkpoint seconds now jobs
  apply-IsStep empty blank cut (completing lease checkpoint now) jobs h =
      inl (
        update-advances (held lease now) _ (held-finished lease now (json_or checkpoint empty))
          jobs)
  apply-IsStep empty blank cut (failing lease error_text retry_at checkpoint now) jobs h = inl (
      update-advances (held lease now) _
        (held-released lease now retry_at (some (cut error_text)) checkpoint) jobs)
  apply-IsStep empty blank cut (terminalizing now) jobs h =
      inl (update-advances (exhausted_lease now) _ (exhausted-terminalized now) jobs)
