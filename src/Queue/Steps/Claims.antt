-- ===== src/Queue/Steps/Claims.antt =====
-- Lemmas on the claims of jobs.
use mathlib.Core.List.{Memᴰ}
use amazon_research_agent.Base.{
  ℕ, String, Bool, true, false, not, List, [], ◌∷◌, map, filter, str_eq, ◌≡◌, refl, sym, ap, ◌∙◌,
  subst, arith, ◌≤◌, ◌⊎◌, inl, inr, All, ◌<◌, any, ◌||◌, none, some, str_eq_iff, ltb, Bool-cases,
}
use amazon_research_agent.Queue.{JobRow, JobLeaseIdentity}
use amazon_research_agent.Queue.Store.{claim_jobs, claim_row, eligible_rows}
use amazon_research_agent.Queue.Changes.{claimed, claimable, held, same_id, valid_lease_seconds}
use amazon_research_agent.Queue.Steps.Rows.{IsKeyed, picked-claimable}
use amazon_research_agent.Queue.Steps.Fencing.{IsSuperseded}

module _ {J : Type 0} where
  -- A claim either throws and leaves the table, or takes the eligible rows.
  claim_jobs-cases :
      (blank locked : String → Bool) (now : ℕ) (worker : String) (limit seconds : ℕ)
      (jobs : List (JobRow J))
      → (claim_jobs blank locked now worker limit seconds jobs ≡ (jobs, none))
        ⊎ (claim_jobs blank locked now worker limit seconds jobs ≡ (
          map (claim_row (eligible_rows now locked limit jobs) now worker seconds) jobs,
          some (
              map
                (claimed now worker seconds)
                (filter (λ j. any (same_id j) (eligible_rows now locked limit jobs)) jobs)),
        ))
  unfolding claim_jobs
  claim_jobs-cases blank locked now worker limit seconds jobs =
      elim (Bool-cases
        (blank worker || (ltb limit 1 || ltb 100 limit) || not (valid_lease_seconds seconds))) [
          | inl e ↦ inl (ground arith)
          | inr e ↦ inr (ground arith)
        ]

  same_id-eq :
      (id : String) (j : JobRow J) (picked : List (JobRow J))
      → str_eq j.id id ≡ true
      → any (same_id j) picked ≡ any (λ p. str_eq id p.id) picked
  same_id-eq id j picked e =
      let same : j.id ≡ id = ground (arith, str_eq_iff j.id id) in
      ap (λ i. any (λ (p : JobRow J). str_eq i p.id) picked) same

  returned-picked :
      (id : String) (picked jobs : List (JobRow J)) (now : ℕ) (worker : String) (seconds : ℕ)
      → any
          (λ j. str_eq j.id id)
          (map (claimed now worker seconds) (filter (λ j. any (same_id j) picked) jobs))
        ≡ true
      → any (λ p. str_eq id p.id) picked ≡ true
  returned-picked id picked [] now worker seconds h = absurd (cc h)
  returned-picked id picked (j ∷ js) now worker seconds h =
      ground (arith, same_id-eq id j picked, returned-picked id picked js now worker seconds)

  module _ (lease : JobLeaseIdentity) where
    claim-passes :
        (picked jobs : List (JobRow J)) (now : ℕ) (worker : String) (seconds : ℕ)
        → any (λ p. str_eq lease.job_id p.id) picked ≡ true
        → All (λ j. str_eq j.id lease.job_id ≡ true → lease.epoch ≤ j.attempts) jobs
        → All
            (λ j. str_eq j.id lease.job_id ≡ true → lease.epoch < j.attempts)
            (map (claim_row picked now worker seconds) jobs)
    unfolding claim_row
    claim-passes picked [] now worker seconds p h = tt
    claim-passes picked (j ∷ js) now worker seconds p h = (
      λ e. ground (arith, same_id-eq lease.job_id j picked, h.0),
      claim-passes picked js now worker seconds p h.1,
    )

    claim-knows :
        (picked jobs : List (JobRow J)) (now : ℕ) (worker : String) (seconds : ℕ)
        → any
            (λ j. str_eq j.id lease.job_id)
            (map (claimed now worker seconds) (filter (λ j. any (same_id j) picked) jobs))
          ≡ true
        → any (λ j. str_eq j.id lease.job_id) (map (claim_row picked now worker seconds) jobs)
          ≡ true
    unfolding claim_row
    claim-knows picked [] now worker seconds h = h
    claim-knows picked (j ∷ js) now worker seconds h =
        ground (arith, claim-knows picked js now worker seconds)

    -- When a claim returns the job of a lease whose epoch is at most the job's attempts, the lease is
    -- superseded.
    pub claim_jobs-IsSuperseded :
        (blank locked : String → Bool) (now : ℕ) (worker : String) (limit seconds : ℕ)
        (jobs jobs' granted : List (JobRow J))
        → All (λ j. str_eq j.id lease.job_id ≡ true → lease.epoch ≤ j.attempts) jobs
        → claim_jobs blank locked now worker limit seconds jobs ≡ (jobs', some granted)
        → any (λ j. str_eq j.id lease.job_id) granted ≡ true
        → IsSuperseded lease jobs'
    claim_jobs-IsSuperseded blank locked now worker limit seconds jobs jobs' granted old e g =
        elim (claim_jobs-cases blank locked now worker limit seconds jobs) [
          | inl c ↦ absurd (cc (c, e))
          | inr c ↦
              let picked = eligible_rows now locked limit jobs in
              let table : map (claim_row picked now worker seconds) jobs ≡ jobs' = cc (c, e) in
              let rows : granted
                  ≡ map (claimed now worker seconds) (filter (λ j. any (same_id j) picked) jobs) =
                cc (c, e) in
              let g' =
                subst (λ l. any (λ (j : JobRow J). str_eq j.id lease.job_id) l ≡ true) rows g in
              subst (IsSuperseded lease) table (record {
                job_known = claim-knows picked jobs now worker seconds g';
                claimed_since =
                    claim-passes picked jobs now worker seconds
                      (returned-picked lease.job_id picked jobs now worker seconds g') old;
              })
        ]

  unpicked_kept :
      (picked jobs : List (JobRow J)) (now : ℕ) (locked : String → Bool) (worker : String)
      (seconds : ℕ) (j : JobRow J)
      → All (λ k. claimable now locked k ≡ false → any (same_id k) picked ≡ false) jobs
      → claimable now locked j ≡ false
      → Memᴰ j jobs
      → Memᴰ j (map (claim_row picked now worker seconds) jobs)
  unfolding claim_row
  unpicked_kept picked [] now locked worker seconds j h n m = elim m [ ]
  unpicked_kept picked (k ∷ ks) now locked worker seconds j h n (Memᴰ.head e) =
      let free = h.0 (subst (λ z. claimable now locked z ≡ false) e n) in
      Memᴰ.head (e ∙ rw free refl)
  unpicked_kept picked (k ∷ ks) now locked worker seconds j h n (Memᴰ.tail m) =
      Memᴰ.tail (unpicked_kept picked ks now locked worker seconds j h.1 n m)

  -- A job whose lease has not run out is left as it is by every claim, in a table whose rows have
  -- distinct identifiers.
  pub claim_jobs-keeps_held :
      (blank locked : String → Bool) (now : ℕ) (worker : String) (limit seconds : ℕ)
      (jobs : List (JobRow J)) (lease : JobLeaseIdentity) (j : JobRow J)
      → IsKeyed jobs
      → held lease now j ≡ true
      → Memᴰ j jobs
      → Memᴰ j (claim_jobs blank locked now worker limit seconds jobs).0
  unfolding held claimable
  claim_jobs-keeps_held blank locked now worker limit seconds jobs lease j k h m =
      elim (claim_jobs-cases blank locked now worker limit seconds jobs) [
        | inl c ↦ subst (λ r. Memᴰ j r) (sym (ap (λ r. r.0) c)) m
        | inr c ↦
            subst (λ r. Memᴰ j r) (sym (ap (λ r. r.0) c))
              (unpicked_kept (eligible_rows now locked limit jobs) jobs now locked worker seconds j
                (picked-claimable now locked limit jobs k) (ground arith) m)
      ]
