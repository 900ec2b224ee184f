-- ===== src/Queue/Steps/Advance.antt =====
-- Lemmas on the rows of the table of jobs under the calls that do not insert.
use amazon_research_agent.Base.{
  ℕ, String, Bool, true, false, not, ◌||◌, Option, List, map, if◌then◌else◌, any, ◌≡◌, refl, sym,
  subst, arith, ◌⊎◌, inl, inr, All-map, All-of_pointwise, Bool-cases, ltb,
}
use amazon_research_agent.Queue.{JobLeaseIdentity, JobRow}
use amazon_research_agent.Queue.Store.{claim_jobs, eligible_rows, claim_row, update}
use amazon_research_agent.Queue.Changes.{
  valid_lease_seconds, claimable, held, extended, finished, released, terminalized, exhausted_lease,
  same_id,
}
use amazon_research_agent.Queue.Steps.Rows.{
  IsKeyed, IsAdvance, stays, Related, all_stay, Related-map, picked-claimable,
}

module _ {J : Type 0} where
  claim_row-IsAdvance :
      (picked : List (JobRow J)) (now : ℕ) (locked : String → Bool) (worker : String) (seconds : ℕ)
      (j : JobRow J)
      → (claimable now locked j ≡ false → any (same_id j) picked ≡ false)
      → IsAdvance j (claim_row picked now worker seconds j)
  unfolding claim_row claimable
  claim_row-IsAdvance picked now locked worker seconds j h = record {
    same_id = ground arith;
    same_key = ground arith;
    attempts_grow = ground arith;
    terminal_kept = λ t. ground arith;
    lease_kept = λ l. record {
      attempts_capped = ground arith;
      owner_known = ground arith;
      end_known = ground arith;
    };
  }

  -- A guarded update advances the rows when what it does to a row that it finds does.
  pub update-advances :
      (p : JobRow J → Bool) (f : JobRow J → JobRow J)
      → ((j : JobRow J) → p j ≡ true → IsAdvance j (f j))
      → (jobs : List (JobRow J)) → Related IsAdvance jobs (update p f jobs).0
  unfolding update
  update-advances p f h jobs =
      Related-map (λ j. if p j then f j else j) jobs
        (All-of_pointwise _ (λ j. go j (Bool-cases (p j))) jobs)
    where
      go : (j : JobRow J) → ((p j ≡ true) ⊎ (p j ≡ false)) → IsAdvance j (if p j then f j else j)
      go j (inl e) = rw e (h j e)
      go j (inr e) = rw e (stays j)

  pub held-extended :
      (lease : JobLeaseIdentity) (now seconds : ℕ) (j : JobRow J)
      → held lease now j ≡ true
      → IsAdvance j (extended now seconds j)
  unfolding held
  held-extended lease now seconds j h = record {
    same_id = refl;
    same_key = refl;
    attempts_grow = omega arith;
    terminal_kept = λ t. ground arith;
    lease_kept = λ l. record {
      attempts_capped = l.attempts_capped;
      owner_known = l.owner_known;
      end_known = ground arith;
    };
  }

  pub held-saved :
      (lease : JobLeaseIdentity) (now seconds : ℕ) (checkpoint : J) (j : JobRow J)
      → held lease now j ≡ true
      → IsAdvance j (record (extended now seconds j) { checkpoint = checkpoint })
  unfolding held
  held-saved lease now seconds checkpoint j h = record {
    same_id = refl;
    same_key = refl;
    attempts_grow = omega arith;
    terminal_kept = λ t. ground arith;
    lease_kept = λ l. record {
      attempts_capped = l.attempts_capped;
      owner_known = l.owner_known;
      end_known = ground arith;
    };
  }

  pub held-finished :
      (lease : JobLeaseIdentity) (now : ℕ) (checkpoint : J) (j : JobRow J)
      → held lease now j ≡ true
      → IsAdvance j (finished now checkpoint j)
  unfolding held
  held-finished lease now checkpoint j h = record {
    same_id = refl;
    same_key = refl;
    attempts_grow = omega arith;
    terminal_kept = λ t. ground arith;
    lease_kept =
        λ l. record { attempts_capped = l.attempts_capped; owner_known = refl; end_known = refl };
  }

  pub held-released :
      (lease : JobLeaseIdentity) (now retry_at : ℕ) (error_text : Option String)
      (checkpoint : Option J) (j : JobRow J)
      → held lease now j ≡ true
      → IsAdvance j (released now error_text retry_at checkpoint j)
  unfolding held
  held-released lease now retry_at error_text checkpoint j h = record {
    same_id = refl;
    same_key = refl;
    attempts_grow = omega arith;
    terminal_kept = λ t. ground arith;
    lease_kept = λ l. record {
      attempts_capped = l.attempts_capped;
      owner_known = ground arith;
      end_known = ground arith;
    };
  }

  pub exhausted-terminalized :
      (now : ℕ) (j : JobRow J) → exhausted_lease now j ≡ true → IsAdvance j (terminalized now j)
  unfolding exhausted_lease
  exhausted-terminalized now j h = record {
    same_id = refl;
    same_key = refl;
    attempts_grow = omega arith;
    terminal_kept = λ t. ground arith;
    lease_kept =
        λ l. record { attempts_capped = l.attempts_capped; owner_known = refl; end_known = refl };
  }

  pub claim_jobs-advances :
      (blank locked : String → Bool) (now : ℕ) (worker : String) (limit seconds : ℕ)
      (jobs : List (JobRow J))
      → IsKeyed jobs
      → Related IsAdvance jobs (claim_jobs blank locked now worker limit seconds jobs).0
  unfolding claim_jobs
  claim_jobs-advances blank locked now worker limit seconds jobs h =
      elim (Bool-cases
        (blank worker || (ltb limit 1 || ltb 100 limit) || not (valid_lease_seconds seconds))) [
          | inl e ↦
              let same : (claim_jobs blank locked now worker limit seconds jobs).0 ≡ jobs =
                ground arith in
              subst (λ l. Related IsAdvance jobs l) (sym same) (all_stay jobs)
          | inr e ↦
              let picked = eligible_rows now locked limit jobs in
              let same : (claim_jobs blank locked now worker limit seconds jobs).0
                  ≡ map (claim_row picked now worker seconds) jobs =
                ground arith in
              subst (λ l. Related IsAdvance jobs l) (sym same)
                (Related-map (claim_row picked now worker seconds) jobs (
                  All-map (λ j c. claim_row-IsAdvance picked now locked worker seconds j c) jobs
                    (picked-claimable now locked limit jobs h)))
        ]
