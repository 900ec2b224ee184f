-- ===== src/Queue/Steps/Consistent.antt =====
-- Lemmas on the table of jobs as a whole under sequences of calls.
use mathlib.Core.List.{Memᴰ}
use amazon_research_agent.Base.{
  String, Bool, true, false, List, [], ◌∷◌, str_eq, ◌≡◌, sym, ◌∙◌, subst, inl, inr, All,
}
use amazon_research_agent.Queue.{JobRow}
use amazon_research_agent.Queue.Steps.{Step, apply, run}
use amazon_research_agent.Queue.Steps.Rows.{IsKeyed, IsLeased, IsAdvance, is_terminal, Related}
use amazon_research_agent.Queue.Steps.Inserts.{IsStep, apply-IsStep}

-- Distinct identifiers, and every row's lease in order.
pub record IsConsistent {J : Type 0} (jobs : List (JobRow J)) : Type 0 where
  pub keyed : IsKeyed jobs
  pub leased : All IsLeased jobs

module _ {J : Type 0} where
  absent_kept :
      (id : String) (jobs jobs' : List (JobRow J))
      → Related IsAdvance jobs jobs'
      → All (λ k. str_eq k.id id ≡ false) jobs
      → All (λ k. str_eq k.id id ≡ false) jobs'
  absent_kept id [] [] r h = tt
  absent_kept id (j ∷ js) (k ∷ ks) r h =
      (subst (λ i. str_eq i id ≡ false) (sym r.0.same_id) h.0, absent_kept id js ks r.1 h.1)
  absent_kept id [] (k ∷ ks) r h = absurd r
  absent_kept id (j ∷ js) [] r h = absurd r

  IsKeyed-kept :
      (jobs jobs' : List (JobRow J)) → Related IsAdvance jobs jobs' → IsKeyed jobs → IsKeyed jobs'
  IsKeyed-kept [] [] r h = tt
  IsKeyed-kept (j ∷ js) (k ∷ ks) r h = (
    subst (λ i. All (λ l. str_eq l.id i ≡ false) ks) (sym r.0.same_id)
        (absent_kept j.id js ks r.1 h.0),
    IsKeyed-kept js ks r.1 h.1,
  )
  IsKeyed-kept [] (k ∷ ks) r h = absurd r
  IsKeyed-kept (j ∷ js) [] r h = absurd r

  IsLeased-kept :
      (jobs jobs' : List (JobRow J))
      → Related IsAdvance jobs jobs'
      → All IsLeased jobs
      → All IsLeased jobs'
  IsLeased-kept [] [] r h = tt
  IsLeased-kept (j ∷ js) (k ∷ ks) r h = (r.0.lease_kept h.0, IsLeased-kept js ks r.1 h.1)
  IsLeased-kept [] (k ∷ ks) r h = absurd r
  IsLeased-kept (j ∷ js) [] r h = absurd r

  terminal_kept :
      (j : JobRow J) (jobs jobs' : List (JobRow J))
      → Related IsAdvance jobs jobs'
      → is_terminal j.status ≡ true
      → Memᴰ j jobs
      → Memᴰ j jobs'
  terminal_kept j (x ∷ js) (k ∷ ks) r t (Memᴰ.head e) =
      Memᴰ.head (e ∙ sym (r.0.terminal_kept (subst (λ z. is_terminal z.status ≡ true) e t)))
  terminal_kept j (x ∷ js) (k ∷ ks) r t (Memᴰ.tail m) = Memᴰ.tail (terminal_kept j js ks r.1 t m)
  terminal_kept j (x ∷ js) [] r t m = absurd r
  terminal_kept j [] jobs' r t m = elim m [ ]

  IsConsistent-step :
      (jobs jobs' : List (JobRow J)) → IsStep jobs jobs' → IsConsistent jobs → IsConsistent jobs'
  unfolding IsStep
  IsConsistent-step jobs jobs' (inl r) h = record {
    keyed = IsKeyed-kept jobs jobs' r h.keyed;
    leased = IsLeased-kept jobs jobs' r h.leased;
  }
  IsConsistent-step jobs jobs' (inr (r, e, new)) h =
      subst IsConsistent (sym e)
        (record { keyed = (new.id_fresh, h.keyed); leased = (new.is_leased, h.leased) })

  terminal-step :
      (j : JobRow J) (jobs jobs' : List (JobRow J))
      → IsStep jobs jobs'
      → is_terminal j.status ≡ true
      → Memᴰ j jobs
      → Memᴰ j jobs'
  unfolding IsStep
  terminal-step j jobs jobs' (inl r) t m = terminal_kept j jobs jobs' r t m
  terminal-step j jobs jobs' (inr (r, e, new)) t m = subst (λ l. Memᴰ j l) (sym e) (Memᴰ.tail m)

  module _ (empty : J) (blank : String → Bool) (cut : String → String) where
    pub apply-IsConsistent :
        (step : Step J) (jobs : List (JobRow J))
        → IsConsistent jobs
        → IsConsistent (apply empty blank cut step jobs)
    apply-IsConsistent step jobs h =
        IsConsistent-step jobs _ (apply-IsStep empty blank cut step jobs h.keyed) h

    -- After every sequence of calls on a table whose rows have distinct identifiers and leases in
    -- order, this holds again: attempts are within their maximum, and exactly the running rows have
    -- an owner and an end of the lease.
    pub run-IsConsistent :
        (steps : List (Step J)) (jobs : List (JobRow J))
        → IsConsistent jobs
        → IsConsistent (run empty blank cut steps jobs)
    unfolding run
    run-IsConsistent [] jobs h = h
    run-IsConsistent (step ∷ steps) jobs h =
        run-IsConsistent steps (apply empty blank cut step jobs) (apply-IsConsistent step jobs h)

    -- A completed or failed job of a consistent table is in the table, unchanged, after every sequence
    -- of calls.
    pub run-terminal :
        (steps : List (Step J)) (jobs : List (JobRow J)) (j : JobRow J)
        → IsConsistent jobs
        → is_terminal j.status ≡ true
        → Memᴰ j jobs
        → Memᴰ j (run empty blank cut steps jobs)
    unfolding run
    run-terminal [] jobs j h t m = m
    run-terminal (step ∷ steps) jobs j h t m =
        run-terminal steps (apply empty blank cut step jobs) j (apply-IsConsistent step jobs h) t
          (terminal-step j jobs _ (apply-IsStep empty blank cut step jobs h.keyed) t m)
