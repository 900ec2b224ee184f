-- ===== src/Queue/Steps/Rows.antt =====
-- The relations between the rows of the table of jobs before and after a call.
use amazon_research_agent.Base.{
  ℕ, String, Bool, true, false, not, List, [], ◌∷◌, any, str_eq, ◌≡◌, refl, sym, subst, arith, ◌≤◌,
  map, inl, inr, All, All-map, All-take, All-zip, All-filter_of_All, Bool-cases, filter, take,
  str_eq_iff,
}
use amazon_research_agent.Base.Order.{sort_by, All-sort_by}
use amazon_research_agent.Queue.{JobStatus, completed, failed, JobRow}
use amazon_research_agent.Queue.Store.{eligible_rows}
use amazon_research_agent.Queue.Changes.{claimable, compare_claims, same_id, is_running, is_null}

-- The identifiers of the rows are distinct.
abbrev pub IsKeyed : {J : Type 0} → List (JobRow J) → Type 0
IsKeyed [] = Unit
IsKeyed (j ∷ js) = All (λ k. str_eq k.id j.id ≡ false) js × IsKeyed js

pub str_eq_sym : (a b : String) → str_eq a b ≡ false → str_eq b a ≡ false
str_eq_sym a b h = ground (arith, str_eq_iff a b, str_eq_iff b a)

abbrev pub is_terminal : JobStatus → Bool
is_terminal completed = true
is_terminal failed = true
is_terminal _ = false

-- A running row, and only one, has an owner and an end of its lease; its attempts are within the
-- maximum.
pub record IsLeased {J : Type 0} (j : JobRow J) : Type 0 where
  pub attempts_capped : j.attempts ≤ j.max_attempts
  pub owner_known : is_null j.leased_by ≡ not (is_running j.status)
  pub end_known : is_null j.leased_until ≡ not (is_running j.status)

-- How a call may change a row: it keeps the row's identity, never takes an attempt back, leaves a
-- completed or failed row as it is, and keeps the lease in order.
pub record IsAdvance {J : Type 0} (j k : JobRow J) : Type 0 where
  pub same_id : k.id ≡ j.id
  pub same_key : k.idempotency_key ≡ j.idempotency_key
  pub attempts_grow : j.attempts ≤ k.attempts
  pub terminal_kept : is_terminal j.status ≡ true → k ≡ j
  pub lease_kept : IsLeased j → IsLeased k

-- Two lists whose rows are related one by one.
abbrev pub Related :
    {J : Type 0} → (JobRow J → JobRow J → Type 0) → List (JobRow J) → List (JobRow J) → Type 0
Related R [] [] = Unit
Related R (j ∷ js) (k ∷ ks) = R j k × Related R js ks
Related R _ _ = ⊥

module _ {J : Type 0} where
  -- The rows that a test refuses have identifiers that no row of the list has.
  abbrev IsAbsent : (JobRow J → Bool) → List (JobRow J) → JobRow J → Type 0
  IsAbsent q kept j = q j ≡ false → All (λ p. str_eq p.id j.id ≡ false) kept

  unclaimable :
      (q : JobRow J → Bool) (jobs : List (JobRow J))
      → IsKeyed jobs
      → All (IsAbsent q (filter q jobs)) jobs
  unclaimable q [] h = tt
  unclaimable q (j ∷ js) h = elim (Bool-cases (q j)) [
    | inl e ↦
        let kept : filter q (j ∷ js) ≡ j ∷ filter q js = rw e refl in
        subst (λ l. All (IsAbsent q l) (j ∷ js)) (sym kept)
          (
            (λ f. absurd (cc (e, f))),
            All-map {P = λ k. (str_eq k.id j.id ≡ false) × IsAbsent q (filter q js) k}
                (λ k hk f. (str_eq_sym k.id j.id hk.0, hk.1 f)) js
                (All-zip (λ k. str_eq k.id j.id ≡ false) (IsAbsent q (filter q js)) js h.0
                  (unclaimable q js h.1)),
          )
    | inr e ↦
        let kept : filter q (j ∷ js) ≡ filter q js = rw e refl in
        subst (λ l. All (IsAbsent q l) (j ∷ js)) (sym kept)
          ((λ f. All-filter_of_All (λ p. str_eq p.id j.id ≡ false) q js h.0), unclaimable q js h.1)
  ]

  none_of_All :
      (j : JobRow J) (picked : List (JobRow J))
      → All (λ p. str_eq p.id j.id ≡ false) picked
      → any (same_id j) picked ≡ false
  none_of_All j [] h = refl
  none_of_All j (p ∷ ps) h = ground (arith, str_eq_sym p.id j.id h.0, none_of_All j ps h.1)

  -- A claim takes claimable rows only.
  pub picked-claimable :
      (now : ℕ) (locked : String → Bool) (limit : ℕ) (jobs : List (JobRow J))
      → IsKeyed jobs
      → All
          (λ j.
            claimable now locked j ≡ false
            → any (same_id j) (eligible_rows now locked limit jobs) ≡ false)
          jobs
  unfolding eligible_rows
  picked-claimable now locked limit jobs h =
      All-map
        (λ j f c.
          none_of_All j (take limit (sort_by compare_claims (filter (claimable now locked) jobs))) (
            All-take (λ p. str_eq p.id j.id ≡ false) limit _
              (All-sort_by compare_claims (λ p. str_eq p.id j.id ≡ false)
                (filter (claimable now locked) jobs) (f c))))
        jobs (unclaimable (claimable now locked) jobs h)

  pub stays : (j : JobRow J) → IsAdvance j j
  stays j = record {
    same_id = refl;
    same_key = refl;
    attempts_grow = omega arith;
    terminal_kept = λ _. refl;
    lease_kept = λ h. h;
  }

  pub all_stay : (jobs : List (JobRow J)) → Related IsAdvance jobs jobs
  all_stay [] = tt
  all_stay (j ∷ js) = (stays j, all_stay js)

  pub Related-map :
      (f : JobRow J → JobRow J) (jobs : List (JobRow J))
      → All (λ j. IsAdvance j (f j)) jobs
      → Related IsAdvance jobs (map f jobs)
  Related-map f [] h = tt
  Related-map f (j ∷ js) h = (h.0, Related-map f js h.1)
