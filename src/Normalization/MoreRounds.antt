-- ===== src/Normalization/MoreRounds.antt =====
-- Runs of apps/worker/src/providers/normalization-execution-coordinator.ts with more rounds.
use Prim.Native.Nat.{Ordering}
use amazon_research_agent.Base.{
  ℕ, String, Bool, false, Option, none, some, List, [], ◌∷◌, ◌++◌, ◌≡◌, ◌≢◌, arith, ◌+◌, zero, suc,
  refl, ap, sym, ◌∙◌, is_empty, ◌&&◌,
}
use amazon_research_agent.Base.Result.{Result, ok, err}
use amazon_research_agent.Normalization.Failures.{ThrownError}
use amazon_research_agent.Base.Actions.{continue_with, noted}
use amazon_research_agent.Normalization.Dependencies.{
  NormalizationExecutionRequest, Dependencies, Ran, reconciled, Reconciliation,
}
use amazon_research_agent.Base.Sets.{id_set}
use amazon_research_agent.Normalization.Coordinator.{
  is_none, exclude_failed, Round, retrying, finished, round, attempt_rounds, execute,
  after_reconciliation,
}
use amazon_research_agent.Normalization.Protocol.{rounds_from}

-- A run that has not used up its rounds goes the same way with one more.
module _ (trim : String → String) (locale_compare : String → String → Ordering) {S : Type 0}
    (deps : Dependencies S) (request : NormalizationExecutionRequest) where
  continued-more :
      (n : ℕ) (excluded : List String) (ran : Ran S ThrownError Round)
      → ((attempt : String) (spent : List String) (s : S)
          → (attempt_rounds trim locale_compare deps request n spent (some attempt) false s).2
            ≢ ok none
          → attempt_rounds trim locale_compare deps request (suc n) spent (some attempt) false s
            ≡ attempt_rounds trim locale_compare deps request n spent (some attempt) false s)
      → (continue_with ran (rounds_from trim locale_compare deps request n excluded)).2 ≢ ok none
      → continue_with ran (rounds_from trim locale_compare deps request (suc n) excluded)
        ≡ continue_with ran (rounds_from trim locale_compare deps request n excluded)
  continued-more n excluded (events, s, ok (finished result)) ih h = refl
  continued-more n excluded (events, s, ok (retrying attempt failure id)) ih h =
      ap (λ ran. (events ++ ran.0, ran.1, ran.2))
        (ih attempt (exclude_failed excluded failure id) s h)
  continued-more n excluded (events, s, err e) ih h = refl

  attempt_rounds-more :
      (n : ℕ) (excluded : List String) (parent : Option String) (first : Bool) (s : S)
      → (attempt_rounds trim locale_compare deps request n excluded parent first s).2 ≢ ok none
      → attempt_rounds trim locale_compare deps request (suc n) excluded parent first s
        ≡ attempt_rounds trim locale_compare deps request n excluded parent first s
  unfolding attempt_rounds
  attempt_rounds-more zero excluded parent first s h = absurd (h refl)
  attempt_rounds-more (suc n) excluded parent first s h =
      continued-more n excluded (round trim locale_compare deps request excluded parent first s)
        (λ attempt spent s'. attempt_rounds-more n spent (some attempt) false s') h

  begun-more :
      (n : ℕ) (r : S × Result ThrownError Reconciliation)
      → (continue_with
          (noted (λ r. reconciled r ∷ []) r)
          (after_reconciliation trim locale_compare deps request n)).2
        ≢ ok none
      → continue_with
          (noted (λ r. reconciled r ∷ []) r)
          (after_reconciliation trim locale_compare deps request (suc n))
        ≡ continue_with
            (noted (λ r. reconciled r ∷ []) r)
            (after_reconciliation trim locale_compare deps request n)
  unfolding after_reconciliation
  begun-more n (s, ok r) h =
      let excluded = id_set [] r.attempted_provider_ids in
      let parent = r.fallback_parent_attempt_id in
      let first = is_empty excluded && is_none parent in
      ground (arith, attempt_rounds-more n excluded parent first s)
  begun-more n (s, err e) h = refl

  -- The rounds that a run is given do not matter to it unless it uses them up: with more of them it
  -- does the same and ends the same way.
  pub execute-more_rounds :
      (n more : ℕ) (s : S)
      → (execute trim locale_compare deps request n s).2 ≢ ok none
      → execute trim locale_compare deps request (more + n) s
        ≡ execute trim locale_compare deps request n s
  unfolding execute
  execute-more_rounds n zero s h =
      let none_more : 0 + n ≡ n = omega arith in
      ap (λ rounds. execute trim locale_compare deps request rounds s) none_more
  execute-more_rounds n (suc more) s h =
      let one_more : suc more + n ≡ suc (more + n) = omega arith in
      let same = execute-more_rounds n more s h in
      let r = deps.reconcile request.job_lease request.analysis_lease s in
      ap (λ rounds. execute trim locale_compare deps request rounds s) one_more
      ∙ begun-more (more + n) r (λ e. h (ap (λ ran. ran.2) (sym same) ∙ e))
      ∙ same
