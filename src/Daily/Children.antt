-- ===== src/Daily/Children.antt =====
-- Theorems on the jobs that apps/worker/src/jobs/daily-research.ts enqueues for a candidate.
use Prim.Native.Nat.{Ordering}
use amazon_research_agent.Base.{
  String, Bool, true, false, ◌||◌, Option, none, some, List, [], ◌∷◌, ◌++◌, ◌≡◌, refl, arith, All,
  All-append, All-map, subst, any, is_empty, Bool-cases, inl, inr, if◌then◌else◌,
}
use amazon_research_agent.Base.Int.{ℤ}
use amazon_research_agent.Base.Table.{get}
use amazon_research_agent.Base.Actions.{Call, Ran, Action, continue_with, ◌and_then◌}
use amazon_research_agent.Base.Result.{Result, ok, err}
use amazon_research_agent.Shared.Numbers.{Numbers}
use amazon_research_agent.Shared.Endpoints.{
  JungleScoutEndpoint, product_database, keywords_by_keyword, historical_search_volume,
  sales_estimates, share_of_voice, same_endpoint,
}
use amazon_research_agent.Business.Evidence.{ResearchBusinessEvidence, ResearchBusinessSettings}
use amazon_research_agent.Business.Admission.{is_explicit_initial_check}
use amazon_research_agent.Business.Admission.Guards.{IsAdmissible}
use amazon_research_agent.Planner.{ResearchPlanItem}
use amazon_research_agent.Daily.Freshness.{
  FreshnessHours, EndpointEvidenceRow, MissingInput, has_fresh_result, freshness_hours_for_bucket,
  snapshot_cache_observation_at, latest_by_candidate_and_kind, missing_admitted_endpoints,
  admitted_requested_endpoints, ResearchBusinessAdmissionContext,
}
use amazon_research_agent.Daily.Fanout.{
  DailyError, IdempotencyKey, ChildJob, market_probe, deep_validation, enrich_strong_potential,
  send_digest, DailyDependencies, DailyEvent, enqueueing, Daily, reading, misses, when_do, enqueue,
  child_payload, probe_key, deep_key, enrich_key, load_missing_admitted_endpoints, enqueue_missing,
  enqueue_decision_aware_child, enqueue_item,
}
use amazon_research_agent.Daily.Endpoints.{context_of, missing_admitted_endpoints-IsAdmissible}

-- A job calls an endpoint.
abbrev pub serves : ChildJob → JungleScoutEndpoint → Bool
serves (market_probe id locale run_id purpose) endpoint = same_endpoint product_database endpoint
serves (deep_validation id locale) endpoint = same_endpoint keywords_by_keyword endpoint
serves (enrich_strong_potential id locale) endpoint =
    same_endpoint historical_search_volume endpoint
    || same_endpoint sales_estimates endpoint
    || same_endpoint share_of_voice endpoint
serves (send_digest run_id) endpoint = false

abbrev pub subject : ChildJob → String
subject (market_probe id locale run_id purpose) = id
subject (deep_validation id locale) = id
subject (enrich_strong_potential id locale) = id
subject (send_digest run_id) = run_id

-- A job for a candidate, which calls an endpoint of which a predicate holds.
pub record IsWanted (P : JungleScoutEndpoint → Type 0) (candidate_id : String) (job : ChildJob)
    : Type 0 where
  pub same_subject : subject job ≡ candidate_id
  pub endpoint : JungleScoutEndpoint
  pub is_served : serves job endpoint ≡ true
  pub holds : P endpoint

-- Only jobs that are wanted are enqueued.
abbrev pub EnqueuesWanted : (JungleScoutEndpoint → Type 0) → String → DailyEvent → Type 0
EnqueuesWanted P candidate_id (enqueueing job key) = IsWanted P candidate_id job
EnqueuesWanted P candidate_id _ = Unit {0}

any-All :
    {A : Type 0} (P : A → Type 0) (q : A → Bool) (xs : List A)
    → any q xs ≡ true
    → All P xs
    → (x : A) × (q x ≡ true) × P x
any-All P q [] h all = absurd (cc h)
any-All P q (x ∷ xs) h all = elim (Bool-cases (q x)) [
  | inl e ↦ (x, e, all.0)
  | inr e ↦ any-All P q xs (ground (arith, e)) all.1
]

-- What a run has done satisfies a predicate, and so does its result, if it has one.
abbrev Leaves : {V S E A : Type 0} → (V → Type 0) → (A → Type 0) → Ran V S E A → Type 0
Leaves J Q (events, s, ok a) = All J events × Q a
Leaves J Q (events, s, err e) = All J events

appended :
    {V S E A : Type 0} (J : V → Type 0) (Q : A → Type 0) (events : List V) (ran : Ran V S E A)
    → All J events
    → Leaves J Q ran
    → Leaves J Q (events ++ ran.0, ran.1, ran.2)
appended J Q events (more, s, ok a) h k = (All-append J events more h k.0, k.1)
appended J Q events (more, s, err e) h k = All-append J events more h k

continue_with-Leaves :
    {V S E A B : Type 0} (J : V → Type 0) (P : A → Type 0) (Q : B → Type 0) (ran : Ran V S E A)
    (f : A → Action V S E B)
    → Leaves J P ran
    → ((a : A) (s : S) → P a → Leaves J Q (f a s))
    → Leaves J Q (continue_with ran f)
continue_with-Leaves J P Q (events, s, ok a) f h k = appended J Q events (f a s) h.0 (k a s h.1)
continue_with-Leaves J P Q (events, s, err e) f h k = h

All-of_Leaves :
    {V S E A : Type 0} (J : V → Type 0) (Q : A → Type 0) (ran : Ran V S E A)
    → Leaves J Q ran
    → All J ran.0
All-of_Leaves J Q (events, s, ok a) h = h.0
All-of_Leaves J Q (events, s, err e) h = h

answer-Leaves :
    {V S E A : Type 0} (J : V → Type 0) (events : List V) (answer : S × Result E A)
    → All J events
    → Leaves J (λ a. (s : S) × (answer ≡ (s, ok a))) (events, answer.0, answer.1)
answer-Leaves J events (s, ok a) h = (h, (s, refl))
answer-Leaves J events (s, err e) h = h

abbrev Anything : Unit {0} → Type 0
Anything t = Unit {0}

if-Leaves :
    {V S E : Type 0} (J : V → Type 0) (b : Bool) (x y : Action V S E Unit) (s : S)
    → (b ≡ true → Leaves J Anything (x s))
    → (b ≡ false → Leaves J Anything (y s))
    → Leaves J Anything ((if b then x else y) s)
if-Leaves J true x y s h k = h refl
if-Leaves J false x y s h k = k refl

when_do-Leaves :
    {S : Type 0} (J : DailyEvent → Type 0) (b : Bool) (m : Daily S Unit) (s : S)
    → (b ≡ true → Leaves J Anything (m s))
    → Leaves J Anything (when_do b m s)
when_do-Leaves J true m s h = h refl
when_do-Leaves J false m s h = (tt, tt)

module _ (P : JungleScoutEndpoint → Type 0) (item : ResearchPlanItem) (locale : String)
    (missing : List JungleScoutEndpoint) where
  probe-IsWanted :
      (run_id : String) (mode : Option String)
      → misses product_database missing ≡ true
      → All P missing
      → IsWanted P item.id (child_payload item locale run_id mode)
  unfolding child_payload
  probe-IsWanted run_id mode h all =
      let (endpoint, served, p) = any-All P (same_endpoint product_database) missing h all in
      record { same_subject = refl; endpoint = endpoint; is_served = served; holds = p }

  deep-IsWanted :
      misses keywords_by_keyword missing ≡ true
      → All P missing
      → IsWanted P item.id (deep_validation item.id locale)
  deep-IsWanted h all =
      let (endpoint, served, p) = any-All P (same_endpoint keywords_by_keyword) missing h all in
      record { same_subject = refl; endpoint = endpoint; is_served = served; holds = p }

  enrich_one :
      (called : JungleScoutEndpoint)
      → ((endpoint : JungleScoutEndpoint)
          → same_endpoint called endpoint ≡ true
          → serves (enrich_strong_potential item.id locale) endpoint ≡ true)
      → misses called missing ≡ true
      → All P missing
      → IsWanted P item.id (enrich_strong_potential item.id locale)
  enrich_one called serving h all =
      let (endpoint, same, p) = any-All P (same_endpoint called) missing h all in
      record {
        same_subject = refl;
        endpoint = endpoint;
        is_served = serving endpoint same;
        holds = p;
      }

  enrich-IsWanted :
      (misses historical_search_volume missing
          || misses sales_estimates missing
          || misses share_of_voice missing)
        ≡ true
      → All P missing
      → IsWanted P item.id (enrich_strong_potential item.id locale)
  enrich-IsWanted h all = elim (Bool-cases (misses historical_search_volume missing)) [
    | inl e ↦ enrich_one historical_search_volume (λ endpoint s. ground (arith, s)) e all
    | inr no_history ↦ elim (Bool-cases (misses sales_estimates missing)) [
      | inl e ↦ enrich_one sales_estimates (λ endpoint s. ground (arith, s)) e all
      | inr no_sales ↦
          enrich_one share_of_voice (λ endpoint s. ground (arith, s))
            (ground (arith, h, no_history, no_sales)) all
    ]
  ]

module _ {S N : Type 0} (parse_date : String → Option ℤ) (compare_text : String → String → Ordering)
    (deps : DailyDependencies S N) (now : ℤ) where
  enqueue-Leaves :
      (P : JungleScoutEndpoint → Type 0) (id : String) (job : ChildJob) (key : IdempotencyKey)
      (s : S)
      → IsWanted P id job
      → Leaves (EnqueuesWanted P id) Anything (enqueue parse_date compare_text deps now job key s)
  enqueue-Leaves P id job key s h =
      let J = EnqueuesWanted P id in
      let answer = deps.enqueue_job job key s in
      let Q : String → Type 0 = λ a. (s' : S) × (answer ≡ (s', ok a)) in
      continue_with-Leaves J Q Anything (enqueueing job key ∷ [], answer.0, answer.1)
        (λ _ t. ([], t, ok tt)) (answer-Leaves J (enqueueing job key ∷ []) answer (h, tt))
        (λ _ t _. (tt, tt))

  enqueue_missing-Leaves :
      (P : JungleScoutEndpoint → Type 0) (item : ResearchPlanItem) (locale run_id : String)
      (mode suffix : Option String) (missing : List JungleScoutEndpoint) (s : S)
      → All P missing
      → Leaves (EnqueuesWanted P item.id) Anything (
          enqueue_missing parse_date compare_text deps now item locale run_id mode suffix missing s)
  unfolding enqueue_missing
  enqueue_missing-Leaves P item locale run_id mode none missing s all =
      let J = EnqueuesWanted P item.id in
      let job = child_payload item locale run_id mode in
      let key = probe_key run_id item.bucket item.id in
      if-Leaves J (misses product_database missing)
        (enqueue parse_date compare_text deps now job key) (λ t. ([], t, ok tt)) s
        (λ e.
          enqueue-Leaves P item.id job key s
            (probe-IsWanted P item locale missing run_id mode e all))
        (λ e. (tt, tt))
  enqueue_missing-Leaves P item locale run_id mode (some suffix) missing s all =
      let J = EnqueuesWanted P item.id in
      let job = child_payload item locale run_id mode in
      let key = probe_key run_id item.bucket item.id in
      let deep = deep_validation item.id locale in
      let enrich = enrich_strong_potential item.id locale in
      let deep_of = deep_key run_id item.bucket item.id suffix in
      let enrich_of = enrich_key run_id item.bucket item.id suffix in
      let needs_enrich =
        misses historical_search_volume missing
        || misses sales_estimates missing
        || misses share_of_voice missing in
      let first =
        when_do (misses keywords_by_keyword missing)
          (enqueue parse_date compare_text deps now deep deep_of) in
      let second =
        when_do needs_enrich (enqueue parse_date compare_text deps now enrich enrich_of) in
      if-Leaves J (misses product_database missing)
        (enqueue parse_date compare_text deps now job key) (first and_then λ _. second) s
        (λ e.
          enqueue-Leaves P item.id job key s
            (probe-IsWanted P item locale missing run_id mode e all))
        (λ _.
          continue_with-Leaves J Anything Anything (first s) (λ _. second)
            (when_do-Leaves J (misses keywords_by_keyword missing)
              (enqueue parse_date compare_text deps now deep deep_of) s
              (λ e.
                enqueue-Leaves P item.id deep deep_of s
                  (deep-IsWanted P item locale missing e all)))
            (λ _ t _.
              when_do-Leaves J needs_enrich
                (enqueue parse_date compare_text deps now enrich enrich_of) t
                (λ e.
                  enqueue-Leaves P item.id enrich enrich_of t
                    (enrich-IsWanted P item locale missing e all))))

  -- A value that a read has returned.
  abbrev pub Returned : {A : Type 0} → Call S DailyError A → A → Type 0
  Returned call a = (s : S) × (s' : S) × (call s ≡ (s', ok a))

  abbrev pub input_of :
      ResearchPlanItem → FreshnessHours → List EndpointEvidenceRow → Option String → MissingInput
  input_of item settings rows captured = record {
    endpoint_evidence = get (latest_by_candidate_and_kind compare_text rows) item.id;
    product_snapshot_at = snapshot_cache_observation_at parse_date captured now;
    product_freshness_hours = freshness_hours_for_bucket settings item.bucket;
    now = now;
  }

  -- By what the run has read, an endpoint has no fresh result.
  pub record IsStale (item : ResearchPlanItem) (endpoint : JungleScoutEndpoint) : Type 0 where
    pub settings : FreshnessHours
    pub rows : List EndpointEvidenceRow
    pub captured : Option String
    pub read_settings : Returned deps.read_settings settings
    pub read_rows : Returned (deps.read_evidence item.id) rows
    pub read_captured : Returned (deps.read_snapshot item.id) captured
    pub no_fresh_result :
        has_fresh_result parse_date (input_of item settings rows captured) endpoint ≡ false

  reading-Leaves :
      {A B : Type 0} (J : DailyEvent → Type 0) (Q : B → Type 0) (call : Call S DailyError A)
      (f : A → Daily S B) (s : S)
      → ((a : A) (t : S) → Returned call a → Leaves J Q (f a t))
      → Leaves J Q ((reading call and_then f) s)
  reading-Leaves J Q call f s h =
      let answer = call s in
      continue_with-Leaves J (λ a. (s' : S) × (answer ≡ (s', ok a))) Q ([], answer.0, answer.1) f
        (answer-Leaves J [] answer tt) (λ a t r. h a t (s, r.0, r.1))

  load_missing-Leaves :
      (J : DailyEvent → Type 0) (Q : JungleScoutEndpoint → Type 0) (item : ResearchPlanItem)
      (admitted : List JungleScoutEndpoint) (s : S)
      → ((input : MissingInput)
          → ((endpoint : JungleScoutEndpoint)
              → has_fresh_result parse_date input endpoint ≡ false
              → IsStale item endpoint)
          → All Q (missing_admitted_endpoints parse_date input admitted))
      → Leaves J (All Q) (
          load_missing_admitted_endpoints parse_date compare_text deps now item.id admitted
            item.bucket s)
  unfolding load_missing_admitted_endpoints
  load_missing-Leaves J Q item admitted s h =
      reading-Leaves J (All Q) deps.read_settings _ s (λ settings t r.
        reading-Leaves J (All Q) (deps.read_evidence item.id) _ t (λ rows u r'.
          reading-Leaves J (All Q) (deps.read_snapshot item.id) _ u (λ captured v r''. (
            tt,
            h (input_of item settings rows captured) (λ endpoint stale. record {
              settings = settings;
              rows = rows;
              captured = captured;
              read_settings = r;
              read_rows = r';
              read_captured = r'';
              no_fresh_result = stale;
            }),
          ))))

  aware_child-Leaves :
      (J : DailyEvent → Type 0) (item : ResearchPlanItem) (locale run_id : String)
      (mode : Option String) (context : ResearchBusinessAdmissionContext N) (s s' : S)
      → deps.load_context item.id s ≡ (s', ok context)
      → ((t : S)
          → Leaves J Anything (
              (load_missing_admitted_endpoints parse_date compare_text deps now item.id
                    (admitted_requested_endpoints context)
                    item.bucket
                  and_then λ missing.
                      enqueue_missing parse_date compare_text deps now item locale run_id mode
                        context.idempotency_suffix missing)
                t))
      → Leaves J Anything
          (enqueue_decision_aware_child parse_date compare_text deps now item locale run_id mode s)
  unfolding enqueue_decision_aware_child
  aware_child-Leaves J item locale run_id mode context s s' r h =
      let answer = deps.load_context item.id s in
      let none_wanted : Daily S Unit = λ t. ([], t, ok tt) in
      let rest = λ (c : ResearchBusinessAdmissionContext N).
        load_missing_admitted_endpoints parse_date compare_text deps now item.id
          (admitted_requested_endpoints c) item.bucket
        and_then λ missing.
            enqueue_missing parse_date compare_text deps now item locale run_id mode
              c.idempotency_suffix missing in
      let next = λ (c : ResearchBusinessAdmissionContext N).
        if is_empty (admitted_requested_endpoints c) then none_wanted else rest c in
      let Q = λ (c : ResearchBusinessAdmissionContext N). (t : S) × (answer ≡ (t, ok c)) in
      continue_with-Leaves J Q Anything ([], answer.0, answer.1) next (answer-Leaves J [] answer tt)
        (λ c t found.
          let same : context ≡ c = cc (r, found.1) in
          subst (λ d. Leaves J Anything (next d t)) same
            (if-Leaves J (is_empty (admitted_requested_endpoints context)) none_wanted
              (rest context) t (λ _. (tt, tt)) (λ _. h t)))

module _ {S : Type 0} (n : Numbers) (parse_date : String → Option ℤ)
    (compare_text : String → String → Ordering) (now : ℤ) where
  open n use {Number}

  module _ (deps : DailyDependencies S Number) (e : ResearchBusinessEvidence Number)
      (settings : ResearchBusinessSettings Number) (item : ResearchPlanItem) where
    -- An endpoint that the evidence of the candidate requests, that the policy admits, and that has
    -- no fresh result.
    abbrev pub IsDue : JungleScoutEndpoint → Type 0
    IsDue endpoint =
        IsAdmissible n parse_date now e settings endpoint
          (is_explicit_initial_check (some e) endpoint)
        × IsStale parse_date compare_text deps now item endpoint

    -- With a client, each job that the daily run enqueues for a candidate with evidence is a job of
    -- that candidate, and calls an endpoint that is due: the commercial evidence requests it, the
    -- policy on paid calls admits it (the candidate is in research with open first checks, and its
    -- launch cash is within the budget), and the rows that the run has read have no fresh result.
    pub enqueue_item-EnqueuesWanted :
        (suffix mode : Option String) (locale run_id : String) (s s' : S)
        → deps.has_client ≡ true
        → deps.load_context item.id s ≡ (s', ok (context_of n parse_date now e settings suffix))
        → All
            (EnqueuesWanted IsDue item.id)
            (enqueue_item parse_date compare_text deps now item locale run_id mode s).0
    unfolding enqueue_item
    enqueue_item-EnqueuesWanted suffix mode locale run_id s s' client r =
        let J = EnqueuesWanted IsDue item.id in
        let context = context_of n parse_date now e settings suffix in
        let admitted = admitted_requested_endpoints context in
        let ran =
          enqueue_decision_aware_child parse_date compare_text deps now item locale run_id mode s in
        let due : Leaves J Anything ran =
          aware_child-Leaves parse_date compare_text deps now J item locale run_id mode context s s'
            r
            (λ t.
              continue_with-Leaves J (All IsDue) Anything
                (load_missing_admitted_endpoints parse_date compare_text deps now item.id admitted
                  item.bucket t)
                (λ missing.
                  enqueue_missing parse_date compare_text deps now item locale run_id mode suffix
                    missing)
                (load_missing-Leaves parse_date compare_text deps now J IsDue item admitted t
                  (λ input stale.
                    All-map (λ endpoint found. (found.0, stale endpoint found.1))
                      (missing_admitted_endpoints parse_date input admitted)
                      (missing_admitted_endpoints-IsAdmissible n parse_date now e settings suffix
                        input)))
                (λ missing u all.
                  enqueue_missing-Leaves parse_date compare_text deps now IsDue item locale run_id
                    mode suffix missing u all)) in
        rw client (tt, All-of_Leaves J Anything ran due)
