-- ===== src/Lib.antt =====
-- A verification library for the Amazon research agent, a TypeScript system that finds product
-- niches, spends a daily budget of paid API calls on them, asks AI providers about them and tells
-- which candidates are worth buying for.
--
-- The parts and how they interact. A worker (apps/worker) claims jobs from a durable queue, which is
-- a table of a Postgres database under leases. A daily job plans which candidates to research; each
-- research job makes paid calls of Jungle Scout when the budget and the policy on the candidate's
-- commercial evidence admit them, and asks the AI provider that the router picks. The products that
-- come back are grouped into families and scored; evidence on a candidate decides its stage.
--
-- Base: shared helpers on Booleans, lists, orders and stable sorting, tables, integers and results.
-- Shared: types that several parts use. Endpoints and Ai are packages/shared/src/jungle-scout.ts and
-- packages/shared/src/ai.ts; Numbers is the interface of JavaScript's floating-point numbers.
-- Budget: packages/api-budget/src/index.ts. `reserve`, `authorize`, `seed_cache` and `has_fresh_cache`
-- are the methods of `MemoryApiBudget`; `authorize_all` is the order that its promise chain gives.
-- Calls: apps/worker/src/jobs/budgeted-api-call.ts. `execute_budgeted_api_call` is
-- `executeBudgetedApiCall`; `fetch`, `perform` and `rethrow` are its `try` and `catch`.
-- Semaphores: apps/worker/src/providers/adapter-semaphore.ts. `acquire`, `release` and `drop_waiter`
-- are the registry's methods and the abort listener on one adapter; `permit_step` is one event.
-- Planner: packages/research-engine/src/planner.ts. `plan_daily_research` is `planDailyResearch`, and
-- `calculate_quotas` is `calculateQuotas`.
-- Router: packages/ai-router/src/router.ts. `route_ai_request` is `routeAiRequest`; `visit` is one
-- round of its loop over the catalog, `model_candidates` the loop over a provider's models.
-- Structured: packages/ai-router/src/structured.ts. `run_with_schema` is `runWithSchema`.
-- Research: packages/research-engine/src/product-family.ts (`group_product_families`),
-- packages/research-engine/src/relevance.ts and packages/research-engine/src/micro-niche.ts
-- (`cluster_micro_niches`, `segment_prices`), and
-- packages/research-engine/src/scoring/market-score.ts (`score_market_opportunity`).
-- Business: Evidence and Latest are packages/shared/src/research-business.ts, Costs and Assessment are
-- packages/shared/src/research-business-assessment.ts (`stage_of` is the stage and the gaps that
-- `assessResearchBusiness` gives), Admission is apps/worker/src/jobs/research-business-policy.ts.
-- Queue: Changes and Store are the table of jobs with the database functions of
-- supabase/migrations/202608290021_provider_attempt_transactions.sql and
-- supabase/migrations/20260905024323_queue_authority_recovery.sql; Repository and Durable are the
-- classes of packages/queue/src/queue.ts, ProbePayload its payload parser; Steps is the table under
-- any sequence of calls.
-- Worker: apps/worker/src/main.ts. `run_job` is `runJob`, over any queue and any handler.
-- Normalization: apps/worker/src/providers/normalization-execution-coordinator.ts. `execute` and
-- `finalize_completed` are the methods of the coordinator; `round` is one round of its loop,
-- `try_target` and `settle_failure` are the `try` and the `catch`; Dependencies is what it is given.
-- Lifecycle is the specification that its runs follow.
-- Daily: apps/worker/src/jobs/daily-research.ts. `run_daily_research` is `runDailyResearch`,
-- `continue_run` its part after the plan, `fan_out` its loop; Checkpoints has the row of the run with
-- the functions of supabase/migrations/202608280017_daily_research_plan.sql and
-- supabase/migrations/202608280018_daily_research_checkpoint.sql; Freshness tells which endpoints a
-- candidate still needs, and Pages reads in pages.
-- Imports: packages/jungle-scout/src/opportunity-csv.ts. `parse_opportunity_finder_csv` is
-- `parseOpportunityFinderCsv`; `read_document` is the CSV library's call with its callback.
-- Rules: packages/research-engine/src/rules. Opportunities is opportunity-rules.ts
-- (`evaluate_opportunity_rules`), Lexicons is lexicons.ts.
-- Tests: runs at concrete inputs.
--
-- Parameters. What the source takes from elsewhere is an argument: the arithmetic of
-- floating-point numbers (Numbers), the orders of texts (`locale_compare`, `compare_text`),
-- `Date.parse` (`parse_date`), the fractional remainders of the planner's quotas
-- (`compare_remainders`), the CSV library (CsvDocument) with the texts, numbers and field checks
-- of its reader (CsvOperations), the phrases of the rules (PhraseOperations), serialising to
-- JSON (`to_json`), the trimming of texts (`blank`, `trim`, `cut`), the identifiers that the
-- database draws, the rows that other transactions lock (`locked`), and the answers of the
-- budget, the provider and the database to a call (`CallAnswers`). Theorems that need an order
-- to be one say so.
--
-- Bounds. Times and counts are natural numbers or integers without a bound; the source's values
-- stay within the integers that its numbers represent exactly. The loop of the coordinator runs
-- for a number of rounds, that over the pages for a number of pages, and a theorem says which
-- number is enough; every other loop is a recursion on a list. One database call reads one
-- clock, and a statement is atomic.
--
-- Not modelled: the checks of single fields by the schema library; failures of the connection to
-- the database; the timers and the concurrency of the worker loop (a run takes what a heartbeat
-- has found as an argument); the other jobs, providers, the web application, notifications,
-- secrets, scripts and the remaining database functions.
pub mod Base
pub mod Shared
pub mod Budget
pub mod Calls
pub mod Semaphores
pub mod Planner
pub mod Router
pub mod Research
pub mod Business
pub mod Queue
pub mod Worker
pub mod Normalization
pub mod Daily
pub mod Structured
pub mod Imports
pub mod Rules
pub mod Tests
