-- ===== src/Queue/Changes.antt =====
-- What the functions on the table of jobs ask of one row and do to it, from
-- supabase/migrations/202608290021_provider_attempt_transactions.sql and
-- supabase/migrations/20260905024323_queue_authority_recovery.sql.
use Prim.Native.Nat.{compare, Ordering}
use amazon_research_agent.Base.{
  ℕ, String, Bool, true, false, not, ◌&&◌, ◌||◌, Option, none, some, ◌+◌, ◌*◌, if◌then◌else◌, ltb,
  leb, ◌==◌, str_eq,
}
use amazon_research_agent.Base.Int.{ℤ, ltb_ℤ}
use amazon_research_agent.Base.Order.{or_else}
use amazon_research_agent.Queue.{
  JobStatus, queued, running, completed, failed, JobLeaseIdentity, JobRow, JobInsert,
}

abbrev pub is_running : JobStatus → Bool
is_running running = true
is_running _ = false

abbrev pub is_queued : JobStatus → Bool
is_queued queued = true
is_queued _ = false

-- Is the value null?
abbrev pub is_null {ℓ} : {A : Type ℓ} → Option A → Bool
is_null none = true
is_null (some a) = false

abbrev pub text_is : Option String → String → Bool
text_is none t = false
text_is (some s) t = str_eq s t

-- A null time is neither before nor after another.
abbrev pub before : Option ℕ → ℕ → Bool
before none now = false
before (some t) now = ltb t now

abbrev pub after : Option ℕ → ℕ → Bool
after none now = false
after (some t) now = ltb now t

abbrev pub valid_lease_seconds : ℕ → Bool
valid_lease_seconds s = not (ltb s 1 || ltb 86400 s)

-- `clock_timestamp() + make_interval(secs => lease_seconds)`.
abbrev pub lease_end : ℕ → ℕ → ℕ
lease_end now seconds = now + 1000 * seconds

abbrev compare_ℤ : ℤ → ℤ → Ordering
compare_ℤ a b = if ltb_ℤ a b then Ordering.lt else if ltb_ℤ b a then Ordering.gt else Ordering.eq

abbrev pub at_or_before : Option ℕ → ℕ → Bool
at_or_before none now = false
at_or_before (some t) now = leb t now

abbrev time_or : Option ℕ → ℕ → ℕ
time_or none now = now
time_or (some t) now = t

module _ {J : Type 0} where
  abbrev pub json_or : Option J → J → J
  json_or none j = j
  json_or (some c) j = c

  -- The rows that a claim may take.
  unfoldable pub claimable : ℕ → (String → Bool) → JobRow J → Bool
  claimable now locked j =
      ltb j.attempts j.max_attempts
      && ((is_queued j.status && leb j.available_at now)
          || (is_running j.status && before j.leased_until now))
      && not (locked j.id)

  unfoldable pub compare_claims : JobRow J → JobRow J → Ordering
  compare_claims a b =
      or_else (compare_ℤ a.priority b.priority)
        (or_else (compare a.available_at b.available_at) (compare a.created_at b.created_at))

  abbrev pub same_id : JobRow J → JobRow J → Bool
  same_id a b = str_eq a.id b.id

  abbrev pub claimed : ℕ → String → ℕ → JobRow J → JobRow J
  claimed now worker seconds j = record j {
    status = running;
    leased_by = some worker;
    leased_until = some (lease_end now seconds);
    attempts = j.attempts + 1;
    updated_at = now;
  }

  -- The row belongs to the lease, which has not run out.
  unfoldable pub held : JobLeaseIdentity → ℕ → JobRow J → Bool
  held lease now j =
      str_eq j.id lease.job_id
      && is_running j.status
      && text_is j.leased_by lease.owner
      && (j.attempts == lease.epoch)
      && after j.leased_until now

  abbrev pub extended : ℕ → ℕ → JobRow J → JobRow J
  extended now seconds j = record j {
    leased_until = some (lease_end now seconds);
    updated_at = now;
  }

  abbrev pub finished : ℕ → J → JobRow J → JobRow J
  finished now checkpoint j = record j {
    status = completed;
    checkpoint = checkpoint;
    leased_until = none;
    leased_by = none;
    last_error = none;
    updated_at = now;
  }

  abbrev pub released : ℕ → Option String → ℕ → Option J → JobRow J → JobRow J
  released now error_text retry_at checkpoint j =
      let exhausted = leb j.max_attempts j.attempts in
      record j {
        status = if exhausted then failed else queued;
        available_at = if exhausted then j.available_at else retry_at;
        leased_until = none;
        leased_by = none;
        last_error = error_text;
        checkpoint = json_or checkpoint j.checkpoint;
        updated_at = now;
      }

  unfoldable pub exhausted_lease : ℕ → JobRow J → Bool
  exhausted_lease now j =
      is_running j.status && leb j.max_attempts j.attempts && at_or_before j.leased_until now

  abbrev pub terminalized : ℕ → JobRow J → JobRow J
  terminalized now j = record j {
    status = failed;
    leased_by = none;
    leased_until = none;
    last_error = some "queue_lease_expired_after_final_attempt";
    updated_at = now;
  }

  abbrev pub new_row : J → String → ℕ → J → JobInsert J → JobRow J
  new_row empty new_id now payload input = record {
    id = new_id;
    kind = input.kind;
    payload = payload;
    status = queued;
    priority = input.priority;
    available_at = time_or input.available_at now;
    leased_until = none;
    leased_by = none;
    attempts = 0;
    max_attempts = 5;
    idempotency_key = input.idempotency_key;
    checkpoint = empty;
    last_error = none;
    created_at = now;
    updated_at = now;
  }

  -- A unique column already has the value.
  abbrev pub conflicts : String → String → JobRow J → Bool
  conflicts new_id key j = str_eq j.id new_id || str_eq j.idempotency_key key
