-- ===== src/Semaphores.antt =====
-- apps/worker/src/providers/adapter-semaphore.ts: one permit for each subscription adapter, with a
-- queue of waiters. A waiter is an identifier; the promise of a waiter is settled by an event.
pub mod Exclusion
use amazon_research_agent.Base.{
  ℕ, Bool, true, false, not, ◌||◌, ◌&&◌, Option, none, some, List, [], ◌∷◌, ◌++◌, if◌then◌else◌,
  ◌==◌, filter, any, map,
}

pub record Waiter : Type 0 where
  pub id : ℕ
  pub active : Bool
  pub signal_aborted : Bool

pub record SemaphoreState : Type 0 where
  pub is_held : Bool
  pub queue : List Waiter

-- What a caller of the semaphore learns: the permit is granted, or the wait ends with the signal's
-- reason.
pub data Notice : Type 0 where
  granted rejected : ℕ → Notice

-- `acquire`: a new caller, whose signal may be aborted already.
unfoldable pub acquire : ℕ → Bool → SemaphoreState → SemaphoreState × List Notice
acquire id aborted s =
    if aborted
    then (s, rejected id ∷ [])
    else if not s.is_held
    then (record s { is_held = true }, granted id ∷ [])
    else (
      record s {
        queue = s.queue ++ record { id = id; active = true; signal_aborted = false } ∷ [];
      },
      [],
    )

-- `release`: the loop over the queue, with the flag as it is found.
unfoldable pub pass_on : Bool → List Waiter → SemaphoreState × List Notice
pass_on held [] = (record { is_held = false; queue = [] }, [])
pass_on held (waiter ∷ queue) =
    let (s, notices) = pass_on held queue in
    if not waiter.active
    then (s, notices)
    else if waiter.signal_aborted
    then (s, rejected waiter.id ∷ notices)
    else (record { is_held = held; queue = queue }, granted waiter.id ∷ [])

unfoldable pub release : SemaphoreState → SemaphoreState × List Notice
release s = pass_on s.is_held s.queue

-- The listener of a waiter's signal: the waiter leaves the queue, if it is still there.
unfoldable pub drop_waiter : ℕ → List Waiter → List Waiter × List Notice
drop_waiter id [] = ([], [])
drop_waiter id (waiter ∷ queue) =
    let (kept, notices) = drop_waiter id queue in
    if waiter.id == id && waiter.active then (queue, rejected id ∷ []) else (waiter ∷ kept, notices)

abbrev abort_signal : ℕ → Waiter → Waiter
abort_signal id waiter = if waiter.id == id then record waiter { signal_aborted = true } else waiter

-- The semaphore of one adapter with the callers that have a permit, whose work ends by a release,
-- whether it returns, throws or finds its signal aborted.
pub record Permits : Type 0 where
  pub state : SemaphoreState
  pub holders : List ℕ

pub data PermitEvent : Type 0 where
  arriving : ℕ → Bool → PermitEvent
  aborting listening leaving : ℕ → PermitEvent

unfoldable pub grants : List Notice → List ℕ
grants [] = []
grants (granted id ∷ notices) = id ∷ grants notices
grants (rejected id ∷ notices) = grants notices

abbrev holds : ℕ → List ℕ → Bool
holds id holders = any (λ h. h == id) holders

unfoldable pub leave : ℕ → List ℕ → List ℕ
leave id holders = filter (λ h. not (h == id)) holders

unfoldable pub permit_step : PermitEvent → Permits → Permits
permit_step (arriving id aborted) p =
    let (state, notices) = acquire id aborted p.state in
    record { state = state; holders = grants notices ++ p.holders }
permit_step (aborting id) p = record p {
  state = record p.state { queue = map (abort_signal id) p.state.queue };
}
permit_step (listening id) p = record p {
  state = record p.state { queue = (drop_waiter id p.state.queue).0 };
}
permit_step (leaving id) p =
    let (state, notices) = release p.state in
    if holds id p.holders
    then record { state = state; holders = leave id p.holders ++ grants notices }
    else p

unfoldable pub permit_run : List PermitEvent → Permits → Permits
permit_run [] p = p
permit_run (event ∷ events) p = permit_run events (permit_step event p)

abbrev pub no_permits : Permits
no_permits = record { state = record { is_held = false; queue = [] }; holders = [] }
