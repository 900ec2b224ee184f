-- ===== src/Semaphores/Exclusion.antt =====
-- Lemmas on the permits of apps/worker/src/providers/adapter-semaphore.ts.
use amazon_research_agent.Base.{
  ℕ, Bool, true, not, ◌||◌, ◌&&◌, List, [], ◌∷◌, ◌++◌, ◌==◌, filter, any, map, is_empty, length,
  take, ◌≤◌, ◌≡◌, refl, sym, ap, arith, subst, Bool-cases, inl, inr,
}
use amazon_research_agent.Semaphores.{
  Waiter, SemaphoreState, acquire, pass_on, release, drop_waiter, Permits, PermitEvent, arriving,
  aborting, listening, leaving, grants, leave, permit_step, permit_run, no_permits,
}

-- The permit is with one caller or with nobody, the flag tells which, and nobody waits for a free
-- permit.
pub record IsSound (p : Permits) : Type 0 where
  pub one_holder : length p.holders ≤ 1
  pub flag : p.state.is_held ≡ not (is_empty p.holders)
  pub no_idle_waiters : (p.state.is_held || is_empty p.state.queue) ≡ true

pass_on-flag :
    (held : Bool) (queue : List Waiter)
    → held ≡ true
    → (length (grants (pass_on held queue).1) ≤ 1)
      × ((pass_on held queue).0.is_held ≡ not (is_empty (grants (pass_on held queue).1)))
      × (((pass_on held queue).0.is_held || is_empty (pass_on held queue).0.queue) ≡ true)
unfolding pass_on grants
pass_on-flag held [] h = (omega arith, refl, refl)
pass_on-flag held (waiter ∷ queue) h = ground (arith, pass_on-flag held queue h)

abbrev pub is_waiting : Waiter → Bool
is_waiting waiter = waiter.active && not waiter.signal_aborted

pass_on-first :
    (held : Bool) (queue : List Waiter)
    → grants (pass_on held queue).1 ≡ take 1 (map (λ (w : Waiter). w.id) (filter is_waiting queue))
unfolding pass_on grants
pass_on-first held [] = refl
pass_on-first held (waiter ∷ queue) = ground (arith, pass_on-first held queue)

-- A release passes the permit to the first waiter that is active and whose signal is not aborted,
-- and to nobody else.
pub release-first :
    (s : SemaphoreState)
    → grants (release s).1 ≡ take 1 (map (λ (w : Waiter). w.id) (filter is_waiting s.queue))
unfolding release
release-first s = pass_on-first s.is_held s.queue

one_leaves :
    (id : ℕ) (holders : List ℕ)
    → length holders ≤ 1
    → any (λ h. h == id) holders ≡ true
    → leave id holders ≡ []
unfolding leave
one_leaves id [] l h = refl
one_leaves id (x ∷ []) l h = ground arith
one_leaves id (x ∷ y ∷ holders) l h = absurd (omega (arith, l))

drop_nobody :
    (id : ℕ) (queue : List Waiter)
    → is_empty queue ≡ true
    → is_empty (drop_waiter id queue).0 ≡ true
unfolding drop_waiter
drop_nobody id [] h = refl
drop_nobody id (waiter ∷ queue) h = absurd (cc h)

leaving-IsSound : (id : ℕ) (p : Permits) → IsSound p → IsSound (permit_step (leaving id) p)
unfolding permit_step release
leaving-IsSound id p h = elim (Bool-cases (any (λ holder. holder == id) p.holders)) [
  | inl e ↦
      let busy : p.state.is_held ≡ true = ground (arith, h.flag, e) in
      let passed = pass_on p.state.is_held p.state.queue in
      let sound = pass_on-flag p.state.is_held p.state.queue busy in
      let after : leave id p.holders ++ grants passed.1 ≡ grants passed.1 =
        ap (λ l. l ++ grants passed.1) (one_leaves id p.holders h.one_holder e) in
      let next : permit_step (leaving id) p
          ≡ record { state = passed.0; holders = grants passed.1 } =
        cc (e, after) in
      subst IsSound (sym next)
        (record { one_holder = sound.0; flag = sound.1; no_idle_waiters = sound.2 })
  | inr e ↦ let next : permit_step (leaving id) p ≡ p = cc e in subst IsSound (sym next) h
]

permit_step-IsSound :
    (event : PermitEvent) (p : Permits) → IsSound p → IsSound (permit_step event p)
unfolding permit_step acquire release grants
permit_step-IsSound (arriving id aborted) p h = ground arith
permit_step-IsSound (aborting id) p h = ground arith
permit_step-IsSound (listening id) p h = ground (arith, drop_nobody id p.state.queue)
permit_step-IsSound (leaving id) p h = leaving-IsSound id p h

runs : (events : List PermitEvent) (p : Permits) → IsSound p → IsSound (permit_run events p)
unfolding permit_run
runs [] p h = h
runs (event ∷ events) p h = runs events (permit_step event p) (permit_step-IsSound event p h)

-- From a semaphore that nobody holds, after every sequence of arrivals, aborts and departures at most
-- one caller has the permit, the flag tells whether one has it, and nobody waits for a free permit.
pub permit_run-IsSound : (events : List PermitEvent) → IsSound (permit_run events no_permits)
permit_run-IsSound events =
    runs events no_permits
      (record { one_holder = omega arith; flag = refl; no_idle_waiters = refl })
