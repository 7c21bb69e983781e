-- ===== src/Breaker/Machine.antt =====
-- The breaker's state machine: its invariant, its edges, and the count of its trips.
use mcp_conduit.Base.{ℕ, ◌+◌, ◌≤◌, ◌<◌, ◌≡◌, refl, ◌≢◌, ◌⊎◌, List, [], ◌∷◌, arith}
use mcp_conduit.Breaker.{
  CircuitState, closed, open_circuit, half_open, Config, CircuitBreaker, fresh, Call, asks, fails,
  succeeds, resets, step, run,
}

-- The thresholds that configuration validation lets through are positive.
pub record IsPositive (c : Config) : Type 0 where
  pub failures : 0 < c.failure_threshold
  pub probes : 0 < c.half_open_max_requests
  pub successes : 0 < c.success_threshold

abbrev InState : CircuitBreaker → CircuitState → Type 0
InState b closed =
    (b.failure_count < b.failure_threshold) × (b.success_count ≡ 0) × (b.half_open_requests ≡ 0)
InState b open_circuit = (b.success_count ≡ 0) × (b.half_open_requests ≡ 0)
InState b half_open =
    (b.success_count < b.success_threshold) × (b.half_open_requests ≤ b.half_open_max_requests)

-- What the counters are in each state.
abbrev pub IsValid : CircuitBreaker → Type 0
IsValid b = InState b b.state

step-IsValid :
    (b : CircuitBreaker) (c : Call) → IsPositive b.config → IsValid b → IsValid (step b c)
unfolding step
step-IsValid b (asks now) p v = ground arith
step-IsValid b (fails now) p v = ground arith
step-IsValid b succeeds p v = ground arith
step-IsValid b resets p v = ground arith

pub config-step : (b : CircuitBreaker) (c : Call) → (step b c).config ≡ b.config
unfolding step
config-step b (asks now) = ground arith
config-step b (fails now) = ground arith
config-step b succeeds = ground arith
config-step b resets = ground arith

run-IsValid_from :
    (b : CircuitBreaker) (cs : List Call) → IsPositive b.config → IsValid b → IsValid (run b cs)
unfolding run
run-IsValid_from b [] p v = v
run-IsValid_from b (c ∷ cs) p v =
    run-IsValid_from (step b c) cs (rw (config-step b c) p) (step-IsValid b c p v)

-- After any calls on a new breaker with positive thresholds: a closed breaker is below its failure
-- threshold and counts no probes or successes; an open one counts none either; a half-open one has
-- fewer successes than it needs and holds no more slots than it may.
pub run-IsValid : (c : Config) (cs : List Call) → IsPositive c → IsValid (run (fresh c) cs)
run-IsValid c cs p = run-IsValid_from (fresh c) cs p (p.failures, refl, refl)

-- The edges that the file's header comment lists, with their conditions, and the one of `reset`.
abbrev pub Edge : CircuitBreaker → Call → CircuitState → CircuitState → Type 0
Edge b (fails now) s t =
    ((s ≡ closed) × (t ≡ open_circuit) × (b.failure_threshold ≤ b.failure_count + 1))
    ⊎ ((s ≡ half_open) × (t ≡ open_circuit))
Edge b (asks now) s t =
    (s ≡ open_circuit) × (t ≡ half_open) × (b.last_failure_time + b.reset_timeout_ms ≤ now)
Edge b succeeds s t = (s ≡ half_open) × (t ≡ closed) × (b.success_threshold ≤ b.success_count + 1)
Edge b resets s t = t ≡ closed

-- A call that changes the state takes an edge of the table, and an edge whose condition holds is
-- taken.
pub step-Edge :
    (b : CircuitBreaker) (c : Call) (t : CircuitState)
    → ((step b c).state ≢ b.state → Edge b c b.state (step b c).state)
      × (Edge b c b.state t → (step b c).state ≡ t)
unfolding step
step-Edge b (asks now) t = ground arith
step-Edge b (fails now) t = ground arith
step-Edge b succeeds t = ground arith
step-Edge b resets t = ground arith

-- 1 if the breaker goes over to the open state.
abbrev trips_between : CircuitState → CircuitState → ℕ
trips_between closed open_circuit = 1
trips_between half_open open_circuit = 1
trips_between _ _ = 0

-- The times that a history of calls opens the breaker.
pub openings : CircuitBreaker → List Call → ℕ
openings b [] = 0
openings b (c ∷ cs) = trips_between b.state (step b c).state + openings (step b c) cs

trip_count-step :
    (b : CircuitBreaker) (c : Call)
    → (step b c).trip_count ≡ b.trip_count + trips_between b.state (step b c).state
unfolding step
trip_count-step b (asks now) = ground arith
trip_count-step b (fails now) = ground arith
trip_count-step b succeeds = ground arith
trip_count-step b resets = ground arith

-- The trip count grows by the number of times that the calls opened the breaker.
pub trip_count-run :
    (b : CircuitBreaker) (cs : List Call) → (run b cs).trip_count ≡ b.trip_count + openings b cs
unfolding run openings
trip_count-run b [] = omega arith
trip_count-run b (c ∷ cs) = omega (arith, trip_count-run (step b c) cs, trip_count-step b c)
