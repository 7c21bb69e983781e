-- ===== src/Breaker/Tests.antt =====
-- The breaker of src/router/circuit-breaker.ts on concrete histories, and instances of its theorems.
use mcp_conduit.Base.{◌≡◌, refl, List, [], ◌∷◌, arith, true, none, map, ◌≤◌, ◌<◌, ◌+◌, ◌≢◌}
use mcp_conduit.Breaker.{
  closed, open_circuit, half_open, CircuitBreaker, default_config, fresh, create, can_execute, Call,
  asks, fails, step, run,
}
use mcp_conduit.Breaker.Machine.{IsValid, IsPositive, run-IsValid, step-Edge, Edge}
use mcp_conduit.Breaker.Recovery.{serve_all, HasClosed, open-recovers, failures-open}

abbrev five_failures : List Call
five_failures = fails 10 ∷ fails 11 ∷ fails 12 ∷ fails 13 ∷ fails 14 ∷ []

abbrev opened : CircuitBreaker
opened = record (fresh default_config) {
  state = open_circuit;
  failure_count = 5;
  last_failure_time = 14;
  trip_count = 1;
}

opens :
    run
      (create (record {
        failure_threshold = none;
        reset_timeout_ms = none;
        half_open_max_requests = none;
        success_threshold = none;
      }))
      five_failures
    ≡ opened
unfolding run step create
opens = refl

probes :
    can_execute opened 30_014 ≡ (record opened { state = half_open; half_open_requests = 1 }, true)
unfolding can_execute
probes = refl

default_config-IsPositive : IsPositive default_config
default_config-IsPositive = omega arith

run-IsValid_example : IsValid (run (fresh default_config) five_failures)
run-IsValid_example = run-IsValid default_config five_failures default_config-IsPositive

step-Edge_example :
    ((step opened (asks 30_014)).state ≢ open_circuit
      → Edge opened (asks 30_014) open_circuit (step opened (asks 30_014)).state)
    × (Edge opened (asks 30_014) open_circuit half_open
        → (step opened (asks 30_014)).state ≡ half_open)
step-Edge_example = step-Edge opened (asks 30_014) half_open

abbrev probing : CircuitBreaker
probing = record opened { state = half_open; half_open_requests = 1 }

open-recovers_example : HasClosed (serve_all opened (30_014 ∷ 30_015 ∷ [])) 2
open-recovers_example =
    open-recovers opened 30_014 (30_015 ∷ []) refl (omega arith) (omega arith) refl

abbrev slotless : CircuitBreaker
slotless = record opened { config = record default_config { half_open_max_requests = 0 } }

failures-open_example :
    (5 ≤ 0 + 2 → (run (fresh default_config) (map fails (1 ∷ 2 ∷ []))).state ≡ open_circuit)
    × (0 + 2 < 5 → (run (fresh default_config) (map fails (1 ∷ 2 ∷ []))).state ≡ closed)
failures-open_example = failures-open (fresh default_config) (1 ∷ 2 ∷ []) refl (omega arith)
