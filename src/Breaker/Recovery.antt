-- ===== src/Breaker/Recovery.antt =====
-- When the breaker opens, how long it stays open, and how it closes again.
use mcp_conduit.Base.{
  ℕ, ◌+◌, ◌≤◌, ◌<◌, ◌≡◌, refl, ap, ◌∙◌, ◌≢◌, ◌⊎◌, inl, inr, List, [], ◌∷◌, arith, Bool, true, false,
  if◌then◌else◌, length, map, All,
}
use mcp_conduit.Breaker.{
  closed, open_circuit, half_open, CircuitBreaker, can_execute, on_success, on_failure, Call, asks,
  fails, succeeds, resets, step, run,
}

-- While an open breaker's timeout runs, asking changes nothing and is refused.
pub open-refuses :
    (b : CircuitBreaker) (times : List ℕ)
    → b.state ≡ open_circuit
    → All (λ now. now < b.last_failure_time + b.reset_timeout_ms) times
    → (run b (map asks times) ≡ b) × All (λ now. (can_execute b now).1 ≡ false) times
unfolding run step
open-refuses b [] e h = (refl, tt)
open-refuses b (now ∷ times) e h = ground (arith, open-refuses b times e h.1)

-- A half-open breaker whose slots are all taken refuses every request, however late it comes: only a
-- report of a probe, or a reset, gets it out of that state.
pub full-refuses :
    (b : CircuitBreaker) (times : List ℕ)
    → b.state ≡ half_open
    → b.half_open_max_requests ≤ b.half_open_requests
    → (run b (map asks times) ≡ b) × All (λ now. (can_execute b now).1 ≡ false) times
unfolding run step
full-refuses b [] e h = (refl, tt)
full-refuses b (now ∷ times) e h = ground (arith, full-refuses b times e h)

-- One request at the time `now` that succeeds if it is let through, and whether it was.
pub serve : CircuitBreaker → ℕ → CircuitBreaker × Bool
serve b now =
    let (b', granted) = can_execute b now in if granted then (on_success b', true) else (b', false)

-- Such requests one after the other, and how many were let through.
pub serve_all : CircuitBreaker → List ℕ → CircuitBreaker × ℕ
serve_all b [] = (b, 0)
serve_all b (now ∷ times) =
    let (b', granted) = serve b now in
    let (end, more) = serve_all b' times in (end, if granted then more + 1 else more)

-- The breaker has closed with its counters cleared, and `n` requests were let through.
abbrev pub HasClosed : CircuitBreaker × ℕ → ℕ → Type 0
HasClosed (b, granted) n =
    (b.state ≡ closed)
    × (b.failure_count ≡ 0)
    × (b.success_count ≡ 0)
    × (b.half_open_requests ≡ 0)
    × (granted ≡ n)

serve-half_open :
    (b : CircuitBreaker) (now : ℕ)
    → b.state ≡ half_open
    → b.half_open_requests < b.half_open_max_requests
    → b.success_count + 1 < b.success_threshold
    → serve b now ≡ (record b { success_count = b.success_count + 1 }, true)
unfolding serve can_execute on_success
serve-half_open b now e r s = ground arith

serve-closing :
    (b : CircuitBreaker) (now : ℕ)
    → b.state ≡ half_open
    → b.half_open_requests < b.half_open_max_requests
    → b.success_threshold ≤ b.success_count + 1
    → HasClosed ((serve b now).0, if (serve b now).1 then 1 else 0) 1
unfolding serve can_execute on_success
serve-closing b now e r s = ground arith

serve_all-half_open :
    (b : CircuitBreaker) (times : List ℕ)
    → b.state ≡ half_open
    → b.half_open_requests < b.half_open_max_requests
    → b.success_count + length times ≡ b.success_threshold
    → 0 < length times
    → HasClosed (serve_all b times) (length times)
unfolding serve_all
serve_all-half_open b [] e r s h = absurd (omega arith)
serve_all-half_open b (now ∷ []) e r s h = ground (arith, serve-closing b now e r)
serve_all-half_open b (now ∷ later ∷ times) e r s h =
    let ih =
      serve_all-half_open (record b { success_count = b.success_count + 1 }) (later ∷ times) e r
        (omega arith) (omega arith) in
    rw (serve-half_open b now e r (omega arith)) (ground (arith, ih))

-- The first request after the timeout is a probe, as in a half-open breaker with cleared counters.
serve-open :
    (b : CircuitBreaker) (now : ℕ)
    → b.state ≡ open_circuit
    → b.last_failure_time + b.reset_timeout_ms ≤ now
    → serve b now
      ≡ serve (record b { state = half_open; half_open_requests = 0; success_count = 0 }) now
unfolding serve can_execute
serve-open b now e h = ground arith

-- Recovery: after the timeout, as many successful requests as the success threshold asks for are all
-- let through, even with a single probe slot, and close the breaker.
pub open-recovers :
    (b : CircuitBreaker) (now : ℕ) (times : List ℕ)
    → b.state ≡ open_circuit
    → 0 < b.half_open_max_requests
    → b.last_failure_time + b.reset_timeout_ms ≤ now
    → length times + 1 ≡ b.success_threshold
    → HasClosed (serve_all b (now ∷ times)) b.success_threshold
unfolding serve_all
open-recovers b now times e m h s =
    let ih =
      serve_all-half_open
        (record b { state = half_open; half_open_requests = 0; success_count = 0 }) (now ∷ times)
        refl m (omega arith) (omega arith) in
    rw (serve-open b now e h) (ground (arith, ih))

abbrev IsDead : CircuitBreaker → Type 0
IsDead b = (b.state ≢ closed) × (b.half_open_max_requests ≡ 0)

-- An open breaker that is configured without probe slots refuses every request, whatever the times of
-- the requests and of late failures.
pub no_slots-refuses :
    (b : CircuitBreaker) (cs : List Call) (now : ℕ)
    → IsDead b
    → All (λ c. (c ≢ succeeds) × (c ≢ resets)) cs
    → (can_execute (run b cs) now).1 ≡ false
unfolding run step
no_slots-refuses b [] now d h = ground arith
no_slots-refuses b (asks t ∷ cs) now d h =
    no_slots-refuses (can_execute b t).0 cs now (ground arith) h.1
no_slots-refuses b (fails t ∷ cs) now d h =
    no_slots-refuses (on_failure b t) cs now (ground arith) h.1
no_slots-refuses b (succeeds ∷ cs) now d h = absurd (h.0.0 refl)
no_slots-refuses b (resets ∷ cs) now d h = absurd (h.0.1 refl)

open-fails :
    (b : CircuitBreaker) (times : List ℕ)
    → b.state ≡ open_circuit
    → (run b (map fails times)).state ≡ open_circuit
unfolding run step
open-fails b [] e = e
open-fails b (t ∷ times) e = open-fails (on_failure b t) times (ground arith)

failed :
    (b : CircuitBreaker) (t : ℕ)
    → b.state ≡ closed
    → b.failure_count < b.failure_threshold
    → ((b.failure_threshold ≤ b.failure_count + 1) × ((on_failure b t).state ≡ open_circuit))
      ⊎ ((b.failure_count + 1 < b.failure_threshold)
          × (on_failure b t
              ≡ record b { last_failure_time = t; failure_count = b.failure_count + 1 }))
unfolding on_failure
failed b t e h = ground arith

-- Failures in a row on a closed breaker open it exactly when they reach the threshold.
pub failures-open :
    (b : CircuitBreaker) (times : List ℕ)
    → b.state ≡ closed
    → b.failure_count < b.failure_threshold
    → (b.failure_threshold ≤ b.failure_count + length times
        → (run b (map fails times)).state ≡ open_circuit)
      × (b.failure_count + length times < b.failure_threshold
          → (run b (map fails times)).state ≡ closed)
unfolding run step
failures-open b [] e h = ground arith
failures-open b (t ∷ times) e h = elim (failed b t e h) [
  | inl (reached, opened) ↦ (λ _. open-fails _ times opened, λ short. absurd (omega arith))
  | inr (below, same) ↦
      let ih =
        failures-open (record b { last_failure_time = t; failure_count = b.failure_count + 1 })
          times e below in
      let next = ap (λ c. (run c (map fails times)).state) same in
      (λ long. next ∙ ih.0 (omega arith), λ short. next ∙ ih.1 (omega arith))
]
