-- ===== src/Replica/Checks.antt =====
-- What a row of health checks makes of a replica.
use mcp_conduit.Base.{
  ℕ, ◌+◌, ◌≤◌, ◌≡◌, ◌↔◌, Bool, true, false, List, [], ◌∷◌, arith, length, All, Bool-cases, inl, inr,
}
use mcp_conduit.Replica.{
  ReplicaInfo, HealthCheckConfig, Probe, check_replica_health, begin_forward, end_forward,
}

-- Checks of a replica over HTTP, one after the other.
pub run_checks : HealthCheckConfig → ReplicaInfo → List Probe → ReplicaInfo
run_checks config r [] = r
run_checks config r (p ∷ ps) = run_checks config (check_replica_health config false r p) ps

answering-stays :
    (config : HealthCheckConfig) (r : ReplicaInfo) (ps : List Probe)
    → All (λ q. q.answered ≡ true) ps
    → r.health.healthy ≡ true
    → (run_checks config r ps).health.healthy ≡ true
unfolding run_checks check_replica_health
answering-stays config r [] h u = u
answering-stays config r (p ∷ ps) h u =
    answering-stays config (check_replica_health config false r p) ps h.1 (ground arith)

-- An unhealthy replica over HTTP that has answered one or more checks in a row is healthy exactly when its
-- successes in a row, those before included, have reached the threshold.
answering-healthy :
    (config : HealthCheckConfig) (r : ReplicaInfo) (p : Probe) (ps : List Probe)
    → All (λ q. q.answered ≡ true) (p ∷ ps)
    → r.health.healthy ≡ false
    → ((run_checks config r (p ∷ ps)).health.healthy ≡ true)
      ↔ (config.healthy_threshold ≤ r.health.consecutive_successes + length (p ∷ ps))
unfolding run_checks check_replica_health
answering-healthy config r p [] h u = ground arith
answering-healthy config r p (q ∷ ps) h u =
    let next = check_replica_health config false r p in
    elim (Bool-cases next.health.healthy) [
      | inl up ↦ ground (arith, answering-stays config next (q ∷ ps) h.1 up)
      | inr down ↦ ground (arith, answering-healthy config next q ps h.1 down)
    ]

-- Checks over HTTP never touch the breaker: one that is open stays open.
pub check_replica_health-breaker :
    (config : HealthCheckConfig) (r : ReplicaInfo) (p : Probe)
    → (check_replica_health config false r p).circuit_breaker ≡ r.circuit_breaker
unfolding check_replica_health
check_replica_health-breaker config r p = ground arith

-- A request that is let through and then ends leaves the count of connections as it was.
pub forward-connections :
    (r : ReplicaInfo) (now later : ℕ) (succeeded : Bool)
    → (begin_forward r now).1 ≡ true
    → (end_forward (begin_forward r now).0 succeeded later).active_connections
      ≡ r.active_connections
unfolding begin_forward end_forward
forward-connections r now later succeeded h = ground arith
