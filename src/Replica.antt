-- ===== src/Replica.antt =====
-- A replica of an upstream server: the part of src/router/registry.ts that keeps its health, and the
-- guard that `forward` in src/proxy/mcp-client.ts and src/proxy/stdio-mcp-client.ts puts around a
-- request. A request is split in two, since others run while it is in flight; what the upstream
-- answers is an argument. Logging and metrics are left out.
pub mod Checks
mod Tests
use mcp_conduit.Base.{ℕ, ◌+◌, ◌-◌, Bool, true, false, not, Option, none, some, leb, if◌then◌else◌}
use mcp_conduit.Base.Text.{Text}
use mcp_conduit.Breaker.{
  CircuitBreaker, can_execute, on_success, on_failure, CircuitState, open_circuit, closed,
  half_open,
}

-- `BackendHealth`, without the label that names the backend.
pub record BackendHealth : Type 0 where
  pub healthy : Bool
  pub latency_ms : ℕ
  pub last_checked : ℕ
  pub consecutive_failures : ℕ
  pub consecutive_successes : ℕ

abbrev pub initial_health : Bool → BackendHealth
initial_health healthy = record {
  healthy = healthy;
  latency_ms = 0;
  last_checked = 0;
  consecutive_failures = 0;
  consecutive_successes = 0;
}

-- The client of a replica is its count of active connections and the breaker that both share.
pub record ReplicaInfo : Type 0 where
  pub url : Text
  pub active_connections : ℕ
  pub health : BackendHealth
  pub circuit_breaker : Option CircuitBreaker

pub record HealthCheckConfig : Type 0 where
  pub healthy_threshold : ℕ
  pub unhealthy_threshold : ℕ

-- `forward`, up to the request: `false` if the breaker refuses and `forward` throws.
unfoldable pub begin_forward : ReplicaInfo → ℕ → ReplicaInfo × Bool
begin_forward r now = elim r.circuit_breaker [
  | none ↦ (record r { active_connections = r.active_connections + 1 }, true)
  | some b ↦
      let (b', admitted) = can_execute b now in
      if admitted
      then (
        record r { active_connections = r.active_connections + 1; circuit_breaker = some b' },
        true,
      )
      else (record r { circuit_breaker = some b' }, false)
]

-- The rest of `forward`, once the request has succeeded or failed.
unfoldable pub end_forward : ReplicaInfo → Bool → ℕ → ReplicaInfo
end_forward r succeeded now = record r {
  active_connections = r.active_connections - 1;
  circuit_breaker = elim r.circuit_breaker [
    | none ↦ none
    | some b ↦ some (if succeeded then on_success b else on_failure b now)
  ];
}

-- `r.circuitBreaker && r.circuitBreaker.getState().state === 'open'`
abbrev pub is_open : CircuitState → Bool
is_open open_circuit = true
is_open closed = false
is_open half_open = false

abbrev pub has_open_breaker : ReplicaInfo → Bool
has_open_breaker r = elim r.circuit_breaker [ none ↦ false | some b ↦ is_open b.state ]

-- What happened to a health check: its start and its end, and whether it was answered in time.
pub record Probe : Type 0 where
  pub started : ℕ
  pub ended : ℕ
  pub answered : Bool

-- The end of the `try` block of `checkReplicaHealth`.
pub record_success : HealthCheckConfig → BackendHealth → Probe → BackendHealth
record_success config h p = record {
  healthy =
      if not h.healthy then leb config.healthy_threshold (h.consecutive_successes + 1) else true;
  latency_ms = p.ended - p.started;
  last_checked = p.ended;
  consecutive_failures = 0;
  consecutive_successes = h.consecutive_successes + 1;
}

-- Its `catch` block.
pub record_failure : HealthCheckConfig → BackendHealth → Probe → BackendHealth
record_failure config h p = record {
  healthy = not (leb config.unhealthy_threshold (h.consecutive_failures + 1));
  latency_ms = p.ended - p.started;
  last_checked = p.ended;
  consecutive_failures = h.consecutive_failures + 1;
  consecutive_successes = 0;
}

note_probe : HealthCheckConfig → ReplicaInfo → Bool → Probe → ReplicaInfo
note_probe config r true p = record r { health = record_success config r.health p }
note_probe config r false p = record r { health = record_failure config r.health p }

-- Over HTTP the check is a request of its own; over stdio it goes through the client.
unfoldable pub check_replica_health : HealthCheckConfig → Bool → ReplicaInfo → Probe → ReplicaInfo
unfolding note_probe record_success record_failure begin_forward end_forward
check_replica_health config false r p = note_probe config r p.answered p
check_replica_health config true r p =
    let (r', admitted) = begin_forward r p.started in
    if admitted
    then note_probe config (end_forward r' p.answered p.ended) p.answered p
    else note_probe config r' false p
