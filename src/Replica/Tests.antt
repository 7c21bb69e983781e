-- ===== src/Replica/Tests.antt =====
-- Replicas on concrete checks, and instances of their theorems.
use mcp_conduit.Base.{◌≡◌, refl, true, false, some, []}
use mcp_conduit.Breaker.{fresh, default_config, can_execute}
use mcp_conduit.Replica.{
  ReplicaInfo, HealthCheckConfig, Probe, initial_health, check_replica_health,
}

abbrev config : HealthCheckConfig
config = record { healthy_threshold = 2; unhealthy_threshold = 3 }

abbrev up : ReplicaInfo
up = record {
  url = [];
  active_connections = 0;
  health = initial_health true;
  circuit_breaker = some (fresh default_config);
}

abbrev down : ReplicaInfo
down = record up { health = initial_health false }

abbrev answered_at : Probe
answered_at = record { started = 10; ended = 12; answered = true }

abbrev failed_at : Probe
failed_at = record { started = 20; ended = 25; answered = false }

latency : (check_replica_health config true up failed_at).health.latency_ms ≡ 5
unfolding check_replica_health can_execute
latency = refl
