-- ===== src/Router/Isolation.antt =====
-- A replica of src/router/registry.ts behind the router of src/router/router.ts: what reaches its breaker.
use mcp_conduit.Base.{ℕ, suc, ◌≡◌, Bool, true, false, some}
use mcp_conduit.Base.Text.{Text}
use mcp_conduit.Replica.{
  ReplicaInfo, HealthCheckConfig, Probe, has_open_breaker, begin_forward, end_forward,
  check_replica_health,
}
use mcp_conduit.Router.{ConduitRouter, select_replica}

-- A replica over HTTP, with the number of requests for which a router has selected it and which are not
-- forwarded to it yet. Such a request waits for the pipeline's checks and may fail them; the breaker is
-- asked only when it is forwarded.
abbrev pub Routed : Type 0
Routed = ReplicaInfo × ℕ

-- What routed requests and health checks do with the replica. The refresh of a server's tools, which
-- `refreshServer` forwards to it without asking a router, is no step, and neither are the other operations
-- of administration.
pub data Step : Routed → Routed → Type 0 where
  selected :
      {r : ReplicaInfo} {waiting : ℕ} (router : ConduitRouter) (server_id : Text)
      → (select_replica router server_id).1 ≡ some r
      → Step (r, waiting) (r, suc waiting)
  dropped : {r : ReplicaInfo} {waiting : ℕ} → Step (r, suc waiting) (r, waiting)
  sent :
      {r : ReplicaInfo} {waiting : ℕ} (now : ℕ)
      → Step (r, suc waiting) ((begin_forward r now).0, waiting)
  ended :
      {r : ReplicaInfo} {waiting : ℕ} (succeeded : Bool) (now : ℕ)
      → Step (r, waiting) (end_forward r succeeded now, waiting)
  checked :
      {r : ReplicaInfo} {waiting : ℕ} (config : HealthCheckConfig) (p : Probe)
      → Step (r, waiting) (check_replica_health config false r p, waiting)

pub data Reach (r : Routed) : Routed → Type 0 where
  here : Reach r r
  next : {q t : Routed} → Reach r q → Step q t → Reach r t

-- The breaker is open and no selected request is on its way.
abbrev pub IsLeftOut : Routed → Type 0
IsLeftOut (r, waiting) = (has_open_breaker r ≡ true) × (waiting ≡ 0)
