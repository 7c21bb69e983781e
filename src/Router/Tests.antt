-- ===== src/Router/Tests.antt =====
-- The router of src/router/router.ts on a concrete registry, and instances of its theorems.
use mcp_conduit.Base.{
  ℕ, ◌+◌, ◌%◌, ◌≤◌, ◌<◌, ◌≡◌, refl, true, false, Option, none, some, arith, [], ◌∷◌, Elem, inl,
  ℕ_discrete, get_elem?, length,
}
use mcp_conduit.Base.JsMap
use mcp_conduit.Base.JsMap.{Distinct}
use mcp_conduit.Base.Text.{Text, text_dec, codes}
use mcp_conduit.Breaker.{CircuitBreaker, fresh, default_config, open_circuit}
use mcp_conduit.Namespace.{prefix, apply_namespace, resolve_tool, build_namespace_map}
use mcp_conduit.Namespace.Prefixes.{DotFree}
use mcp_conduit.Registry.{
  ServerRegistry, ServerInfo, find_server, get_healthy_replicas, rebuild_namespace_map,
}
use mcp_conduit.Replica.{ReplicaInfo, Probe, initial_health, check_replica_health}
use mcp_conduit.Router.{
  ConduitRouter, round_robin, least_connections, AggregatedTool, select_replica, counter_of,
  get_aggregated_tools_with_server_ids, resolve_tool_name, resolve_tool_call,
}
use mcp_conduit.Router.Balancing.{least_connections-least, after_selections, round_robin-cycles}
use mcp_conduit.Router.Listing.{Offers, aggregated-Offers, rebuild-resolves}
use mcp_conduit.Tools.{ToolMetadata}

abbrev gh : Text
gh = codes "gh"

abbrev list : ToolMetadata
list = record { name = codes "list"; annotations = none }

abbrev open_breaker : CircuitBreaker
open_breaker = record (fresh default_config) { state = open_circuit; last_failure_time = 9 }

abbrev replica : ℕ → Option CircuitBreaker → ReplicaInfo
replica n b = record {
  url = [];
  active_connections = n;
  health = initial_health true;
  circuit_breaker = b;
}

abbrev busy : ReplicaInfo
busy = replica 3 (some (fresh default_config))

abbrev idle : ReplicaInfo
idle = replica 1 none

abbrev broken : ReplicaInfo
broken = replica 0 (some open_breaker)

abbrev server : ServerInfo
server = record {
  config = record { id = gh; url = []; replicas = [] ∷ [] ∷ []; is_stdio = false };
  tools = list ∷ [];
  health = initial_health true;
  annotations = [];
  replicas = busy ∷ broken ∷ idle ∷ [];
}

abbrev registry : ServerRegistry
registry = record {
  servers = (gh, server) ∷ [];
  namespace_map = (codes "gh.list", record { server_id = gh; tool_name = codes "list" }) ∷ [];
  strategy = prefix;
  health_config = record { healthy_threshold = 1; unhealthy_threshold = 3 };
  circuit_breaker_config = none;
}

abbrev router : ConduitRouter
router = record {
  registry = registry;
  load_balancing = round_robin;
  round_robin_counters = (gh, 1) ∷ [];
}

abbrev least_router : ConduitRouter
least_router = record router { load_balancing = least_connections }

program : Unit {0}
unfolding select_replica get_healthy_replicas resolve_tool_call resolve_tool
    get_aggregated_tools_with_server_ids rebuild_namespace_map build_namespace_map JsMap.get
    JsMap.put text_dec ℕ_discrete
program = tt

rotated : (select_replica router gh).1 ≡ some idle
unfolding program
rotated = refl

least : (select_replica least_router gh).1 ≡ some idle
unfolding program
least = refl

rebuilt : rebuild_namespace_map (record registry { namespace_map = [] }) ≡ registry
unfolding program
rebuilt = refl

available : get_healthy_replicas registry gh ≡ busy ∷ idle ∷ []
unfolding program
available = refl

busy-available : Elem busy (get_healthy_replicas registry gh)
unfolding program
busy-available = inl refl

least_connections-least_example : 1 ≤ 3
least_connections-least_example =
    least_connections-least least_router gh idle busy refl least busy-available

two_available : 0 < length (get_healthy_replicas registry gh)
unfolding program
two_available = omega arith

round_robin-cycles_example :
    (select_replica (after_selections router gh 4) gh).1
    ≡ get_elem?
        (get_healthy_replicas registry gh)
        ((counter_of router gh + 4) % length (get_healthy_replicas registry gh))
round_robin-cycles_example = round_robin-cycles router gh 4 refl two_available

abbrev answered : Probe
answered = record { started = 99_000; ended = 99_001; answered = true }

abbrev after_check : ReplicaInfo
after_check = check_replica_health registry.health_config false broken answered

abbrev entry : AggregatedTool
entry = record {
  namespaced_name = codes "gh.list";
  server_id = gh;
  tool_name = codes "list";
  tool_def = list;
}

entry-listed : Elem entry (get_aggregated_tools_with_server_ids router)
unfolding program
entry-listed = inl refl

aggregated-Offers_example :
    (resolve_tool_name router (codes "gh.list")
      ≡ some (record { server_id = gh; tool_name = codes "list" }))
    × Offers registry (record { server_id = gh; tool_name = codes "list" }) list
aggregated-Offers_example = aggregated-Offers router entry (tt, tt) entry-listed

found : find_server registry gh ≡ some server
unfolding program
found = refl

gh-DotFree : DotFree gh
gh-DotFree = omega arith

rebuild-resolves_example :
    resolve_tool
      (apply_namespace gh (codes "list"))
      (rebuild_namespace_map registry).namespace_map
      prefix
    ≡ some (record { server_id = gh; tool_name = codes "list" })
rebuild-resolves_example =
    rebuild-resolves registry gh (codes "list") server refl (gh-DotFree, tt) found refl (inl refl)
