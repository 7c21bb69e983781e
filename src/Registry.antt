-- ===== src/Registry.antt =====
-- The server registry of src/router/registry.ts, without timers, metrics and logging. What an upstream
-- answers is an argument. A client is known by the replica that it belongs to: the registered client
-- of a server is that of its first replica.
use mcp_conduit.Base.{
  ℕ, suc, Bool, true, false, not, List, [], ◌∷◌, map, keep, any, Option, none, some, if◌then◌else◌,
}
use mcp_conduit.Base.JsMap
use mcp_conduit.Base.Text.{Text, text_dec}
use mcp_conduit.Breaker
use mcp_conduit.Breaker.{PartialConfig}
use mcp_conduit.Namespace.{
  NamespaceStrategy, Target, built, conflicts, BuildResult, build_namespace_map,
}
use mcp_conduit.Replica.{
  BackendHealth, ReplicaInfo, HealthCheckConfig, Probe, initial_health, has_open_breaker,
  check_replica_health, begin_forward, end_forward,
}
use mcp_conduit.Tools.{ToolAnnotations, no_annotations, ToolMetadata}

pub record ServerConfig : Type 0 where
  pub id : Text
  pub url : Text
  pub replicas : List Text
  pub is_stdio : Bool

pub record ServerInfo : Type 0 where
  pub config : ServerConfig
  pub tools : List ToolMetadata
  pub health : BackendHealth
  pub annotations : List (Text × ToolAnnotations)
  pub replicas : List ReplicaInfo

pub record ServerRegistry : Type 0 where
  pub servers : List (Text × ServerInfo)
  pub namespace_map : List (Text × Target)
  pub strategy : NamespaceStrategy
  pub health_config : HealthCheckConfig
  -- `none` if there is no configuration or it is not enabled.
  pub circuit_breaker_config : Option PartialConfig

abbrev pub find_server : ServerRegistry → Text → Option ServerInfo
find_server registry server_id = JsMap.get text_dec server_id registry.servers

abbrev pub put_server : ServerRegistry → Text → ServerInfo → ServerRegistry
put_server registry server_id info = record registry {
  servers = JsMap.put text_dec server_id info registry.servers;
}

make_replica : Option PartialConfig → Text → ReplicaInfo
make_replica breaker_config url = record {
  url = url;
  active_connections = 0;
  health = initial_health true;
  circuit_breaker = elim breaker_config [ none ↦ none | some c ↦ some (Breaker.create c) ];
}

-- The entry of a server: replica 0 is its own URL, and it starts without tools and unhealthy.
new_server : ServerRegistry → ServerConfig → ServerInfo
new_server registry config = record {
  config = config;
  tools = [];
  health = initial_health false;
  annotations = [];
  replicas = map (make_replica registry.circuit_breaker_config) (config.url ∷ config.replicas);
}

-- The loop of the constructor.
register_all : ServerRegistry → List ServerConfig → ServerRegistry
register_all registry [] = registry
register_all registry (config ∷ configs) =
    register_all (put_server registry config.id (new_server registry config)) configs

unfoldable pub create :
    NamespaceStrategy
    → HealthCheckConfig
    → Option PartialConfig
    → List ServerConfig
    → ServerRegistry
unfolding register_all new_server make_replica
create strategy health_config breaker_config configs =
    register_all
      (record {
        servers = [];
        namespace_map = [];
        strategy = strategy;
        health_config = health_config;
        circuit_breaker_config = breaker_config;
      })
      configs

-- The tool names of the healthy servers.
unfoldable pub healthy_tools : List (Text × ServerInfo) → List (Text × List Text)
healthy_tools [] = []
healthy_tools ((server_id, info) ∷ rest) =
    let others = healthy_tools rest in
    if info.health.healthy then (server_id, map (λ t. t.name) info.tools) ∷ others else others

-- On a conflict the error is logged, and the old map stays.
unfoldable pub keep_or_replace : ServerRegistry → BuildResult → ServerRegistry
keep_or_replace registry (built m) = record registry { namespace_map = m }
keep_or_replace registry (conflicts names) = registry

unfoldable pub rebuild_namespace_map : ServerRegistry → ServerRegistry
unfolding healthy_tools keep_or_replace
rebuild_namespace_map registry =
    keep_or_replace registry
      (build_namespace_map (healthy_tools registry.servers) registry.strategy)

abbrev or_none : Option ToolAnnotations → ToolAnnotations
or_none none = no_annotations
or_none (some a) = a

-- `if (tool.name) annotations.set(tool.name, tool.annotations ?? {})`
note_annotations :
    List (Text × ToolAnnotations) → Text → ToolAnnotations → List (Text × ToolAnnotations)
note_annotations known [] a = known
note_annotations known (c ∷ name) a = JsMap.put text_dec (c ∷ name) a known

annotate : List (Text × ToolAnnotations) → List ToolMetadata → List (Text × ToolAnnotations)
unfolding note_annotations
annotate known [] = known
annotate known (tool ∷ tools) =
    annotate (note_annotations known tool.name (or_none tool.annotations)) tools

-- What `tools/list` came to: the tools, an error or a stream, or an exception.
pub data ListReply : Type 0 where
  listed : List ToolMetadata → ListReply
  unusable thrown : ListReply

mark_down : ServerInfo → ℕ → ServerInfo
mark_down info now = record info {
  health = record (info.health) { healthy = false; last_checked = now };
}

abbrev pub fresh_health : BackendHealth → ℕ → BackendHealth
fresh_health h now = record h {
  healthy = true;
  last_checked = now;
  consecutive_failures = 0;
  consecutive_successes = 1;
}

revive_first : List ReplicaInfo → ℕ → List ReplicaInfo
revive_first [] now = []
revive_first (r ∷ rs) now = record r { health = fresh_health r.health now } ∷ rs

take_tools : ServerInfo → ListReply → ℕ → ServerInfo
take_tools info (listed tools) now = record info {
  tools = tools;
  health = fresh_health info.health now;
  annotations = annotate [] tools;
  replicas = revive_first info.replicas now;
}
take_tools info unusable now = mark_down info now
take_tools info thrown now = mark_down info now

abbrev is_thrown : ListReply → Bool
is_thrown thrown = true
is_thrown _ = false

-- The request goes through the client of the first replica, whose breaker may refuse it; a refusal is
-- an exception too.
refresh_with : List ReplicaInfo → ServerInfo → ListReply → ℕ → ℕ → ServerInfo
refresh_with [] info reply started ended = info
refresh_with (r ∷ rs) info reply started ended =
    let (r', admitted) = begin_forward r started in
    if admitted
    then take_tools (record info { replicas = end_forward r' (not (is_thrown reply)) ended ∷ rs })
        reply ended
    else take_tools (record info { replicas = r' ∷ rs }) thrown ended

unfoldable pub refresh_server : ServerRegistry → Text → ListReply → ℕ → ℕ → ServerRegistry
unfolding refresh_with take_tools mark_down revive_first annotate
refresh_server registry server_id reply started ended = elim (find_server registry server_id) [
  | none ↦ registry
  | some info ↦ put_server registry server_id (refresh_with info.replicas info reply started ended)
]

pub data AddResult : Type 0 where
  added : ServerRegistry → AddResult
  already_registered : AddResult

unfoldable pub add_server : ServerRegistry → ServerConfig → ListReply → ℕ → ℕ → AddResult
unfolding new_server make_replica
add_server registry config reply started ended = elim (find_server registry config.id) [
  | some info ↦ already_registered
  | none ↦ added (
      rebuild_namespace_map (
        refresh_server (put_server registry config.id (new_server registry config)) config.id reply
          started ended))
]

unfoldable pub remove_server : ServerRegistry → Text → ServerRegistry × Bool
remove_server registry server_id = elim (find_server registry server_id) [
  | none ↦ (registry, false)
  | some info ↦ (
    rebuild_namespace_map
        (record registry { servers = JsMap.delete text_dec server_id registry.servers }),
    true,
  )
]

-- Whether a replica can take a request: it is healthy, and its breaker is not open.
abbrev pub is_available : ReplicaInfo → Bool
is_available r = if not r.health.healthy then false else if has_open_breaker r then false else true

-- What happens to the check of the replica at each index is given by `probe`.
check_replicas : HealthCheckConfig → Bool → (ℕ → Probe) → ℕ → List ReplicaInfo → List ReplicaInfo
check_replicas config is_stdio probe i [] = []
check_replicas config is_stdio probe i (r ∷ rs) =
    check_replica_health config is_stdio r (probe i)
    ∷ check_replicas config is_stdio probe (suc i) rs

check_info : HealthCheckConfig → ServerInfo → (ℕ → Probe) → ℕ → ServerInfo
check_info config info probe now =
    let checked = check_replicas config info.config.is_stdio probe 0 info.replicas in
    record info {
      replicas = checked;
      health = record (info.health) { healthy = any is_available checked; last_checked = now };
    }

unfoldable pub check_server_health : ServerRegistry → Text → (ℕ → Probe) → ℕ → ServerRegistry
unfolding check_info check_replicas
check_server_health registry server_id probe now = elim (find_server registry server_id) [
  | none ↦ registry
  | some info ↦ put_server registry server_id (check_info registry.health_config info probe now)
]

unfoldable pub available_replicas : Option ServerInfo → List ReplicaInfo
available_replicas none = []
available_replicas (some info) = keep is_available info.replicas

unfoldable pub get_healthy_replicas : ServerRegistry → Text → List ReplicaInfo
unfolding available_replicas
get_healthy_replicas registry server_id = available_replicas (find_server registry server_id)

unfoldable pub get_annotations : ServerRegistry → Text → Text → ToolAnnotations
get_annotations registry server_id tool_name = elim (find_server registry server_id) [
  | none ↦ no_annotations
  | some info ↦ elim (JsMap.get text_dec tool_name info.annotations) [
    | none ↦ no_annotations
    | some a ↦ a
  ]
]

unfoldable pub update_annotations : ServerRegistry → Text → List ToolMetadata → ServerRegistry
unfolding annotate
update_annotations registry server_id tools = elim (find_server registry server_id) [
  | none ↦ registry
  | some info ↦ rebuild_namespace_map (
      put_server registry server_id
        (record info { tools = tools; annotations = annotate [] tools }))
]

reset_replica : ReplicaInfo → ReplicaInfo
reset_replica r = record r {
  circuit_breaker = elim r.circuit_breaker [ none ↦ none | some b ↦ some (Breaker.reset b) ];
}

abbrev has_breaker : ReplicaInfo → Bool
has_breaker r = elim r.circuit_breaker [ none ↦ false | some b ↦ true ]

-- Resets the breakers of all replicas; whether there was one.
unfoldable pub reset_circuit_breaker : ServerRegistry → Text → ServerRegistry × Bool
unfolding reset_replica
reset_circuit_breaker registry server_id = elim (find_server registry server_id) [
  | none ↦ (registry, false)
  | some info ↦ (
    put_server registry server_id (record info { replicas = map reset_replica info.replicas }),
    any has_breaker info.replicas,
  )
]
