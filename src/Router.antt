-- ===== src/Router.antt =====
-- The request router of src/router/router.ts. A client is known by its replica.
pub mod Balancing
pub mod Isolation
pub mod Listing
mod Tests
use mcp_conduit.Base.{
  ℕ, zero, suc, ◌+◌, ◌%◌, Bool, true, false, List, [], ◌∷◌, Option, none, some, ltb, length,
  get_elem?, map, if◌then◌else◌, is,
}
use mcp_conduit.Base.JsMap
use mcp_conduit.Base.Text.{Text, text_dec}
use mcp_conduit.Namespace.{Target, resolve_tool}
use mcp_conduit.Registry.{ServerRegistry, ServerInfo, find_server, get_healthy_replicas}
use mcp_conduit.Replica.{ReplicaInfo}
use mcp_conduit.Tools.{ToolMetadata}

pub data LoadBalancingStrategy : Type 0 where
  round_robin least_connections : LoadBalancingStrategy

pub record ConduitRouter : Type 0 where
  pub registry : ServerRegistry
  pub load_balancing : LoadBalancingStrategy
  pub round_robin_counters : List (Text × ℕ)

-- `this.roundRobinCounters.get(serverId) ?? 0`
abbrev pub counter_of : ConduitRouter → Text → ℕ
counter_of router server_id = elim (JsMap.get text_dec server_id router.round_robin_counters) [
  | none ↦ 0
  | some n ↦ n
]

-- The loop over the replicas: the selected one is replaced by one with fewer connections.
least_of : ReplicaInfo → List ReplicaInfo → ReplicaInfo
least_of selected [] = selected
least_of selected (r ∷ rs) =
    least_of (if ltb r.active_connections selected.active_connections then r else selected) rs

select_among :
    LoadBalancingStrategy
    → ConduitRouter
    → Text
    → List ReplicaInfo
    → ConduitRouter × Option ReplicaInfo
unfolding least_of
select_among strategy router server_id [] = (router, none)
select_among least_connections router server_id (r ∷ rs) = (router, some (least_of r (r ∷ rs)))
select_among round_robin router server_id (r ∷ rs) = (
  record router {
    round_robin_counters =
        JsMap.put text_dec server_id (counter_of router server_id + 1) router.round_robin_counters;
  },
  get_elem? (r ∷ rs) (counter_of router server_id % length (r ∷ rs)),
)

unfoldable pub select_replica : ConduitRouter → Text → ConduitRouter × Option ReplicaInfo
unfolding select_among
select_replica router server_id =
    select_among router.load_balancing router server_id
      (get_healthy_replicas router.registry server_id)

pub record RoutedRequest : Type 0 where
  pub server_id : Text
  pub tool_name : Text
  pub client : ReplicaInfo

pub resolve_tool_name : ConduitRouter → Text → Option Target
resolve_tool_name router tool_name =
    resolve_tool tool_name router.registry.namespace_map router.registry.strategy

routed : Target → ConduitRouter × Option ReplicaInfo → ConduitRouter × Option RoutedRequest
routed t (router, none) = (router, none)
routed t (router, some client) =
    (router, some (record { server_id = t.server_id; tool_name = t.tool_name; client = client }))

unfoldable pub resolve_tool_call : ConduitRouter → Text → ConduitRouter × Option RoutedRequest
unfolding routed resolve_tool_name
resolve_tool_call router tool_name = elim (resolve_tool_name router tool_name) [
  | none ↦ (router, none)
  | some t ↦ routed t (select_replica router t.server_id)
]

unfoldable pub get_client_for_server : ConduitRouter → Text → ConduitRouter × Option ReplicaInfo
get_client_for_server router server_id = elim (find_server router.registry server_id) [
  | none ↦ (router, none)
  | some info ↦ select_replica router server_id
]

pub record AggregatedTool : Type 0 where
  pub namespaced_name : Text
  pub server_id : Text
  pub tool_name : Text
  pub tool_def : ToolMetadata

-- `serverInfo.tools.find((t) => t.name === toolName)`
find_tool : Text → List ToolMetadata → Option ToolMetadata
find_tool name [] = none
find_tool name (t ∷ ts) = if is (text_dec t.name name) then some t else find_tool name ts

-- The tool definition behind an entry of the map, if its server is healthy.
tool_of : ServerRegistry → Target → Option ToolMetadata
tool_of registry t = elim (find_server registry t.server_id) [
  | none ↦ none
  | some info ↦ if info.health.healthy then find_tool t.tool_name info.tools else none
]

push_tool : Text → Target → Option ToolMetadata → List AggregatedTool → List AggregatedTool
push_tool name t none rest = rest
push_tool name t (some def) rest =
    record {
      namespaced_name = name;
      server_id = t.server_id;
      tool_name = t.tool_name;
      tool_def = def;
    }
    ∷ rest

aggregate : ServerRegistry → List (Text × Target) → List AggregatedTool
aggregate registry [] = []
aggregate registry ((name, t) ∷ rest) =
    push_tool name t (tool_of registry t) (aggregate registry rest)

unfoldable pub get_aggregated_tools_with_server_ids : ConduitRouter → List AggregatedTool
unfolding aggregate push_tool tool_of find_tool
get_aggregated_tools_with_server_ids router =
    aggregate router.registry router.registry.namespace_map

-- The names that `buildAggregatedToolsList` gives to the tools.
pub aggregated_tools_list : ConduitRouter → List ToolMetadata
aggregated_tools_list router =
    map (λ a. record (a.tool_def) { name = a.namespaced_name })
      (get_aggregated_tools_with_server_ids router)
