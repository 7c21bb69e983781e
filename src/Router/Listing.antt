-- ===== src/Router/Listing.antt =====
-- The aggregated list of tools.
use mcp_conduit.Base.{
  ◌≡◌, true, some, arith, sym, List, [], ◌∷◌, Elem, Option-cases, inl, inr, All, map, subst,
  Bool-cases,
}
use mcp_conduit.Base.JsMap
use mcp_conduit.Base.JsMap.{Distinct, Fresh, get_of_Fresh}
use mcp_conduit.Base.Text.{Text, text_dec}
use mcp_conduit.Namespace.{Target, prefix, apply_namespace, resolve_tool}
use mcp_conduit.Namespace.Conflicts.{Listed}
use mcp_conduit.Namespace.Maps.{HasDotFreeIds, resolve_tool-prefix}
use mcp_conduit.Namespace.Prefixes.{DotFree}
use mcp_conduit.Registry.{
  ServerRegistry, ServerInfo, find_server, healthy_tools, rebuild_namespace_map,
}
use mcp_conduit.Router.{
  ConduitRouter, AggregatedTool, find_tool, tool_of, push_tool, aggregate,
  get_aggregated_tools_with_server_ids, resolve_tool_name,
}
use mcp_conduit.Tools.{ToolMetadata}

find_tool-Elem :
    (name : Text) (ts : List ToolMetadata) (t : ToolMetadata)
    → find_tool name ts ≡ some t
    → Elem t ts × (t.name ≡ name)
unfolding find_tool
find_tool-Elem name [] t h = cc
find_tool-Elem name (u ∷ ts) t h = ground (arith, find_tool-Elem name ts t)

-- What an entry for a target says of its server.
pub record Offers (registry : ServerRegistry) (t : Target) (def : ToolMetadata) : Type 0 where
  pub info : ServerInfo
  pub registered : find_server registry t.server_id ≡ some info
  pub healthy : info.health.healthy ≡ true
  pub listed : Elem def info.tools
  pub named : def.name ≡ t.tool_name

tool_of-Offers :
    (registry : ServerRegistry) (t : Target) (def : ToolMetadata)
    → tool_of registry t ≡ some def
    → Offers registry t def
unfolding tool_of
tool_of-Offers registry t def h = elim (Option-cases (find_server registry t.server_id)) [
  | inl absent ↦ absurd (ground arith)
  | inr (info, found) ↦ elim (Bool-cases info.health.healthy) [
    | inl up ↦
        let fits = find_tool-Elem t.tool_name info.tools def (ground arith) in
        record { info = info; registered = found; healthy = up; listed = fits.0; named = fits.1 }
    | inr down ↦ absurd (ground arith)
  ]
]

aggregate-get :
    (registry : ServerRegistry) (m : List (Text × Target)) (a : AggregatedTool)
    → Distinct text_dec m
    → Elem a (aggregate registry m)
    → (JsMap.get text_dec a.namespaced_name m
        ≡ some (record { server_id = a.server_id; tool_name = a.tool_name }))
      × (tool_of registry (record { server_id = a.server_id; tool_name = a.tool_name })
          ≡ some a.tool_def)
unfolding aggregate push_tool JsMap.get
aggregate-get registry [] a d h = elim h [ ]
aggregate-get registry ((name, t) ∷ m) a d h =
    ground (arith, aggregate-get registry m a d.1, get_of_Fresh text_dec name m d.0)

-- Every tool of the aggregated list can be called by its name: the name resolves to that tool of that
-- server, which is registered and healthy and lists it.
pub aggregated-Offers :
    (router : ConduitRouter) (a : AggregatedTool)
    → Distinct text_dec router.registry.namespace_map
    → Elem a (get_aggregated_tools_with_server_ids router)
    → (resolve_tool_name router a.namespaced_name
        ≡ some (record { server_id = a.server_id; tool_name = a.tool_name }))
      × Offers router.registry
          (record { server_id = a.server_id; tool_name = a.tool_name })
          a.tool_def
unfolding get_aggregated_tools_with_server_ids resolve_tool_name resolve_tool
aggregated-Offers router a d h =
    let (found, defined) = aggregate-get router.registry router.registry.namespace_map a d h in
    (ground (arith, found), tool_of-Offers router.registry _ a.tool_def defined)

-- The servers that the map is built from.
healthy_tools-Listed :
    (servers : List (Text × ServerInfo)) (s t : Text) (info : ServerInfo)
    → JsMap.get text_dec s servers ≡ some info
    → info.health.healthy ≡ true
    → Elem t (map (λ u. u.name) info.tools)
    → Listed s t (healthy_tools servers)
unfolding healthy_tools JsMap.get
healthy_tools-Listed [] s t info g u h = cc
healthy_tools-Listed ((k, i) ∷ servers) s t info g u h = elim (text_dec s k) [
  | yes same ↦
      let e : i ≡ info = ground arith in
      subst (λ j. Listed s t (healthy_tools ((k, j) ∷ servers))) (sym e) (rw u (inl (same, h)))
  | no other ↦
      let later = healthy_tools-Listed servers s t info (ground arith) u h in
      elim (Bool-cases i.health.healthy) [ inl up ↦ rw up (inr later) | inr down ↦ rw down later ]
]

healthy_tools-DotFree :
    (servers : List (Text × ServerInfo))
    → All (λ e. DotFree e.0) servers
    → HasDotFreeIds (healthy_tools servers)
unfolding healthy_tools
healthy_tools-DotFree [] h = tt
healthy_tools-DotFree ((k, i) ∷ servers) h = ground (arith, healthy_tools-DotFree servers h.1)

-- After a rebuild with the prefix strategy, every tool of a healthy server resolves under its prefixed
-- name, where no server id has a dot.
pub rebuild-resolves :
    (registry : ServerRegistry) (s t : Text) (info : ServerInfo)
    → registry.strategy ≡ prefix
    → All (λ e. DotFree e.0) registry.servers
    → find_server registry s ≡ some info
    → info.health.healthy ≡ true
    → Elem t (map (λ u. u.name) info.tools)
    → resolve_tool
        (apply_namespace s t)
        (rebuild_namespace_map registry).namespace_map
        registry.strategy
      ≡ some (record { server_id = s; tool_name = t })
unfolding rebuild_namespace_map
rebuild-resolves registry s t info p d f u h =
    let (m, build, resolves) =
      resolve_tool-prefix s t (healthy_tools registry.servers)
        (healthy_tools-DotFree registry.servers d)
        (healthy_tools-Listed registry.servers s t info f u h) in
    ground (arith, build, resolves)
