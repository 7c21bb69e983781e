-- ===== src/Pipeline/ToolsList.antt =====
-- `handleToolsList` of src/gateway/pipeline.ts. A tool is a value of JSON; its name is text where the code
-- relies on it, and the model reads any other name as the empty text.
use mcp_conduit.Acl.{evaluate_acl}
use mcp_conduit.Base.{
  Bool, true, not, ◌&&◌, ◌||◌, List, [], ◌∷◌, ◌++◌, keep, map, Option, none, some,
}
use mcp_conduit.Base.Json.{
  Json, arr, obj, str, Items, nil, cons, Fields, end, field, entries, of_entries, items, assign,
}
use mcp_conduit.Base.Text.{Text, codes}
use mcp_conduit.JsonRpc.{JsonRpcMessage, build_json_rpc_result, as_string}
use mcp_conduit.Pipeline.{
  Gateway, Step, ◌>>=◌, ◌>>◌, pure, return, throw, emit, ask, CoreResult, Thrown, History,
  AclConfig, identity_error, rpc_error, other_error, logged, client_selected, annotations_updated,
  ServerConfig,
}
use mcp_conduit.Pipeline.Forwarding.{find_config, id_in, log_plain, caught, passthrough_to_server}
use mcp_conduit.Pipeline.Approvals.{Caller}
use mcp_conduit.Pipeline.Resolution.{profile_of, profile_server_ids, has_server}
use mcp_conduit.Pipeline.Messages.{just, with_status, property_of, rpc_error_body}

-- A tool of the aggregated list: its server, its name there, its name for the clients and its definition.
pub record Listed (N : Type 0) : Type 0 where
  pub server_id : Text
  pub tool_name : Text
  pub namespaced_name : Text
  pub tool_def : Fields N

abbrev or_empty_text : Option Text → Text
or_empty_text none = []
or_empty_text (some t) = t

abbrev pub name_of : {N : Type 0} → Json N → Text
name_of tool = or_empty_text (as_string (property_of (codes "name") tool))

abbrev pub of_items : {N : Type 0} → List (Json N) → Items N
of_items [] = nil
of_items (v ∷ vs) = cons v (of_items vs)

module _ {N B K C : Type 0} (g : Gateway N B K C) where
  abbrev pub allowed_by : Text → Text → Text → Option AclConfig → Bool
  allowed_by client_id server_id tool_name none = true
  allowed_by client_id server_id tool_name (some acl) =
      not acl.enabled
      || (evaluate_acl client_id server_id tool_name acl.policies acl.default_action).allowed

  -- Whether a client may see a tool: both filters, where they are enabled.
  unfoldable pub is_visible : Caller → Text → Text → Bool
  is_visible caller server_id tool_name =
      allowed_by caller.client_id server_id tool_name g.config.acl
      && (not g.governance.is_enabled
          || g.governance.can_view caller.client_id caller.tenant_id server_id tool_name)

  unfoldable pub visible_tools : Caller → Text → List (Json N) → List (Json N)
  visible_tools caller server_id tools =
      keep (λ tool. is_visible caller server_id (name_of tool)) tools

  -- `body.result?.tools`, where it is an array.
  unfoldable pub tools_in : Option (Json N) → Option (List (Json N))
  tools_in (some (arr tools)) = some (items tools)
  tools_in v = none

  unfoldable pub property_in : Text → Option (Json N) → Option (Json N)
  property_in key none = none
  property_in key (some v) = property_of key v

  unfoldable pub listed_tools : Json N → Option (List (Json N))
  unfolding tools_in property_in
  listed_tools body = tools_in (property_in (codes "tools") (property_of (codes "result") body))

  fields_of : Option (Json N) → List (Text × Json N)
  fields_of (some (obj fs)) = entries fs
  fields_of v = []

  -- `{ ...body, result: { ...body.result, tools } }`
  unfoldable pub with_tools : Json N → List (Json N) → Json N
  unfolding fields_of
  with_tools body tools = obj (
      of_entries (
        assign (codes "result")
          (obj (
            of_entries (
              assign (codes "tools") (arr (of_items tools))
                (fields_of (property_of (codes "result") body)))))
          (fields_of (some body))))

  -- The answer of one server, with the tools that the client may see.
  unfoldable pub filtered_body : Caller → Text → Json N → Option (List (Json N)) → Json N
  unfolding with_tools
  filtered_body caller server_id body none = body
  filtered_body caller server_id body (some tools) =
      with_tools body (visible_tools caller server_id tools)

  unfoldable pub update_annotations : Text → Option (List (Json N)) → Step N K C (Unit {0})
  update_annotations server_id none = pure tt
  update_annotations server_id (some tools) =
      emit (annotations_updated server_id (map name_of tools))

  unfoldable pub answer_identity_error : Option (Json N) → Thrown N → Step N K C (CoreResult N)
  answer_identity_error id (identity_error reason) =
      return (just (rpc_error_body g.numbers id 32000 reason))
  answer_identity_error id (rpc_error c m) = throw (rpc_error c m)
  answer_identity_error id (other_error m) = throw (other_error m)

  -- The list of one server.
  unfoldable pub list_server :
      JsonRpcMessage N → Caller → Text → C → Option ServerConfig → Step N K C (CoreResult N)
  unfolding answer_identity_error update_annotations filtered_body
  list_server message caller server_id client none = return (
      just (
        rpc_error_body g.numbers (id_in g message) 32603
          (codes "Configuration manquante pour : " ++ server_id)))
  list_server message caller server_id client (some server) = do
    result ← λ h.
        caught g
          (passthrough_to_server g
            (record {
              message = message;
              caller = caller;
              target = record { server_id = server_id; tool_name = []; args = end };
              client = client;
              server = server;
            })
            message h)
          (answer_identity_error (id_in g message))
    update_annotations server_id (listed_tools result.body)
    emit (logged (log_plain g (codes "BYPASS")))
    pure (
        with_status (filtered_body caller server_id result.body (listed_tools result.body))
          (codes "BYPASS"))

  -- The tools of all the servers, or of those of a profile, under their names for the clients.
  unfoldable pub aggregate : Caller → Option (List Text) → List (Listed N) → List (Listed N)
  aggregate caller servers tools =
      keep (λ tool. is_visible caller tool.server_id tool.tool_name)
        (keep (λ tool. has_server g tool.server_id servers) tools)

  unfoldable pub renamed : Listed N → Json N
  renamed tool =
      obj (of_entries (assign (codes "name") (str tool.namespaced_name) (entries tool.tool_def)))

  -- The answer with the tools of several servers.
  unfoldable pub aggregated_body :
      JsonRpcMessage N → Caller → Option (List Text) → List (Listed N) → Json N
  unfolding renamed
  aggregated_body message caller servers tools = build_json_rpc_result (id_in g message) (
      obj
        (field (codes "tools") (arr (of_items (map renamed (aggregate caller servers tools)))) end))

  unfoldable pub list_all :
      JsonRpcMessage N → Caller → Option (List Text) → List (Listed N) → Step N K C (CoreResult N)
  unfolding aggregated_body
  list_all message caller servers tools = do
    emit (logged (log_plain g (codes "BYPASS")))
    pure (with_status (aggregated_body message caller servers tools) (codes "BYPASS"))

  unfoldable pub list_for :
      (History N K C → List (Listed N))
      → JsonRpcMessage N
      → Caller
      → Text
      → Option (List Text)
      → Option C
      → Step N K C (CoreResult N)
  unfolding list_server list_all
  list_for aggregated message caller server_id none (some client) =
      list_server message caller server_id client (find_config g.config.servers server_id)
  list_for aggregated message caller server_id none none = do
    tools ← ask aggregated
    list_all message caller none tools
  list_for aggregated message caller server_id (some servers) client = do
    tools ← ask aggregated
    list_all message caller (some servers) tools

  -- `aggregated` is what the router lists.
  unfoldable pub handle_tools_list :
      (History N K C → List (Listed N))
      → JsonRpcMessage N
      → Caller
      → Text
      → Step N K C (CoreResult N)
  unfolding list_for
  handle_tools_list aggregated message caller server_id = do
    servers ← profile_server_ids g (profile_of server_id)
    emit (client_selected server_id)
    client ← ask (g.client_for_server server_id)
    list_for aggregated message caller server_id servers client
