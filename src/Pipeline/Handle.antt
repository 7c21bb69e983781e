-- ===== src/Pipeline/Handle.antt =====
-- `_handle` and the methods that are passed through, of src/gateway/pipeline.ts.
pub mod Identification
use mcp_conduit.Base.{
  ℕ, Bool, true, false, not, ◌&&◌, List, [], ◌∷◌, ◌++◌, Option, none, some, if◌then◌else◌, is,
}
use mcp_conduit.Base.Json.{Json, bool, obj, str, Fields, end, field}
use Prim.Native.String.{String}
use mcp_conduit.Base.Text.{Text, text_dec, codes}
use mcp_conduit.JsonRpc.{JsonRpcMessage, get, build_json_rpc_result, as_string}
use mcp_conduit.Pipeline.{
  Gateway, Step, ◌>>=◌, ◌>>◌, pure, return, throw, emit, ask, Outcome, next, answer, raise, History,
  CoreResult, Thrown, RequestContext, identity_error, rpc_error, other_error, logged, counted,
  client_selected, auth_failures, authenticated, AuthMethod, AuthResult, accepted, rejected,
  before_request, after_auth, ServerConfig, LogEntry,
}
use mcp_conduit.Pipeline.Forwarding.{
  Call, find_config, id_in, log_plain, caught, run_hook, passthrough_to_server,
}
use mcp_conduit.Pipeline.Approvals.{Caller}
use mcp_conduit.Pipeline.Resolution.{profile_of}
use mcp_conduit.Pipeline.Messages.{just, with_status, rpc_error_body, log_error, code}
use mcp_conduit.Pipeline.ToolCall.{handle_tool_call}
use mcp_conduit.Pipeline.ToolsList.{Listed, handle_tools_list}

abbrev pub anonymous : Text
anonymous = codes "anonymous"

module _ {N B K C : Type 0} (g : Gateway N B K C)
    (aggregated : History N K C → List (Listed N)) where
  -- The method of a message; one that is no text counts as none.
  abbrev pub method_of : JsonRpcMessage N → Option Text
  method_of message = as_string (get (codes "method") message)

  abbrev or_unknown : Option Text → Text
  or_unknown none = codes "unknown"
  or_unknown (some m) = m

  abbrev is_method : String → Option Text → Bool
  is_method m none = false
  is_method m (some t) = is (text_dec t (codes m))

  passthrough_identity : Option (Json N) → Thrown N → Step N K C (CoreResult N)
  passthrough_identity id (identity_error reason) = do
    emit (logged (log_error g.numbers 32000 reason))
    return (just (rpc_error_body g.numbers id 32000 reason))
  passthrough_identity id (rpc_error c m) = throw (rpc_error c m)
  passthrough_identity id (other_error m) = throw (other_error m)

  handle_profile_passthrough : JsonRpcMessage N → Text → Step N K C (CoreResult N)
  handle_profile_passthrough message profile =
      if is_method "initialize" (method_of message)
      then (do
        emit (logged (log_plain g (codes "BYPASS")))
        pure
            (record (with_status
              (build_json_rpc_result (id_in g message) (g.profile_info profile).0)
              (codes "BYPASS")) { upstream_session_id = some (g.profile_info profile).1 }))
      else (if is_method "notifications/initialized" (method_of message)
          then (do
            emit (logged (log_plain g (codes "BYPASS")))
            pure (
                with_status
                  (build_json_rpc_result (id_in g message)
                    (obj (field (codes "acknowledged") (bool true) end)))
                  (codes "BYPASS")))
          else (do
            emit (logged (record (log_error g.numbers 32601 []) { error_message = none }))
            pure (
                just (
                  rpc_error_body g.numbers (id_in g message) 32601 (
                    codes "La méthode "
                    ++ or_unknown (method_of message)
                    ++ codes " n'est pas prise en charge sur /mcp/profile/"
                    ++ profile)))))

  pass_to_server :
      JsonRpcMessage N → Caller → Text → C → Option ServerConfig → Step N K C (CoreResult N)
  unfolding passthrough_identity
  pass_to_server message caller server_id client none = do
    emit (logged (record (log_error g.numbers 32603 []) { error_message = none }))
    return (
        just (
          rpc_error_body g.numbers (id_in g message) 32603
            (codes "Configuration manquante pour : " ++ server_id)))
  pass_to_server message caller server_id client (some server) = do
    result ← λ h.
        caught g
          (passthrough_to_server g
            (record {
              message = message;
              caller = caller;
              target = record { server_id = server_id; tool_name = []; args = end };
              client = client;
              server = server;
            })
            message h)
          (passthrough_identity (id_in g message))
    emit (logged (log_plain g (codes "BYPASS")))
    pure (record result { cache_status = some (codes "BYPASS") })

  pass_to_client : JsonRpcMessage N → Caller → Text → Option C → Step N K C (CoreResult N)
  unfolding pass_to_server
  pass_to_client message caller server_id none = do
    emit (logged (record (log_error g.numbers 32603 []) { error_message = none }))
    return (just (g.server_unavailable (id_in g message) server_id))
  pass_to_client message caller server_id (some client) =
      pass_to_server message caller server_id client (find_config g.config.servers server_id)

  pass_through : JsonRpcMessage N → Caller → Text → Option Text → Step N K C (CoreResult N)
  unfolding handle_profile_passthrough pass_to_client
  pass_through message caller server_id (some profile) = handle_profile_passthrough message profile
  pass_through message caller server_id none = do
    emit (client_selected server_id)
    client ← ask (g.client_for_server server_id)
    pass_to_client message caller server_id client

  unfoldable pub handle_passthrough : JsonRpcMessage N → Caller → Text → Step N K C (CoreResult N)
  unfolding pass_through
  handle_passthrough message caller server_id =
      pass_through message caller server_id (profile_of server_id)

  auth_result : Option (Json N) → RequestContext → AuthResult → Step N K C Caller
  auth_result id context (accepted client_id tenant_id) = do
    emit (authenticated true)
    pure (record { client_id = client_id; tenant_id = tenant_id; context = context })
  auth_result id context (rejected reason) = do
    emit (authenticated false)
    emit (counted (auth_failures reason))
    return (just (rpc_error_body g.numbers id 32000 (codes "Authentication failed: " ++ reason)))

  identify : Option (Json N) → RequestContext → Option AuthMethod → Step N K C Caller
  unfolding auth_result
  identify id context none =
      pure (record { client_id = anonymous; tenant_id = codes "default"; context = context })
  identify id context (some method) = do
    result ← ask (g.authenticate context)
    auth_result id context result

  -- The methods of MCP.
  route : JsonRpcMessage N → Caller → Text → Step N K C (CoreResult N)
  route message caller server_id =
      if is_method "tools/call" (method_of message)
      then handle_tool_call g message caller server_id
      else (if is_method "tools/list" (method_of message)
          then handle_tools_list g aggregated message caller server_id
          else handle_passthrough message caller server_id)

  abbrev message_of : Thrown N → Json N
  message_of (identity_error m) = str m
  message_of (rpc_error c m) = m
  message_of (other_error m) = str m

  -- An error is logged and thrown again.
  log_thrown : Outcome N (CoreResult N) × History N K C → Outcome N (CoreResult N) × History N K C
  log_thrown (raise e, h) = (
    raise e,
    logged (record (log_error g.numbers 32603 []) { error_message = some (message_of e) }) ∷ h,
  )
  log_thrown (next r, h) = (next r, h)
  log_thrown (answer r, h) = (answer r, h)

  unfoldable pub handle : JsonRpcMessage N → RequestContext → Text → Step N K C (CoreResult N)
  unfolding identify route log_thrown
  handle message context server_id = do
    run_hook g before_request
    caller ← identify (id_in g message) context g.config.auth
    run_hook g after_auth
    λ h. log_thrown (route message caller server_id h)
