-- ===== src/Pipeline/Forwarding.antt =====
-- Calls of upstream servers in src/gateway/pipeline.ts: their headers and messages, the path of
-- `handleToolCall` without the cache, and the key of the cache.
pub mod Lawful
use mcp_conduit.Base.{
  ℕ, ◌*◌, Bool, true, false, not, ◌&&◌, ◌||◌, List, [], ◌∷◌, ◌++◌, Option, none, some,
  if◌then◌else◌, is, ◌⊎◌, inl, inr,
}
use mcp_conduit.Base.JsMap
use mcp_conduit.Base.Json.{Json, bool, obj, str, Fields, end, entries, of_entries, own}
use mcp_conduit.Base.Text.{Text, text_dec, codes}
use mcp_conduit.CacheKey.{CacheKeyOptions, generate_cache_key}
use mcp_conduit.CachePolicy.{CachePolicyDecision, decide_cache_policy}
use mcp_conduit.JsonRpc.{
  JsonRpcMessage, get, build_json_rpc_result, extract_tool_name, extract_tool_args,
}
use mcp_conduit.Pipeline.{
  Gateway, Step, ◌>>=◌, ◌>>◌, pure, return, throw, emit, ask, Outcome, next, answer, raise, History,
  Target, CoreResult, Thrown, identity_error, rpc_error, other_error, LogEntry, success, error,
  cache_hit, requests, dedup_coalesced, upstream_errors, cache_entries, counted, logged, l1_deleted,
  l2_deleted, l1_skipped, l1_read, l2_read, l1_written, l2_written, joined, forwarded, CacheEntry,
  ServerConfig, UpstreamResponse, HookName, before_cache, after_upstream, before_response, hook_ran,
  method_none, method_other, AuthMethod, RequestContext,
}
use mcp_conduit.Pipeline.Approvals.{Caller}
use mcp_conduit.Pipeline.Gates.{acl_gate, governance_gate, guardrails_gate}
use mcp_conduit.Pipeline.Limits.{client_limits_gate, server_limits_gate}
use mcp_conduit.Pipeline.Resolution.{Resolved, or_text, resolve_target}
use mcp_conduit.Pipeline.Messages.{
  just, with_status, or_else, error_in, property_of, code, rpc_error_body, log_error,
  build_forward_message,
}

-- What the later steps of a call work on.
pub record Call (N C : Type 0) : Type 0 where
  pub message : JsonRpcMessage N
  pub caller : Caller
  pub target : Target N
  pub client : C
  pub server : ServerConfig

abbrev or_empty : Option Text → Text
or_empty none = []
or_empty (some t) = t

abbrev pub find_config : List ServerConfig → Text → Option ServerConfig
find_config [] server_id = none
find_config (s ∷ servers) server_id =
    let rest = find_config servers server_id in
    if is (text_dec s.id server_id) then some s else rest

abbrev found : {A : Type 0} → Option A → Bool
found none = false
found (some a) = true

module _ {N B K C : Type 0} (g : Gateway N B K C) where
  abbrev pub id_in : JsonRpcMessage N → Option (Json N)
  id_in message = get (codes "id") message

  abbrev pub log_plain : Text → LogEntry N
  log_plain status = record {
    status = success;
    error_code = none;
    error_message = none;
    cache_status = some status;
    guardrail = none;
  }

  hook_result : Option (CoreResult N) → Step N K C (Unit {0})
  hook_result none = pure tt
  hook_result (some r) = return r

  unfoldable pub run_hook : HookName → Step N K C (Unit {0})
  unfolding hook_result
  run_hook name = do result ← ask (g.hook name); emit (hook_ran name); hook_result result

  -- The headers that are added to a request; the client's own credentials go along only where the server
  -- has no `upstream_auth`, asks for them, and the identity has set none.
  authorization : Option Text → ServerConfig → List (Text × Text) → List (Text × Text)
  authorization none server extra = extra
  authorization (some []) server extra = extra
  authorization (some (c ∷ s)) server extra =
      if not server.has_upstream_auth
        && server.forward_authorization
        && not (found (JsMap.get text_dec (codes "Authorization") extra))
      then extra ++ ((codes "Authorization", c ∷ s) ∷ [])
      else extra

  abbrev group_part : Option Text → List (Text × Text)
  group_part none = []
  group_part (some []) = []
  group_part (some (c ∷ s)) = (codes "X-Conduit-Group", c ∷ s) ∷ []

  assign_headers : List (Text × Text) → List (Text × Text) → List (Text × Text)
  assign_headers [] extra = extra
  assign_headers ((k, v) ∷ hs) extra = assign_headers hs (JsMap.put text_dec k v extra)

  with_identity : Caller → ServerConfig → Text ⊎ List (Text × Text) → Thrown N ⊎ List (Text × Text)
  unfolding authorization assign_headers
  with_identity caller server (inl reason) = inl (identity_error reason)
  with_identity caller server (inr headers) = inr (
      authorization caller.context.auth_header server (
        assign_headers headers (
          (codes "X-Conduit-Trace-Id", caller.context.trace_id)
          ∷ group_part caller.context.group_header)))

  unfoldable pub build_extra_headers : Caller → ServerConfig → Thrown N ⊎ List (Text × Text)
  unfolding with_identity
  build_extra_headers caller server =
      with_identity caller server (g.upstream_headers server.id caller.client_id caller.tenant_id)

  unfoldable pub response : UpstreamResponse N ⊎ Thrown N → Step N K C (CoreResult N)
  response (inr e) = throw e
  response (inl r) =
      if r.streams
      then pure (record (just Json.null) { is_stream = true; upstream_session_id = r.session })
      else pure (record (just r.body) { upstream_session_id = r.session })

  unfoldable pub send :
      Call N C → JsonRpcMessage N → Thrown N ⊎ List (Text × Text) → Step N K C (CoreResult N)
  unfolding response
  send call message (inl e) = throw e
  send call message (inr extra) = do
    r ← ask (g.forward call.client call.server.id message)
    emit (forwarded call.client call.server.id message extra)
    response r

  unfoldable pub passthrough_to_server : Call N C → JsonRpcMessage N → Step N K C (CoreResult N)
  unfolding send
  passthrough_to_server call message =
      send call message (build_extra_headers call.caller call.server)

  -- The error is counted and thrown again.
  count_error :
      Text → Outcome N (CoreResult N) × History N K C → Outcome N (CoreResult N) × History N K C
  count_error server_id (raise e, h) = (raise e, counted (upstream_errors server_id) ∷ h)
  count_error server_id (next r, h) = (next r, h)
  count_error server_id (answer r, h) = (answer r, h)

  unfoldable pub forward_to_upstream : Call N C → JsonRpcMessage N → Step N K C (CoreResult N)
  unfolding count_error passthrough_to_server
  forward_to_upstream call message h =
      count_error call.server.id (passthrough_to_server call message h)

  abbrev pub has_multiplier : Option ℕ → Bool
  has_multiplier none = false
  has_multiplier (some n) = true

  delete_l2 : Text → Text → Step N K C (Unit {0})
  delete_l2 tool server_id =
      if has_multiplier g.config.l2_ttl_multiplier
      then emit (l2_deleted tool server_id)
      else pure tt

  -- The loop over the tools whose entries a destructive tool invalidates. A failure of the second cache
  -- is passed over.
  unfoldable pub invalidate : Text → List Text → Step N K C (Unit {0})
  unfolding delete_l2
  invalidate server_id [] = pure tt
  invalidate server_id (tool ∷ tools) = do
    emit (l1_deleted tool server_id)
    delete_l2 tool server_id
    invalidate server_id tools

  -- An `UpstreamIdentityError` is answered, any other error is thrown on.
  answer_identity : Option (Json N) → Thrown N → Step N K C (CoreResult N)
  answer_identity id (identity_error reason) = do
    emit (logged (log_error g.numbers 32000 reason))
    return (just (rpc_error_body g.numbers id 32000 reason))
  answer_identity id (rpc_error c m) = throw (rpc_error c m)
  answer_identity id (other_error m) = throw (other_error m)

  unfoldable pub caught :
      {A : Type 0}
      → Outcome N A × History N K C
      → (Thrown N → Step N K C A)
      → Outcome N A × History N K C
  caught (next a, h) f = (next a, h)
  caught (answer r, h) f = (answer r, h)
  caught (raise e, h) f = f e h

  skip_log : Option (Json N) → LogEntry N
  skip_log none = log_plain (codes "SKIP")
  skip_log (some e) = record {
    status = error;
    error_code = some (or_else (property_of (codes "code") e) (code g.numbers 32603));
    error_message = property_of (codes "message") e;
    cache_status = some (codes "SKIP");
    guardrail = none;
  }

  skip_result : CoreResult N → Step N K C (CoreResult N)
  unfolding skip_log
  skip_result result =
      if result.is_stream
      then (do
        emit (logged (log_plain (codes "BYPASS")))
        pure (record result { cache_status = some (codes "BYPASS") }))
      else (do
        emit (logged (skip_log (error_in g.numbers result.body)))
        pure (record result { cache_status = some (codes "SKIP") }))

  -- A call whose result is not cached.
  unfoldable pub bypass_cache : Call N C → Step N K C (CoreResult N)
  unfolding skip_result caught answer_identity
  bypass_cache call = do
    emit l1_skipped
    emit (counted (requests call.target.server_id call.target.tool_name (codes "SKIP")))
    server_limits_gate g (id_in call.message) call.caller call.target false
    result ← λ h.
        caught
          (forward_to_upstream call
            (build_forward_message g.numbers call.message call.target.tool_name) h)
          (answer_identity (id_in call.message))
    skip_result result

  abbrev auth_is_active : Option AuthMethod → Bool
  auth_is_active none = false
  auth_is_active (some method_none) = false
  auth_is_active (some method_other) = true

  -- The tenant that the cache is divided by.
  unfoldable pub resolve_tenant : Caller → Option Text
  resolve_tenant caller =
      if not g.config.tenant_isolation.enabled
      then none
      else (if auth_is_active g.config.auth
          then some caller.tenant_id
          else (if is
                (text_dec (g.lower_case g.config.tenant_isolation.header) (codes "authorization"))
              then some (or_text (g.extract_tenant_id caller.context.auth_header) caller.tenant_id)
              else some (
                  or_text
                    (JsMap.get text_dec (g.lower_case g.config.tenant_isolation.header)
                      caller.context.raw_headers)
                    caller.tenant_id)))

  unfoldable pub key_options : Caller → Target N → List Text → CacheKeyOptions N
  key_options caller target ignore_args = record {
    server_id = target.server_id;
    tool_name = target.tool_name;
    args = target.args;
    tenant_id = resolve_tenant caller;
    group_id = caller.context.group_header;
    ignore_args = ignore_args;
  }

  unfoldable pub cache_key : Caller → Target N → List Text → K
  cache_key caller target ignore_args =
      generate_cache_key (λ (v : Json N). v) g.digest (key_options caller target ignore_args)
