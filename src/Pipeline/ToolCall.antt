-- ===== src/Pipeline/ToolCall.antt =====
-- `handleToolCall` of src/gateway/pipeline.ts.
pub mod Storing
pub mod Lawful
use mcp_conduit.Base.{
  ℕ, ◌*◌, Bool, true, false, not, ◌&&◌, ◌||◌, List, [], ◌∷◌, ◌++◌, Option, none, some,
  if◌then◌else◌, is, ◌⊎◌, inl, inr,
}
use mcp_conduit.Base.Json.{Json, bool, obj, str, Fields, end}
use mcp_conduit.Base.Text.{Text, codes}
use mcp_conduit.CachePolicy.{CachePolicyDecision, decide_cache_policy}
use mcp_conduit.JsonRpc.{
  JsonRpcMessage, get, build_json_rpc_error, build_json_rpc_result, extract_tool_name,
  extract_tool_args,
}
use mcp_conduit.Pipeline.{
  Gateway, Step, ◌>>=◌, ◌>>◌, pure, return, throw, emit, ask, Target, CoreResult, Thrown, History,
  identity_error, rpc_error, other_error, LogEntry, success, error, cache_hit, requests,
  dedup_coalesced, cache_entries, counted, logged, l1_skipped, l1_read, l2_read, l1_written,
  l2_written, joined, CacheEntry, ServerConfig, before_cache, after_upstream, before_response,
}
use mcp_conduit.Pipeline.Forwarding.{
  Call, find_config, id_in, log_plain, run_hook, forward_to_upstream, caught, has_multiplier,
  invalidate, bypass_cache, cache_key,
}
use mcp_conduit.Pipeline.Approvals.{Caller}
use mcp_conduit.Pipeline.Gates.{acl_gate, governance_gate, guardrails_gate}
use mcp_conduit.Pipeline.Limits.{client_limits_gate, server_limits_gate}
use mcp_conduit.Pipeline.Resolution.{Resolved, resolve_target}
use mcp_conduit.Pipeline.Messages.{
  just, with_status, or_else, error_in, property_of, code, rpc_error_body, log_error,
  build_forward_message,
}

abbrev or_empty : Option Text → Text
or_empty none = []
or_empty (some t) = t

abbrev or_default : Option ℕ → ℕ → ℕ
or_default none n = n
or_default (some m) n = m

-- `result.isError === true`
abbrev is_true : {N : Type 0} → Option (Json N) → Bool
is_true (some (bool b)) = b
is_true v = false

unfoldable pub is_tool_error : {N : Type 0} → Json N → Bool
is_tool_error result = is_true (property_of (codes "isError") result)

module _ {N B K C : Type 0} (g : Gateway N B K C) where
  hit_log : LogEntry N
  hit_log = record (log_plain g (codes "HIT")) { status = cache_hit }

  answer_hit : Call N C → CacheEntry N → Step N K C (Unit {0})
  unfolding hit_log
  answer_hit call entry = do
    emit (counted cache_entries)
    emit (logged hit_log)
    return (with_status (build_json_rpc_result (id_in g call.message) entry.result) (codes "HIT"))

  in_l2 : Call N C → K → Option (CacheEntry N) → Step N K C (Unit {0})
  unfolding answer_hit
  in_l2 call key none = emit (l2_read key false)
  in_l2 call key (some entry) = do
    emit (l2_read key true)
    emit (l1_written key entry)
    answer_hit call entry

  in_l1 : Call N C → K → Option (CacheEntry N) → Step N K C (Unit {0})
  unfolding answer_hit in_l2
  in_l1 call key (some entry) = do emit (l1_read key true); answer_hit call entry
  in_l1 call key none = do
    emit (l1_read key false)
    (if has_multiplier g g.config.l2_ttl_multiplier
        then (do entry ← ask (g.l2_get key); in_l2 call key entry)
        else pure tt)

  -- The first cache, and then the second one: an entry is the answer.
  unfoldable pub look_up : Call N C → K → Step N K C (Unit {0})
  unfolding in_l1
  look_up call key = do entry ← ask (g.l1_get key); in_l1 call key entry

  abbrev empty_object : Json N
  empty_object = obj end

  result_of : CoreResult N → Option (Json N) → Step N K C (Json N)
  result_of upstream (some e) = throw (
      rpc_error (or_else (property_of (codes "code") e) (code g.numbers 32603))
        (or_else (property_of (codes "message") e) (str (codes "Upstream error"))))
  result_of upstream none = pure (or_else (property_of (codes "result") upstream.body) empty_object)

  -- The function that is given to `deduplicate`.
  unfoldable pub fetch : Call N C → Step N K C (Json N)
  unfolding result_of
  fetch call = do
    upstream ←
        forward_to_upstream g call
          (build_forward_message g.numbers call.message call.target.tool_name)
    result_of upstream (error_in g.numbers upstream.body)

  join : Option (Json N ⊎ Thrown N) → Call N C → K → Step N K C (Json N × Bool)
  join (some (inl result)) call key = do emit (joined key); pure (result, true)
  join (some (inr e)) call key = do emit (joined key); throw e
  join none call key = do result ← fetch call; pure (result, false)

  -- `inflightTracker.deduplicate`
  unfoldable pub deduplicate : Call N C → K → Step N K C (Json N × Bool)
  unfolding join
  deduplicate call key = do shared ← ask (g.in_flight key); join shared call key

  answer_upstream_error : Option (Json N) → Thrown N → Step N K C (Json N × Bool)
  answer_upstream_error id (identity_error reason) = do
    emit (logged (log_error g.numbers 32000 reason))
    return (just (rpc_error_body g.numbers id 32000 reason))
  answer_upstream_error id (rpc_error c m) = do
    emit (
        logged (record {
          status = error;
          error_code = some c;
          error_message = some m;
          cache_status = none;
          guardrail = none;
        }))
    return (just (build_json_rpc_error id c m none))
  answer_upstream_error id (other_error m) = throw (other_error m)

  answer_tool_error : Call N C → Json N → Step N K C (CoreResult N)
  answer_tool_error call result = do
    emit l1_skipped
    emit (counted (requests call.target.server_id call.target.tool_name (codes "SKIP_ERROR")))
    emit (
        logged (record (log_error g.numbers 32000 (codes "tool returned isError=true")) {
          cache_status = some (codes "SKIP_ERROR");
        }))
    pure (with_status (build_json_rpc_result (id_in g call.message) result) (codes "SKIP_ERROR"))

  write_through : K → CacheEntry N → Option ℕ → Step N K C (Unit {0})
  write_through key entry none = pure tt
  write_through key entry (some multiplier) = emit (l2_written key entry (entry.ttl * multiplier))

  new_entry : Call N C → CachePolicyDecision → Json N → ℕ → CacheEntry N
  new_entry call policy result created_at = record {
    result = result;
    created_at = created_at;
    ttl = or_default policy.ttl call.server.cache.default_ttl;
    tool_name = call.target.tool_name;
    server_id = call.target.server_id;
  }

  store : Call N C → CachePolicyDecision → K → Json N → Step N K C (CoreResult N)
  unfolding write_through new_entry
  store call policy key result = do
    created_at ← ask g.now
    let entry = new_entry call policy result created_at
    emit (l1_written key entry)
    emit (counted cache_entries)
    write_through key entry g.config.l2_ttl_multiplier
    emit (logged (log_plain g (codes "MISS")))
    run_hook g before_response
    pure (with_status (build_json_rpc_result (id_in g call.message) result) (codes "MISS"))

  -- A tool's error is not cached.
  finish : Call N C → CachePolicyDecision → K → Json N → Step N K C (CoreResult N)
  unfolding answer_tool_error store
  finish call policy key result =
      if is_tool_error result then answer_tool_error call result else store call policy key result

  -- A call whose result may be in the cache.
  unfoldable pub use_cache : Call N C → CachePolicyDecision → K → Step N K C (CoreResult N)
  unfolding answer_upstream_error finish
  use_cache call policy key = do
    run_hook g before_cache
    look_up call key
    server_limits_gate g (id_in g call.message) call.caller call.target true
    deduped ← λ h. caught g (deduplicate call key h) (answer_upstream_error (id_in g call.message))
    (if deduped.1
        then emit (counted (dedup_coalesced call.target.server_id call.target.tool_name))
        else pure tt)
    run_hook g after_upstream
    finish call policy key deduped.0

  by_policy : Call N C → CachePolicyDecision → Step N K C (CoreResult N)
  by_policy call policy = do
    (if policy.is_destructive
        then invalidate g call.target.server_id policy.invalidates
        else pure tt)
    (if policy.should_cache && g.config.cache_enabled
        then use_cache call policy (cache_key g call.caller call.target policy.ignore_args)
        else bypass_cache g call)

  with_config :
      JsonRpcMessage N → Caller → Target N → C → Option ServerConfig → Step N K C (CoreResult N)
  unfolding by_policy
  with_config message caller t client none = do
    emit (logged (record (log_error g.numbers 32603 []) { error_message = none }))
    return (
        just (
          rpc_error_body g.numbers (id_in g message) 32603
            (codes "Configuration manquante pour : " ++ t.server_id)))
  with_config message caller t client (some server) = do
    annotations ← ask (g.annotations t.server_id t.tool_name)
    by_policy
        (record {
          message = message;
          caller = caller;
          target = t;
          client = client;
          server = server;
        })
        (decide_cache_policy g.inherited t.tool_name annotations server.cache)

  -- The steps behind the checks, for the client that the router has found.
  with_client : JsonRpcMessage N → Caller → Text → Target N → Option C → Step N K C (CoreResult N)
  unfolding with_config
  with_client message caller tool_name t none = do
    emit (logged (log_error g.numbers 32601 (codes "Outil introuvable : " ++ tool_name)))
    return (just (g.tool_not_found (id_in g message) tool_name))
  with_client message caller tool_name t (some client) =
      with_config message caller t client (find_config g.config.servers t.server_id)

  checked : JsonRpcMessage N → Caller → Text → Text → Resolved N C → Step N K C (CoreResult N)
  unfolding with_client
  checked message caller server_id tool_name resolved = do
    acl_gate g (id_in g message) caller resolved.target
    governance_gate g (id_in g message) caller resolved.target
    guardrails_gate g (id_in g message) caller resolved.target
    client_limits_gate g (id_in g message) caller server_id
    with_client message caller tool_name resolved.target resolved.client

  unfoldable pub handle_tool_call : JsonRpcMessage N → Caller → Text → Step N K C (CoreResult N)
  unfolding checked
  handle_tool_call message caller server_id = do
    resolved ←
        resolve_target g (id_in g message) server_id (or_empty (extract_tool_name message))
          (extract_tool_args message)
    checked message caller server_id (or_empty (extract_tool_name message)) resolved
