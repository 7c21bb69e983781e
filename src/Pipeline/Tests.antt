-- ===== src/Pipeline/Tests.antt =====
-- A small gateway, and calls through it.
use mcp_conduit.Acl as AccessControl
use mcp_conduit.Acl.{evaluate_acl, matches_pattern}
use mcp_conduit.Base.{
  ℕ, ◌≡◌, ◌↔◌, ◌≤◌, refl, inl, inr, true, false, List, [], ◌∷◌, none, some, Elem, ltb, leb, ◌==◌,
  ℕ_discrete, map,
}
use mcp_conduit.Base.Json.{
  Json, cons, nil, arr, null, bool, num, str, obj, end, field, Numbers, own, text_ltb, is_index,
  goes_before, insert_new, replace, has_key, assign,
}
use mcp_conduit.Base.Text.{Text, text_dec, codes, starts_with}
use mcp_conduit.CachePolicy.{decide_cache_policy, find_override, apply_config_override}
use mcp_conduit.Guardrails.{Builtins}
use mcp_conduit.JsonRpc.{
  JsonRpcMessage, get, build_json_rpc_result, extract_tool_name, extract_tool_args,
}
use mcp_conduit.Pipeline
use mcp_conduit.Pipeline.{
  Gateway, Governance, Config, RequestContext, CoreResult, ServerConfig, AclConfig, TenantIsolation,
  UpstreamResponse, Target, History, Event, CacheEntry, effect_allow, method_other, rejected,
  accepted, AuthMethod, l1_written,
}
use mcp_conduit.Pipeline.Forwarding.{
  run_hook, build_extra_headers, passthrough_to_server, forward_to_upstream, caught, resolve_tenant,
  key_options, cache_key,
}
use mcp_conduit.Pipeline.Approvals.{Caller}
use mcp_conduit.Pipeline.Gates.{acl_gate, governance_gate, guardrails_gate}
use mcp_conduit.Pipeline.Limits.{client_limits_gate, server_limits_gate}
use mcp_conduit.Pipeline.Resolution.{has_server, profile_of, resolve_target}
use mcp_conduit.Pipeline.Messages.{build_forward_message, error_in, is_truthy}
use mcp_conduit.Pipeline.ToolCall.{
  handle_tool_call, is_tool_error, look_up, fetch, deduplicate, use_cache,
}
use mcp_conduit.Pipeline.Monitor.{Permits, the_target, Quiet}
use mcp_conduit.Pipeline.Upstream.{
  forwards, handle_tool_call-Permits, handle_tool_call-forwards, handle_tool_call-Storable,
  IsRightWrite,
}
use mcp_conduit.Pipeline.Handle.{handle}
use mcp_conduit.Pipeline.Handle.Identification.{handle-unauthenticated}
use mcp_conduit.Pipeline.Messages.Forwarded.{build_forward_message_lem}
use mcp_conduit.Pipeline.Tenants.{cache_key-tenant}
use mcp_conduit.Pipeline.ToolsList.{
  Listed, aggregated_body, filtered_body, renamed, listed_tools, tools_in, property_in, name_of,
}
use mcp_conduit.Pipeline.Visibility.{MaySee, tools_list-MaySee}
use mcp_conduit.Tools.{no_annotations}

abbrev numbers : Numbers ℕ
numbers = record { of_nat = λ n. n; minus = λ n. n; eq = λ m n. m == n; lt = ltb; le = leb }

abbrev builtins : Builtins ℕ ℕ
builtins = record { of_object = λ t. none; of_array = λ t. none; member = λ b t. none }

abbrev the_server : ServerConfig
the_server = record {
  id = codes "s";
  cache = record { default_ttl = 60; overrides = none };
  has_upstream_auth = false;
  forward_authorization = false;
}

abbrev the_config : Config ℕ
the_config = record {
  auth = some method_other;
  acl =
      some
        (record { enabled = true; policies = []; default_action = AccessControl.by_default_allow });
  guardrails = none;
  limits_enabled = true;
  cache_enabled = true;
  tenant_isolation = record { enabled = true; header = codes "X-Tenant" };
  servers = the_server ∷ [];
  l2_ttl_multiplier = none;
}

abbrev the_governance : Governance ℕ (Json ℕ) ℕ
the_governance = record {
  is_enabled = false;
  workspace = λ c t. t;
  roles = λ w c. null;
  tool_policy = λ c t s n. record { effect = effect_allow; policy_name = []; reason = [] };
  can_view = λ c t s n. true;
  quota = λ w h. none;
  verify_grant = λ a w c t h. false;
  approval_data = λ t h. null;
}

abbrev the_answer : Json ℕ
the_answer = obj (field (codes "result") (obj (field (codes "ok") (bool true) end)) end)

abbrev gateway : Gateway ℕ ℕ (Json ℕ) ℕ
gateway = record {
  config = the_config;
  numbers = numbers;
  builtins = builtins;
  regex = λ r s. none;
  inherited = λ t. false;
  lower_case = λ t. t;
  digest = λ v. v;
  extract_tenant_id = λ h. h;
  now = λ h. 0;
  authenticate = λ c h. rejected (codes "no key");
  hook = λ n h. none;
  profile_servers = λ p. none;
  client_for_server = λ s h. some 7;
  resolve_tool_name = λ t h. none;
  resolve_tool_call = λ t h. none;
  annotations = λ s t h. record no_annotations { read_only_hint = some true };
  governance = the_governance;
  client_limits = λ c h. none;
  server_limits = λ c s t h. none;
  l1_get = λ k h. none;
  l2_get = λ k h. none;
  in_flight = λ k h. none;
  upstream_headers = λ s c t. inr [];
  forward = λ c s m h. inl (record { body = the_answer; session = none; streams = false });
  tool_not_found = λ i t. null;
  server_unavailable = λ i s. null;
  profile_info = λ p. (null, []);
}

abbrev the_caller : Caller
the_caller = record {
  client_id = codes "c";
  tenant_id = codes "t";
  context = record {
    trace_id = codes "x";
    auth_header = none;
    group_header = none;
    session_id = none;
    raw_headers = [];
  };
}

abbrev the_message : JsonRpcMessage ℕ
the_message = field (codes "jsonrpc") (str (codes "2.0")) (
    field (codes "id") (num 1) (
      field (codes "method") (str (codes "tools/call")) (
        field (codes "params")
          (obj (
            field (codes "name") (str (codes "get"))
              (field (codes "arguments") (obj (field (codes "a") (num 3) end)) end)))
          end)))

abbrev the_history : History ℕ (Json ℕ) ℕ
the_history = (handle_tool_call gateway the_message the_caller (codes "s") []).1

abbrev the_headers : List (Text × Text)
the_headers = (codes "X-Conduit-Trace-Id", codes "x") ∷ []

program : Unit {0}
unfolding handle_tool_call resolve_target acl_gate governance_gate guardrails_gate
    client_limits_gate server_limits_gate profile_of run_hook build_extra_headers
    passthrough_to_server forward_to_upstream caught build_forward_message error_in is_truthy
    is_tool_error look_up fetch deduplicate use_cache decide_cache_policy find_override
    apply_config_override extract_tool_name extract_tool_args build_json_rpc_result evaluate_acl own
    assign insert_new replace has_key goes_before is_index text_ltb starts_with text_dec ℕ_discrete
program = tt

abbrev called : Target ℕ
called = record {
  server_id = codes "s";
  tool_name = codes "get";
  args = field (codes "a") (num 3) end;
}

abbrev the_key : Json ℕ
the_key = cache_key gateway the_caller called []

abbrev the_entry : CacheEntry ℕ
the_entry = record {
  result = obj (field (codes "ok") (bool true) end);
  created_at = 0;
  ttl = 60;
  tool_name = codes "get";
  server_id = codes "s";
}

stored : Elem (Pipeline.l1_written the_key the_entry) the_history
unfolding program
stored = inr (inr (inr (inl refl)))

sent : Elem (Pipeline.forwarded 7 (codes "s") the_message the_headers) the_history
unfolding program
sent = inr (inr (inr (inr (inr (inl refl)))))

handle_tool_call-Permits_example :
    (tool_name : Text) × (the_message ≡ build_forward_message numbers the_message tool_name)
    × Permits gateway the_caller
        (the_target gateway the_caller the_message (codes "s") tool_name)
        the_history
handle_tool_call-Permits_example =
    handle_tool_call-Permits gateway the_caller the_message (codes "s") 7 (codes "s") the_message
      the_headers sent

handle_tool_call-forwards_example : forwards gateway the_caller the_message the_history ≤ 1
handle_tool_call-forwards_example =
    handle_tool_call-forwards gateway the_caller the_message (codes "s")

handle_tool_call-Storable_example :
    IsRightWrite gateway the_caller the_message (l1_written the_key the_entry)
handle_tool_call-Storable_example =
    handle_tool_call-Storable gateway the_caller the_message (codes "s")
      (l1_written the_key the_entry) stored

abbrev another_caller : Caller
another_caller = record the_caller { client_id = codes "d" }

same_key : cache_key gateway the_caller called [] ≡ cache_key gateway another_caller called []
unfolding cache_key key_options resolve_tenant
same_key = refl

cache_key-tenant_example : the_caller.tenant_id ≡ another_caller.tenant_id
cache_key-tenant_example =
    cache_key-tenant gateway the_caller another_caller called called [] [] refl refl (λ e. e)
      same_key

-- A result that came as a stream is stored as an empty object.
stream_stored :
    Elem
      (Pipeline.l1_written the_key (record the_entry { result = obj end }))
      (handle_tool_call
        (record gateway {
          forward = λ c s m h. inl (record { body = null; session = none; streams = true });
        })
        the_message
        the_caller
        (codes "s")
        []).1
unfolding program cache_key key_options resolve_tenant
stream_stored = inr (inr (inr (inl refl)))

the_params :
    get (codes "params") the_message
    ≡ some (
        obj (
          field
            (codes "name")
            (str (codes "get"))
            (field (codes "arguments") (obj (field (codes "a") (num 3) end)) end)))
unfolding own text_dec ℕ_discrete
the_params = refl

build_forward_message_lem_example :
    (extract_tool_name (build_forward_message numbers the_message (codes "put"))
      ≡ some (codes "put"))
    × (extract_tool_args (build_forward_message numbers the_message (codes "put"))
        ≡ extract_tool_args the_message)
build_forward_message_lem_example =
    build_forward_message_lem numbers the_message (codes "put")
      (field (codes "name") (str (codes "get"))
        (field (codes "arguments") (obj (field (codes "a") (num 3) end)) end))
      the_params

abbrev a_tool : Listed ℕ
a_tool = record {
  server_id = codes "s";
  tool_name = codes "get";
  namespaced_name = codes "s.get";
  tool_def = end;
}

abbrev get_tool : Json ℕ
get_tool = obj (field (codes "name") (str (codes "get")) end)

abbrev list_body : Json ℕ
list_body =
    obj (field (codes "result") (obj (field (codes "tools") (arr (cons get_tool nil)) end)) end)

lists_get : listed_tools gateway list_body ≡ some (get_tool ∷ [])
unfolding listed_tools tools_in property_in own text_dec ℕ_discrete
lists_get = refl

tools_list-MaySee_example :
    ((shown : List (Json ℕ)) × (listed_tools gateway
          (filtered_body gateway the_caller (codes "s") list_body (listed_tools gateway list_body))
        ≡ some shown)
      × ((tool : Json ℕ)
          → Elem tool shown
            ↔ (Elem tool (get_tool ∷ []) × MaySee gateway the_caller (codes "s") (name_of tool))))
    × ((shown : List (Listed ℕ)) × (listed_tools gateway
            (aggregated_body gateway the_message the_caller none (a_tool ∷ []))
          ≡ some (map (renamed gateway) shown))
        × ((tool : Listed ℕ)
            → Elem tool shown ↔ (
                Elem tool (a_tool ∷ [])
                × (has_server gateway tool.server_id none ≡ true)
                × MaySee gateway the_caller tool.server_id tool.tool_name)))
tools_list-MaySee_example =
    tools_list-MaySee gateway the_caller (codes "s") list_body (get_tool ∷ []) the_message none
      (a_tool ∷ []) lists_get

handle-unauthenticated_example :
    Quiet (handle gateway (λ h. []) the_message the_caller.context (codes "s") []).1
handle-unauthenticated_example =
    handle-unauthenticated gateway (λ h. []) the_message the_caller.context (codes "s") method_other
      (codes "no key") refl (λ h. refl)
