-- ===== src/Pipeline/ToolCall/Lawful.antt =====
-- Every history of a tool call is lawful.
use mcp_conduit.Base.{
  ◌≡◌, refl, Bool, true, false, ◌&&◌, List, [], Option, none, some, if◌then◌else◌,
}
use mcp_conduit.Base.Text.{Text}
use mcp_conduit.CachePolicy.{CachePolicyDecision}
use mcp_conduit.JsonRpc.{JsonRpcMessage, extract_tool_args, extract_tool_name}
use mcp_conduit.Pipeline.{Gateway, pure, History, Target, ServerConfig}
use mcp_conduit.Pipeline.Forwarding.{Call, find_config, id_in, invalidate}
use mcp_conduit.Pipeline.Forwarding.Lawful.{
  Checked, Later-Checked, GovernanceAllows-Later, GuardrailsAllow-Later, find_config-id,
  invalidate-Ends, bypass_cache-Keeps,
}
use mcp_conduit.Pipeline.Approvals.{Caller}
use mcp_conduit.Pipeline.Resolution.{Resolved}
use mcp_conduit.Pipeline.Gates.Passing.{
  acl_gate-Passes, governance_gate-Passes, guardrails_gate-Passes,
}
use mcp_conduit.Pipeline.Limits.Passing.{client_limits_gate-Passes}
use mcp_conduit.Pipeline.Resolution.Passing.{resolve_target-Passes}
use mcp_conduit.Pipeline.Monitor.{
  Later, now, Later-trans, Later-Quiet, AclAllows, GovernanceAllows, GuardrailsAllow,
  ClientLimitsAllow, Quiet, Lawful, Keeps, goes_on, stops, bind-Keeps, if-Keeps, Keeps-end,
  Ends-Keeps,
}
use mcp_conduit.Pipeline.ToolCall.{
  by_policy, with_config, with_client, checked, handle_tool_call, or_empty,
}
use mcp_conduit.Pipeline.ToolCall.Storing.{IsDecided, Good, Done, use_cache-Keeps}

module _ {N B K C : Type 0} (g : Gateway N B K C) where
  invalidated-Keeps :
      (call : Call N C) (destructive : Bool) (tools : List Text) (h : History N K C)
      → Good g call h
      → Keeps
          (Good g call)
          (λ a h'. Later h h' × Unit {0})
          ((if destructive then invalidate g call.target.server_id tools else pure tt) h)
  invalidated-Keeps call true tools h l =
      Ends-Keeps g call.caller call.message (invalidate-Ends g call.target.server_id tools h) l
  invalidated-Keeps call false tools h l = goes_on l (now, tt)

  by_policy-Keeps :
      (call : Call N C) (policy : CachePolicyDecision) (h : History N K C)
      → Checked g call h
      → IsDecided g call policy
      → Good g call h
      → Keeps (Good g call) (Done g) (by_policy g call policy h)
  unfolding by_policy
  by_policy-Keeps call policy h c decided l =
      bind-Keeps _ (invalidated-Keeps call policy.is_destructive policy.invalidates h l)
        (λ a h' l' (r, q).
          let c' = Later-Checked g call r c in
          if-Keeps (policy.should_cache && g.config.cache_enabled) _ _ h'
            (λ cached. use_cache-Keeps g call policy h' c' decided l')
            (λ skipped. bypass_cache-Keeps g call h' c' l'))

  module _ (message : JsonRpcMessage N) (caller : Caller) where
    -- What the checks establish of a target.
    abbrev Ready : Target N → History N K C → Type 0
    Ready t h =
        (t.args ≡ extract_tool_args message)
        × AclAllows g caller t
        × GovernanceAllows g caller t h
        × GuardrailsAllow g caller t h
        × ClientLimitsAllow g caller h
        × Quiet h

    with_config-Keeps :
        (t : Target N) (client : C) (server : Option ServerConfig) (h : History N K C)
        → Ready t h
        → find_config g.config.servers t.server_id ≡ server
        → Lawful g caller message h
        → Keeps (Lawful g caller message) (Done g) (with_config g message caller t client server h)
    unfolding with_config
    with_config-Keeps t client none h r e l = stops (tt, l)
    with_config-Keeps t client (some server) h (args, acl, governed, guarded, limited, quiet) e l =
        by_policy-Keeps
          (record {
            message = message;
            caller = caller;
            target = t;
            client = client;
            server = server;
          })
          _ h
          (
            args,
            find_config-id g.config.servers t.server_id server e,
            acl,
            governed,
            guarded,
            limited,
            quiet,
          )
          (e, (h, refl)) l

    with_client-Keeps :
        (tool_name : Text) (t : Target N) (client : Option C) (h : History N K C)
        → Ready t h
        → Lawful g caller message h
        → Keeps
            (Lawful g caller message)
            (Done g)
            (with_client g message caller tool_name t client h)
    unfolding with_client
    with_client-Keeps tool_name t none h r l = stops (tt, l)
    with_client-Keeps tool_name t (some client) h r l = with_config-Keeps t client _ h r refl l

    checked-Keeps :
        (server_id tool_name : Text) (resolved : Resolved N C) (h : History N K C)
        → resolved.target.args ≡ extract_tool_args message
        → Quiet h
        → Lawful g caller message h
        → Keeps
            (Lawful g caller message)
            (Done g)
            (checked g message caller server_id tool_name resolved h)
    unfolding checked
    checked-Keeps server_id tool_name resolved h args quiet l =
        let t = resolved.target in
        let id = id_in g message in
        bind-Keeps _ (Ends-Keeps g caller message (acl_gate-Passes g id caller t h) l)
          (λ a1 h1 l1 (r1, acl).
            bind-Keeps _ (Ends-Keeps g caller message (governance_gate-Passes g id caller t h1) l1)
              (λ a2 h2 l2 (r2, governed).
                bind-Keeps _
                  (Ends-Keeps g caller message (guardrails_gate-Passes g id caller t h2) l2)
                  (λ a3 h3 l3 (r3, guarded).
                    bind-Keeps _
                      (Ends-Keeps g caller message
                        (client_limits_gate-Passes g id caller t server_id h3) l3)
                      (λ a4 h4 l4 (r4, limited).
                        with_client-Keeps tool_name t resolved.client h4
                          (
                            args,
                            acl,
                            GovernanceAllows-Later g caller t (Later-trans r3 r4) governed,
                            GuardrailsAllow-Later g caller t r4 guarded,
                            limited,
                            Later-Quiet (Later-trans r1 (Later-trans r2 (Later-trans r3 r4))) quiet,
                          )
                          l4))))

    -- Whatever the other components answer, a tool call that starts with no history leaves a lawful one.
    pub handle_tool_call-Lawful :
        (server_id : Text)
        → Lawful g caller message (handle_tool_call g message caller server_id []).1
    unfolding handle_tool_call
    handle_tool_call-Lawful server_id = Keeps-end (
        bind-Keeps {P = λ r h. Later [] h × (r.target.args ≡ extract_tool_args message)} _
          (Ends-Keeps g caller message
            (resolve_target-Passes g server_id (or_empty (extract_tool_name message))
              (extract_tool_args message) (id_in g message) [])
            tt)
          (λ resolved h l (r, args).
            checked-Keeps server_id (or_empty (extract_tool_name message)) resolved h args
              (Later-Quiet r tt) l))
