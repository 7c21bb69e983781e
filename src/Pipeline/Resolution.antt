-- ===== src/Pipeline/Resolution.antt =====
-- What a tool call is about: the server, the tool and the client that `handleToolCall` of
-- src/gateway/pipeline.ts finds for it, and the profiles of src/connect/profile-target.ts.
pub mod Passing
use mcp_conduit.Acl.{evaluate_acl}
use mcp_conduit.Base.{
  ℕ, Bool, true, false, not, ◌&&◌, List, [], ◌∷◌, ◌++◌, any, Option, none, some, if◌then◌else◌, is,
  length, drop,
}
use mcp_conduit.Base.Decimal.{decimal}
use mcp_conduit.Base.JsMap
use mcp_conduit.Base.Json.{Json, num, str, obj, Fields, end, field}
use mcp_conduit.Base.Text.{Text, text_dec, codes, starts_with}
use mcp_conduit.Guardrails.{
  GuardrailsConfig, GuardrailDecision, FinalAction, allow, act, block, alert, require_approval,
  transform, evaluate_guardrails,
}
use mcp_conduit.JsonRpc.{JsonRpcMessage, build_json_rpc_error}
use mcp_conduit.Pipeline.{
  Gateway, Step, ◌>>=◌, ◌>>◌, pure, return, throw, emit, ask, Outcome, next, answer, raise, Target,
  RequestContext, PolicyDecision, Refusal, PolicyEffect, acl_denials, guardrail_actions,
  rate_limit_rejections, counted, logged, audited, webhook_sent, approval_checked, approval_created,
  quota_consumed, client_limits_consumed, server_limits_consumed, client_selected, tool_resolved,
  AclConfig, effect_allow, effect_deny, effect_require_approval, other_error, CoreResult, LogEntry,
}
use mcp_conduit.Pipeline.Messages.{just, rpc_error_body, log_error, code}

abbrev pub profile_target_prefix : Text
profile_target_prefix = codes "__conduit_profile__:"

abbrev pub non_empty : Text → Option Text
non_empty [] = none
non_empty (c ∷ s) = some (c ∷ s)

-- The identifier of a profile; an empty one counts as none.
unfoldable pub profile_of : Text → Option Text
profile_of server_id =
    if starts_with profile_target_prefix server_id
    then non_empty (drop (length profile_target_prefix) server_id)
    else none

-- What a call is about: the client of the server that was asked for, if the call goes to it directly, and
-- otherwise the client that the router chose, if it knows the tool.
pub record Resolved (N C : Type 0) : Type 0 where
  pub target : Target N
  pub is_direct : Bool
  pub client : Option C

abbrev pub or_text : Option Text → Text → Text
or_text none t = t
or_text (some s) t = s

module _ {N B K C : Type 0} (g : Gateway N B K C) where
  -- The servers of a profile; an unknown profile throws.
  unfoldable pub in_profile : Option (List Text) → Step N K C (Option (List Text))
  in_profile none = throw (other_error (codes "unknown profile"))
  in_profile (some ids) = pure (some ids)

  unfoldable pub profile_server_ids : Option Text → Step N K C (Option (List Text))
  unfolding in_profile
  profile_server_ids none = pure none
  profile_server_ids (some profile) = in_profile (g.profile_servers profile)

  direct_client : Option (List Text) → Text → Step N K C (Option C)
  direct_client (some ids) server_id = pure none
  direct_client none server_id = do
    emit (client_selected server_id)
    ask (g.client_for_server server_id)

  abbrev direct_name : Text → Text → Option (Text × Text) → Text
  direct_name server_id tool_name none = tool_name
  direct_name server_id tool_name (some (s, t)) = if is (text_dec s server_id) then t else tool_name

  abbrev routed_target : Text → Text → Fields N → Option (Text × Text × C) → Resolved N C
  routed_target server_id tool_name args none = record {
    target = record { server_id = server_id; tool_name = tool_name; args = args };
    is_direct = false;
    client = none;
  }
  routed_target server_id tool_name args (some (s, t, c)) = record {
    target = record { server_id = s; tool_name = t; args = args };
    is_direct = false;
    client = some c;
  }

  resolve_call : Text → Text → Fields N → Option C → Step N K C (Resolved N C)
  resolve_call server_id tool_name args (some client) = do
    resolved ← ask (g.resolve_tool_name tool_name)
    pure (record {
      target = record {
        server_id = server_id;
        tool_name = direct_name server_id tool_name resolved;
        args = args;
      };
      is_direct = true;
      client = some client;
    })
  resolve_call server_id tool_name args none = do
    emit (tool_resolved tool_name)
    call ← ask (g.resolve_tool_call tool_name)
    pure (routed_target server_id tool_name args call)

  unfoldable pub has_server : Text → Option (List Text) → Bool
  has_server server_id none = true
  has_server server_id (some ids) = any (λ i. is (text_dec i server_id)) ids

  unfoldable pub resolve_target :
      Option (Json N) → Text → Text → Fields N → Step N K C (Resolved N C)
  unfolding profile_server_ids direct_client resolve_call has_server
  resolve_target id server_id tool_name args = do
    servers ← profile_server_ids (profile_of server_id)
    direct ← direct_client servers server_id
    resolved ← resolve_call server_id tool_name args direct
    (if has_server resolved.target.server_id servers
        then pure resolved
        else return (
            just (
              rpc_error_body g.numbers id 32601 (
                codes "Outil introuvable dans le profil \""
                ++ or_text (profile_of server_id) []
                ++ codes "\" : "
                ++ tool_name))))
