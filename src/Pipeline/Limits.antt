-- ===== src/Pipeline/Limits.antt =====
-- The rate limits in `handleToolCall` of src/gateway/pipeline.ts.
pub mod Passing
use mcp_conduit.Acl.{evaluate_acl}
use mcp_conduit.Base.{
  ℕ, Bool, true, false, not, ◌&&◌, List, [], ◌∷◌, ◌++◌, any, Option, none, some, if◌then◌else◌, is,
  length, drop,
}
use mcp_conduit.Base.Decimal.{decimal}
use mcp_conduit.Base.JsMap
use mcp_conduit.Base.Json.{Json, num, str, obj, Fields, end, field}
use mcp_conduit.Base.Text.{Text, text_dec, codes, starts_with}
use mcp_conduit.Guardrails.{
  GuardrailsConfig, GuardrailDecision, FinalAction, allow, act, block, alert, require_approval,
  transform, evaluate_guardrails,
}
use mcp_conduit.JsonRpc.{JsonRpcMessage, build_json_rpc_error}
use mcp_conduit.Pipeline.{
  Gateway, Step, ◌>>=◌, ◌>>◌, pure, return, throw, emit, ask, Outcome, next, answer, raise, Target,
  RequestContext, PolicyDecision, Refusal, PolicyEffect, acl_denials, guardrail_actions,
  rate_limit_rejections, counted, logged, audited, webhook_sent, approval_checked, approval_created,
  quota_consumed, client_limits_consumed, server_limits_consumed, client_selected, tool_resolved,
  AclConfig, effect_allow, effect_deny, effect_require_approval, other_error, CoreResult, LogEntry,
}
use mcp_conduit.Pipeline.Approvals.{Caller}
use mcp_conduit.Pipeline.Resolution.{or_text}
use mcp_conduit.Pipeline.Messages.{just, rpc_error_body, log_error, code}

abbrev pub is_granted : Refusal → Bool
is_granted none = true
is_granted (some r) = false

abbrev pub or_sixty : Option ℕ → ℕ
or_sixty none = 60
or_sixty (some n) = n

module _ {N B K C : Type 0} (g : Gateway N B K C) where
  abbrev limit_message : Text → ℕ → Text
  limit_message blocked_by retry_after =
      codes "Rate limit exceeded: "
      ++ blocked_by
      ++ codes ". Retry after "
      ++ decimal retry_after
      ++ codes " seconds"

  limit_body : Option (Json N) → Text → ℕ → CoreResult N
  limit_body id blocked_by retry_after =
      record (just (rpc_error_body g.numbers id 32000 (limit_message blocked_by retry_after))) {
        retry_after = some retry_after;
      }

  -- A limit's answer; `counted_server` is the metric's label. The server's limits of a call that is not
  -- cached leave no log entry.
  limit_result : Option (Json N) → Text → Text → Text → Bool → Refusal → Step N K C (Unit {0})
  unfolding limit_body
  limit_result id client_id counted_server otherwise logs none = pure tt
  limit_result id client_id counted_server otherwise logs (some (blocked_by, retry_after)) = do
    emit (counted (rate_limit_rejections client_id counted_server (or_text blocked_by otherwise)))
    (if logs
        then emit (
            logged (
              log_error g.numbers 32000
                (codes "Rate limit exceeded: " ++ or_text blocked_by otherwise)))
        else pure tt)
    return (limit_body id (or_text blocked_by otherwise) (or_sixty retry_after))

  -- `serverId` is the server that was asked for.
  unfoldable pub client_limits_gate : Option (Json N) → Caller → Text → Step N K C (Unit {0})
  unfolding limit_result
  client_limits_gate id caller server_id =
      if g.config.limits_enabled
      then (do
        refusal ← ask (g.client_limits caller.client_id)
        emit (client_limits_consumed caller.client_id (is_granted refusal))
        limit_result id caller.client_id server_id (codes "client") true refusal)
      else pure tt

  unfoldable pub server_limits_gate :
      Option (Json N) → Caller → Target N → Bool → Step N K C (Unit {0})
  unfolding limit_result
  server_limits_gate id caller t logs =
      if g.config.limits_enabled
      then (do
        refusal ← ask (g.server_limits caller.client_id t.server_id t.tool_name)
        emit (server_limits_consumed caller.client_id t.server_id t.tool_name (is_granted refusal))
        limit_result id caller.client_id t.server_id (codes "server") logs refusal)
      else pure tt
