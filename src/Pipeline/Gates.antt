-- ===== src/Pipeline/Gates.antt =====
-- The access control, the governance and the guardrails in `handleToolCall` of src/gateway/pipeline.ts.
pub mod Passing
use mcp_conduit.Acl.{evaluate_acl}
use mcp_conduit.Base.{
  ℕ, Bool, true, false, not, ◌&&◌, List, [], ◌∷◌, ◌++◌, any, Option, none, some, if◌then◌else◌, is,
  length, drop,
}
use mcp_conduit.Base.Decimal.{decimal}
use mcp_conduit.Base.JsMap
use mcp_conduit.Base.Json.{Json, num, str, obj, Fields, end, field}
use mcp_conduit.Base.Text.{Text, text_dec, codes, starts_with}
use mcp_conduit.Guardrails.{
  GuardrailsConfig, GuardrailDecision, FinalAction, allow, act, block, alert, require_approval,
  transform, evaluate_guardrails,
}
use mcp_conduit.JsonRpc.{JsonRpcMessage, build_json_rpc_error}
use mcp_conduit.Pipeline.{
  Gateway, Step, ◌>>=◌, ◌>>◌, pure, return, throw, emit, ask, Outcome, next, answer, raise, Target,
  RequestContext, PolicyDecision, Refusal, PolicyEffect, acl_denials, guardrail_actions,
  rate_limit_rejections, counted, logged, audited, webhook_sent, approval_checked, approval_created,
  quota_consumed, client_limits_consumed, server_limits_consumed, client_selected, tool_resolved,
  AclConfig, effect_allow, effect_deny, effect_require_approval, other_error, CoreResult, LogEntry,
}
use mcp_conduit.Pipeline.Approvals.{Caller, present, workspace_of, enforce_approval_requirement}
use mcp_conduit.Pipeline.Limits.{is_granted, or_sixty}
use mcp_conduit.Pipeline.Resolution.{or_text}
use mcp_conduit.Pipeline.Messages.{just, rpc_error_body, log_error, code}

module _ {N B K C : Type 0} (g : Gateway N B K C) where
  acl_allows : Text → Target N → AclConfig → Bool
  acl_allows client_id t acl =
      (evaluate_acl client_id t.server_id t.tool_name acl.policies acl.default_action).allowed

  check_acl : Option (Json N) → Caller → Target N → Option AclConfig → Step N K C (Unit {0})
  unfolding acl_allows
  check_acl id caller t none = pure tt
  check_acl id caller t (some acl) =
      if not acl.enabled
      then pure tt
      else (if acl_allows caller.client_id t acl then pure tt else do
        emit (counted (acl_denials caller.client_id t.server_id t.tool_name))
        emit (
            logged (
              log_error g.numbers 32000 (
                codes "Access denied: "
                ++ (evaluate_acl caller.client_id t.server_id t.tool_name acl.policies
                    acl.default_action).reason)))
        return (
            just (
              rpc_error_body g.numbers id 32000 (
                codes "Access denied: client '"
                ++ caller.client_id
                ++ codes "' is not allowed to call '"
                ++ t.tool_name
                ++ codes "' on server '"
                ++ t.server_id
                ++ codes "'"))))

  unfoldable pub acl_gate : Option (Json N) → Caller → Target N → Step N K C (Unit {0})
  unfolding check_acl
  acl_gate id caller t = check_acl id caller t g.config.acl

  governance_error : Option (Json N) → Text → ℕ → Text → Json N → Option ℕ → Step N K C (Unit {0})
  governance_error id action n message extra retry_after = do
    emit (audited action)
    emit (logged (log_error g.numbers n message))
    return (record (just (build_json_rpc_error id (code g.numbers n) (str message) (some extra))) {
      retry_after = retry_after;
    })

  by_effect :
      Option (Json N) → Caller → Target N → PolicyDecision → PolicyEffect → Step N K C (Unit {0})
  unfolding governance_error
  by_effect id caller t decision effect_allow = pure tt
  by_effect id caller t decision effect_deny =
      governance_error id (codes "tool_policy_denied") 32010 decision.reason
        (obj (
          field (codes "workspace_id") (str (workspace_of g caller)) (
            field (codes "policy_name") (str decision.policy_name) (
              field (codes "roles") (g.governance.roles (workspace_of g caller) caller.client_id)
                end))))
        none
  by_effect id caller t decision effect_require_approval =
      enforce_approval_requirement g id caller t
        (or_text (present (some decision.policy_name)) (codes "governance")) decision.reason none

  quota_result : Option (Json N) → Caller → Refusal → Step N K C (Unit {0})
  unfolding governance_error
  quota_result id caller none = pure tt
  quota_result id caller (some (blocked_by, retry_after)) =
      governance_error id (codes "workspace_quota_blocked") 32012
        (codes "Workspace quota exceeded: " ++ or_text blocked_by (codes "workspace"))
        (obj (
          field (codes "workspace_id") (str (workspace_of g caller))
            (field (codes "retry_after") (num (g.numbers.of_nat (or_sixty retry_after))) end)))
        (some (or_sixty retry_after))

  abbrev pub policy_of : Caller → Target N → PolicyDecision
  policy_of caller t =
      g.governance.tool_policy caller.client_id caller.tenant_id t.server_id t.tool_name

  unfoldable pub governance_gate : Option (Json N) → Caller → Target N → Step N K C (Unit {0})
  unfolding by_effect quota_result
  governance_gate id caller t = if not g.governance.is_enabled then pure tt else (do
    by_effect id caller t (policy_of caller t) (policy_of caller t).effect
    refusal ← ask (g.governance.quota (workspace_of g caller))
    emit (quota_consumed (is_granted refusal))
    quota_result id caller refusal)

  send_webhook : Option Text → Text → Step N K C (Unit {0})
  send_webhook none event = pure tt
  send_webhook (some []) event = pure tt
  send_webhook (some (c ∷ url)) event = emit (webhook_sent (c ∷ url) event)

  by_action :
      Option (Json N) → Caller → Target N → GuardrailDecision → FinalAction → Step N K C (Unit {0})
  unfolding send_webhook
  by_action id caller t decision allow = pure tt
  by_action id caller t decision (act transform) = pure tt
  by_action id caller t decision (act block) = do
    emit (counted (guardrail_actions decision.rule_name (codes "block") t.tool_name))
    emit (
        logged
          (record (log_error g.numbers 32000 (codes "Guardrail blocked: " ++ decision.reason)) {
            guardrail = some (decision.rule_name, codes "block");
          }))
    send_webhook decision.webhook (codes "guardrail_block")
    return (just (rpc_error_body g.numbers id 32000 decision.reason))
  by_action id caller t decision (act require_approval) = do
    emit (counted (guardrail_actions decision.rule_name (codes "require_approval") t.tool_name))
    enforce_approval_requirement g id caller t
        (or_text (present (some decision.rule_name)) (codes "guardrail")) decision.reason
        (some (decision.rule_name, codes "require_approval"))
  by_action id caller t decision (act alert) = do
    emit (counted (guardrail_actions decision.rule_name (codes "alert") t.tool_name))
    send_webhook decision.webhook (codes "guardrail_alert")

  abbrev pub inspect : Caller → Target N → GuardrailsConfig N → GuardrailDecision
  inspect caller t guardrails =
      evaluate_guardrails g.numbers g.builtins g.regex
        (record {
          client_id = caller.client_id;
          server_id = t.server_id;
          tool_name = t.tool_name;
          tool_args = t.args;
        })
        guardrails

  check_guardrails :
      Option (Json N) → Caller → Target N → Option (GuardrailsConfig N) → Step N K C (Unit {0})
  unfolding by_action
  check_guardrails id caller t none = pure tt
  check_guardrails id caller t (some guardrails) =
      if guardrails.enabled
      then by_action id caller t (inspect caller t guardrails) (inspect caller t guardrails).action
      else pure tt

  unfoldable pub guardrails_gate : Option (Json N) → Caller → Target N → Step N K C (Unit {0})
  unfolding check_guardrails
  guardrails_gate id caller t = check_guardrails id caller t g.config.guardrails
