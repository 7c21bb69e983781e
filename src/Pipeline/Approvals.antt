-- ===== src/Pipeline/Approvals.antt =====
-- Approvals, `enforceApprovalRequirement` of src/gateway/pipeline.ts.
pub mod Passing
use mcp_conduit.Acl.{evaluate_acl}
use mcp_conduit.Base.{
  ℕ, Bool, true, false, not, ◌&&◌, List, [], ◌∷◌, ◌++◌, any, Option, none, some, if◌then◌else◌, is,
  length, drop,
}
use mcp_conduit.Base.Decimal.{decimal}
use mcp_conduit.Base.JsMap
use mcp_conduit.Base.Json.{Json, num, str, obj, Fields, end, field}
use mcp_conduit.Base.Text.{Text, text_dec, codes, starts_with}
use mcp_conduit.Guardrails.{
  GuardrailsConfig, GuardrailDecision, FinalAction, allow, act, block, alert, require_approval,
  transform, evaluate_guardrails,
}
use mcp_conduit.JsonRpc.{JsonRpcMessage, build_json_rpc_error}
use mcp_conduit.Pipeline.{
  Gateway, Step, ◌>>=◌, ◌>>◌, pure, return, throw, emit, ask, Outcome, next, answer, raise, Target,
  RequestContext, PolicyDecision, Refusal, PolicyEffect, acl_denials, guardrail_actions,
  rate_limit_rejections, counted, logged, audited, webhook_sent, approval_checked, approval_created,
  quota_consumed, client_limits_consumed, server_limits_consumed, client_selected, tool_resolved,
  AclConfig, effect_allow, effect_deny, effect_require_approval, other_error, CoreResult, LogEntry,
}
use mcp_conduit.Pipeline.Resolution.{non_empty, or_text}
use mcp_conduit.Pipeline.Messages.{just, rpc_error_body, log_error, code}

pub record Caller : Type 0 where
  pub client_id : Text
  pub tenant_id : Text
  pub context : RequestContext

-- A header that is missing or empty is none.
abbrev pub present : Option Text → Option Text
present none = none
present (some s) = non_empty s

module _ {N B K C : Type 0} (g : Gateway N B K C) where
  abbrev pub workspace_of : Caller → Text
  workspace_of caller = g.governance.workspace caller.client_id caller.tenant_id

  -- What is added to the log entry for a guardrail's rule.
  abbrev approval_log : Text → Option (Text × Text) → LogEntry N
  approval_log message guardrail = record (log_error g.numbers 32011 message) {
    guardrail = guardrail;
  }

  abbrev invalid_grant : Text
  invalid_grant = codes "Approval token is invalid, expired, or does not match this request"

  abbrev header_hint : Text → Json N
  header_hint workspace = obj (
      field (codes "workspace_id") (str workspace)
        (field (codes "approval_header") (str (codes "X-Conduit-Approval-Id")) end))

  request_approval :
      Option (Json N) → Target N → Text → Text → Option (Text × Text) → Step N K C (Unit {0})
  request_approval id t rule_name reason guardrail = do
    extra ← ask (g.governance.approval_data t)
    emit (approval_created t rule_name)
    emit (logged (approval_log reason guardrail))
    return (just (build_json_rpc_error id (code g.numbers 32011) (str reason) (some extra)))

  verify_approval :
      Option (Json N) → Caller → Target N → Text → Option (Text × Text) → Step N K C (Unit {0})
  verify_approval id caller t approval guardrail = do
    granted ← ask (g.governance.verify_grant approval (workspace_of caller) caller.client_id t)
    emit (approval_checked t granted)
    (if granted then pure tt else (do
      emit (logged (approval_log invalid_grant guardrail))
      return (
          just (
            build_json_rpc_error id (code g.numbers 32011) (str invalid_grant)
              (some (header_hint (workspace_of caller)))))))

  require :
      Option (Json N)
      → Caller
      → Target N
      → Text
      → Text
      → Option (Text × Text)
      → Option Text
      → Step N K C (Unit {0})
  unfolding request_approval verify_approval
  require id caller t rule_name reason guardrail none =
      request_approval id t rule_name reason guardrail
  require id caller t rule_name reason guardrail (some approval) =
      verify_approval id caller t approval guardrail

  unfoldable pub enforce_approval_requirement :
      Option (Json N)
      → Caller
      → Target N
      → Text
      → Text
      → Option (Text × Text)
      → Step N K C (Unit {0})
  unfolding require
  enforce_approval_requirement id caller t rule_name reason guardrail =
      require id caller t rule_name reason guardrail
        (present (JsMap.get text_dec (codes "x-conduit-approval-id") caller.context.raw_headers))
