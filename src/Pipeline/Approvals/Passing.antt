-- ===== src/Pipeline/Approvals/Passing.antt =====
-- A call that needs an approval goes on only with one.
use mcp_conduit.Base.{inl, inr, refl, true, Option, none, some, Elem, Bool-cases}
use mcp_conduit.Base.Json.{Json}
use mcp_conduit.Base.Text.{Text}
use mcp_conduit.Pipeline.{Gateway, History, Target, approval_checked}
use mcp_conduit.Pipeline.Approvals.{
  Caller, request_approval, verify_approval, require, enforce_approval_requirement,
}
use mcp_conduit.Pipeline.Monitor.{now, then_event, Ends, passes, answers, Passes}

module _ {N B K C : Type 0} (g : Gateway N B K C) (id : Option (Json N)) (caller : Caller)
    (t : Target N) where
  request-Ends :
      {Q : Unit {0} → History N K C → Type 0} (rule_name reason : Text)
      (guardrail : Option (Text × Text)) (h : History N K C)
      → Ends Q h (request_approval g id t rule_name reason guardrail h)
  unfolding request_approval
  request-Ends rule_name reason guardrail h = answers (then_event _ refl (then_event _ refl now))

  verify-Passes :
      (approval : Text) (guardrail : Option (Text × Text))
      → Passes
          (λ a h. Elem (approval_checked t true) h)
          (verify_approval g id caller t approval guardrail)
  unfolding verify_approval
  verify-Passes approval guardrail h =
      elim (Bool-cases (
        g.governance.verify_grant approval
          (g.governance.workspace caller.client_id caller.tenant_id) caller.client_id t h)) [
            | inl granted ↦ rw granted (passes (then_event _ refl now) (inl refl))
            | inr refused ↦ rw refused (answers (then_event _ refl (then_event _ refl now)))
          ]

  require-Passes :
      (rule_name reason : Text) (guardrail : Option (Text × Text)) (approval : Option Text)
      → Passes
          (λ a h. Elem (approval_checked t true) h)
          (require g id caller t rule_name reason guardrail approval)
  unfolding require
  require-Passes rule_name reason guardrail none h = request-Ends rule_name reason guardrail h
  require-Passes rule_name reason guardrail (some approval) h = verify-Passes approval guardrail h

  pub enforce-Passes :
      (rule_name reason : Text) (guardrail : Option (Text × Text))
      → Passes
          (λ a h. Elem (approval_checked t true) h)
          (enforce_approval_requirement g id caller t rule_name reason guardrail)
  unfolding enforce_approval_requirement
  enforce-Passes rule_name reason guardrail h = require-Passes rule_name reason guardrail _ h
