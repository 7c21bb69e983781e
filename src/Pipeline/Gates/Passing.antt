-- ===== src/Pipeline/Gates/Passing.antt =====
-- A call that passes the access control, the governance and the guardrails is permitted by them.
use mcp_conduit.Acl.{evaluate_acl}
use mcp_conduit.Base.{
  ◌≡◌, ◌≢◌, ◌∙◌, sym, ap, subst, inl, inr, refl, true, false, not, [], ◌∷◌, Option, none, some,
  Elem, arith, Bool-cases,
}
use mcp_conduit.Base.Json.{Json}
use mcp_conduit.Base.Text.{Text}
use mcp_conduit.Guardrails.{
  GuardrailsConfig, GuardrailDecision, FinalAction, allow, act, block, alert, require_approval,
  transform,
}
use mcp_conduit.Pipeline.{
  Gateway, ◌>>◌, emit, Target, AclConfig, Refusal, PolicyDecision, PolicyEffect, approval_checked,
  quota_consumed, effect_allow, effect_deny, effect_require_approval,
}
use mcp_conduit.Pipeline.Approvals.{Caller}
use mcp_conduit.Pipeline.Gates.{
  inspect, policy_of, check_acl, acl_gate, acl_allows, governance_error, by_effect, quota_result,
  governance_gate, send_webhook, by_action, check_guardrails, guardrails_gate,
}
use mcp_conduit.Pipeline.Limits.{is_granted}
use mcp_conduit.Pipeline.Monitor.{
  now, then_event, Later-Elem, passes, answers, weaken-Ends, if-Ends, Passes, Anything, bind-Ends,
  emit-Ends, AclAllows, GovernanceAllows, GuardrailsAllow,
}
use mcp_conduit.Pipeline.Approvals.Passing.{enforce-Passes}

some-injective : {A : Type 0} {x y : A} → some x ≡ some y → x ≡ y
some-injective e = ground arith

false_not_true : {A : Type 0} → false ≡ true → A
false_not_true e = ground arith

module _ {N B K C : Type 0} (g : Gateway N B K C) (id : Option (Json N)) (caller : Caller)
    (t : Target N) where
  check_acl-Passes :
      (acl : Option AclConfig)
      → Passes
          (λ a h.
            (c : AclConfig)
            → acl ≡ some c
            → c.enabled ≡ true
            → (evaluate_acl caller.client_id t.server_id t.tool_name c.policies
                c.default_action).allowed
              ≡ true)
          (check_acl g id caller t acl)
  unfolding check_acl acl_allows
  check_acl-Passes none h = passes now (λ c e on. ground arith)
  check_acl-Passes (some acl) h = elim (Bool-cases acl.enabled) [
    | inl on ↦
        elim (Bool-cases
          (evaluate_acl caller.client_id t.server_id t.tool_name acl.policies
            acl.default_action).allowed) [
              | inl yes_acl ↦ rw (on, yes_acl) (passes now (λ c e on'. ground arith))
              | inr no_acl ↦ rw (on, no_acl) (answers (then_event _ refl (then_event _ refl now)))
            ]
    | inr off ↦ rw off (passes now (λ c e on. ground arith))
  ]

  pub acl_gate-Passes : Passes (λ a h. AclAllows g caller t) (acl_gate g id caller t)
  unfolding acl_gate
  acl_gate-Passes h = check_acl-Passes g.config.acl h

  by_effect-Passes :
      (decision : PolicyDecision) (effect : PolicyEffect)
      → Passes
          (λ a h.
            (effect ≢ effect_deny)
            × (effect ≡ effect_require_approval → Elem (approval_checked t true) h))
          (by_effect g id caller t decision effect)
  unfolding by_effect governance_error
  by_effect-Passes decision effect_allow h = passes now (λ e. ground arith, λ e. ground arith)
  by_effect-Passes decision effect_deny h = answers (then_event _ refl (then_event _ refl now))
  by_effect-Passes decision effect_require_approval h =
      weaken-Ends (enforce-Passes g id caller t _ _ _ h) (λ a h' r m. (λ e. ground arith, λ e. m))

  quota-Passes :
      (refusal : Refusal)
      → Passes
          (λ a h. Elem (quota_consumed true) h)
          (emit (quota_consumed (is_granted refusal)) >> quota_result g id caller refusal)
  unfolding quota_result governance_error
  quota-Passes none h = passes (then_event _ refl now) (inl refl)
  quota-Passes (some (b, r)) h =
      answers (then_event _ refl (then_event _ refl (then_event _ refl now)))

  pub governance_gate-Passes :
      Passes (λ a h. GovernanceAllows g caller t h) (governance_gate g id caller t)
  unfolding governance_gate
  governance_gate-Passes h =
      if-Ends (not g.governance.is_enabled) _ _ h (λ off. passes now (λ on. ground arith))
        (λ on.
          bind-Ends _ (by_effect-Passes (policy_of g caller t) (policy_of g caller t).effect h)
            (λ a h' r (kept, approved).
              weaken-Ends
                (quota-Passes
                  (g.governance.quota (g.governance.workspace caller.client_id caller.tenant_id) h')
                  h')
                (λ b h'' s granted. λ on'. (kept, λ e. Later-Elem _ s (approved e), granted))))

  send_webhook-Ends :
      (url : Option Text) (event : Text) → Passes Anything (send_webhook g url event)
  unfolding send_webhook
  send_webhook-Ends none event h = passes now tt
  send_webhook-Ends (some []) event h = passes now tt
  send_webhook-Ends (some (c ∷ s)) event h = passes (then_event _ refl now) tt

  by_action-Passes :
      (decision : GuardrailDecision) (action : FinalAction)
      → Passes
          (λ a h.
            (action ≢ act block)
            × (action ≡ act require_approval → Elem (approval_checked t true) h))
          (by_action g id caller t decision action)
  unfolding by_action
  by_action-Passes decision allow h = passes now (λ e. ground arith, λ e. ground arith)
  by_action-Passes decision (act transform) h = passes now (λ e. ground arith, λ e. ground arith)
  by_action-Passes decision (act block) h = emit-Ends _ refl (
      emit-Ends _ refl
        (bind-Ends _ (send_webhook-Ends decision.webhook _ _) (λ a h' r q. answers now)))
  by_action-Passes decision (act require_approval) h =
      emit-Ends _ refl (
        weaken-Ends (enforce-Passes g id caller t _ _ _ _)
          (λ a h' r m. (λ e. ground arith, λ e. m)))
  by_action-Passes decision (act alert) h = emit-Ends _ refl (
      weaken-Ends (send_webhook-Ends decision.webhook _ _)
        (λ a h' r q. (λ e. ground arith, λ e. ground arith)))

  check_guardrails-Passes :
      (guardrails : Option (GuardrailsConfig N))
      → Passes
          (λ a h.
            (c : GuardrailsConfig N)
            → guardrails ≡ some c
            → c.enabled ≡ true
            → ((inspect g caller t c).action ≢ act block)
              × ((inspect g caller t c).action ≡ act require_approval
                  → Elem (approval_checked t true) h))
          (check_guardrails g id caller t guardrails)
  unfolding check_guardrails
  check_guardrails-Passes none h = passes now (λ c e on. ground arith)
  check_guardrails-Passes (some c) h =
      if-Ends c.enabled _ _ h
        (λ on.
          weaken-Ends (by_action-Passes (inspect g caller t c) (inspect g caller t c).action h)
            (λ a h' r q. λ d e on'.
              subst
                (λ (x : GuardrailsConfig N).
                  ((inspect g caller t x).action ≢ act block)
                  × ((inspect g caller t x).action ≡ act require_approval
                      → Elem (approval_checked t true) h'))
                (some-injective e) q))
        (λ off. passes now (λ d e on.
          false_not_true (sym off ∙ ap GuardrailsConfig.enabled (some-injective e) ∙ on)))

  pub guardrails_gate-Passes :
      Passes (λ a h. GuardrailsAllow g caller t h) (guardrails_gate g id caller t)
  unfolding guardrails_gate
  guardrails_gate-Passes h = check_guardrails-Passes g.config.guardrails h
