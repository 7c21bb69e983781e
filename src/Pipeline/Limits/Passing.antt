-- ===== src/Pipeline/Limits/Passing.antt =====
-- A call goes on only if its limits are granted.
use mcp_conduit.Base.{
  ◌≡◌, inl, inr, refl, Bool, true, false, Option, none, some, Elem, arith, Bool-cases,
}
use mcp_conduit.Base.Json.{Json}
use mcp_conduit.Base.Text.{Text}
use mcp_conduit.Pipeline.{
  Gateway, ◌>>◌, emit, Event, Target, Refusal, client_limits_consumed, server_limits_consumed,
}
use mcp_conduit.Pipeline.Approvals.{Caller}
use mcp_conduit.Pipeline.Limits.{is_granted, limit_result, client_limits_gate, server_limits_gate}
use mcp_conduit.Pipeline.Monitor.{
  now, then_event, passes, answers, is_harmless, weaken-Ends, Passes, ClientLimitsAllow,
  ServerLimitsAllow,
}

module _ {N B K C : Type 0} (g : Gateway N B K C) (id : Option (Json N)) (caller : Caller)
    (t : Target N) where
  -- A limit's answer, for the event that records it.
  limit-Passes :
      (record_answer : Bool → Event N K C)
      (harmless : (b : Bool) → is_harmless (record_answer b) ≡ true)
      (client_id counted_server otherwise : Text) (logs : Bool) (refusal : Refusal)
      → Passes
          (λ a h. Elem (record_answer true) h)
          (emit (record_answer (is_granted refusal))
            >> limit_result g id client_id counted_server otherwise logs refusal)
  unfolding limit_result
  limit-Passes record_answer harmless client_id counted_server otherwise logs none h =
      passes (then_event _ (harmless true) now) (inl refl)
  limit-Passes record_answer harmless client_id counted_server otherwise true (some (b, r)) h =
      answers (then_event _ refl (then_event _ refl (then_event _ (harmless false) now)))
  limit-Passes record_answer harmless client_id counted_server otherwise false (some (b, r)) h =
      answers (then_event _ refl (then_event _ (harmless false) now))

  pub client_limits_gate-Passes :
      (server_id : Text)
      → Passes (λ a h. ClientLimitsAllow g caller h) (client_limits_gate g id caller server_id)
  unfolding client_limits_gate
  client_limits_gate-Passes server_id h = elim (Bool-cases g.config.limits_enabled) [
    | inl on ↦ rw on (
        weaken-Ends
          (limit-Passes (client_limits_consumed caller.client_id) (λ b. refl) caller.client_id
            server_id _ true (g.client_limits caller.client_id h) h)
          (λ a h' r m. λ on'. m))
    | inr off ↦ rw off (passes now (λ on. ground arith))
  ]

  pub server_limits_gate-Passes :
      (logs : Bool)
      → Passes (λ a h. ServerLimitsAllow g caller t h) (server_limits_gate g id caller t logs)
  unfolding server_limits_gate
  server_limits_gate-Passes logs h = elim (Bool-cases g.config.limits_enabled) [
    | inl on ↦ rw on (
        weaken-Ends
          (limit-Passes (server_limits_consumed caller.client_id t.server_id t.tool_name)
            (λ b. refl) caller.client_id t.server_id _ logs
            (g.server_limits caller.client_id t.server_id t.tool_name h) h)
          (λ a h' r m. λ on'. m))
    | inr off ↦ rw off (passes now (λ on. ground arith))
  ]
