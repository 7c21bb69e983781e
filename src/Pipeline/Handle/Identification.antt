-- ===== src/Pipeline/Handle/Identification.antt =====
-- A request that is not authenticated goes no further.
use mcp_conduit.Base.{◌≡◌, refl, sym, subst, List, [], Option, some}
use mcp_conduit.Base.Json.{Json}
use mcp_conduit.Base.Text.{Text}
use mcp_conduit.JsonRpc.{JsonRpcMessage}
use mcp_conduit.Pipeline.{
  Gateway, History, RequestContext, AuthMethod, AuthResult, rejected, before_request,
}
use mcp_conduit.Pipeline.Forwarding.{id_in}
use mcp_conduit.Pipeline.Forwarding.Lawful.{run_hook-Ends}
use mcp_conduit.Pipeline.Handle.{handle, identify, auth_result}
use mcp_conduit.Pipeline.Monitor.{
  now, then_event, Later-Quiet, Ends, answers, Passes, bind-Ends, Ends-Later, Quiet,
}
use mcp_conduit.Pipeline.ToolsList.{Listed}

module _ {N B K C : Type 0} (g : Gateway N B K C)
    (aggregated : History N K C → List (Listed N)) where
  identify-Ends :
      (id : Option (Json N)) (context : RequestContext) (method : AuthMethod) (reason : Text)
      → ((h : History N K C) → g.authenticate context h ≡ rejected reason)
      → Passes (λ a h. ⊥) (identify g aggregated id context (some method))
  unfolding identify auth_result
  identify-Ends id context method reason wrong h =
      subst (λ (r : AuthResult). Ends (λ a h. ⊥) h (auth_result g aggregated id context r h))
        (sym (wrong h)) (answers (then_event _ refl (then_event _ refl now)))

  -- Where authentication is configured and refuses a request, the request reaches no upstream server and
  -- finds no entry of a cache.
  pub handle-unauthenticated :
      (message : JsonRpcMessage N) (context : RequestContext) (server_id : Text)
      (method : AuthMethod) (reason : Text)
      → g.config.auth ≡ some method
      → ((h : History N K C) → g.authenticate context h ≡ rejected reason)
      → Quiet (handle g aggregated message context server_id []).1
  unfolding handle
  handle-unauthenticated message context server_id method reason auth wrong =
      Later-Quiet
        (Ends-Later (
          bind-Ends {R = λ a h. Unit {0}} _ (run_hook-Ends g before_request []) (λ a h r q.
            bind-Ends _
              (subst
                (λ (m : Option AuthMethod).
                  Ends (λ c h'. ⊥) h (identify g aggregated (id_in g message) context m h))
                (sym auth) (identify-Ends (id_in g message) context method reason wrong h))
              (λ caller h' r' impossible. absurd impossible))))
        tt
