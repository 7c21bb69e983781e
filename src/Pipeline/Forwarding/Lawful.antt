-- ===== src/Pipeline/Forwarding/Lawful.antt =====
-- Calls of upstream servers keep a history lawful where the call is permitted.
use mcp_conduit.Base.{
  ◌≡◌, ◌⊎◌, subst, inl, inr, refl, false, List, [], ◌∷◌, Option, none, some, arith,
}
use mcp_conduit.Base.Json.{Json, Fields}
use mcp_conduit.Base.Text.{Text}
use mcp_conduit.JsonRpc.{extract_tool_args}
use mcp_conduit.Pipeline.{
  Gateway, Step, History, Target, Outcome, CoreResult, Thrown, UpstreamResponse, HookName,
  identity_error, rpc_error, other_error, forwarded, l1_deleted, ServerConfig,
}
use mcp_conduit.Pipeline.Forwarding.{
  Call, find_config, run_hook, hook_result, forward_to_upstream, passthrough_to_server, send,
  response, count_error, caught, answer_identity, skip_result, bypass_cache, invalidate, delete_l2,
  has_multiplier, build_extra_headers,
}
use mcp_conduit.Pipeline.Approvals.{Caller}
use mcp_conduit.Pipeline.Limits.Passing.{server_limits_gate-Passes}
use mcp_conduit.Pipeline.Messages.{build_forward_message}
use mcp_conduit.Pipeline.Monitor.{
  Later, now, then_event, Later-trans, Later-Elem, Later-Quiet, passes, answers, Passes, Anything,
  bind-Ends, emit-Ends, if-Ends, AclAllows, GovernanceAllows, GuardrailsAllow, ClientLimitsAllow,
  ServerLimitsAllow, Permits, Quiet, Lawful, Keeps, goes_on, stops, fails, bind-Keeps, if-Keeps,
  Ends-Keeps,
}

pub find_config-id :
    (servers : List ServerConfig) (server_id : Text) (s : ServerConfig)
    → find_config servers server_id ≡ some s
    → s.id ≡ server_id
find_config-id [] server_id s h = ground arith
find_config-id (c ∷ cs) server_id s h = ground (arith, find_config-id cs server_id s)

pub target_eq :
    {N : Type 0} (t : Target N) (server_id : Text) (args : Fields N)
    → t.args ≡ args
    → server_id ≡ t.server_id
    → t ≡ record { server_id = server_id; tool_name = t.tool_name; args = args }
target_eq t server_id args e s = ground arith

module _ {N B K C : Type 0} (g : Gateway N B K C) where
  -- All that the checks before the choice of the cache establish.
  abbrev pub Checked : Call N C → History N K C → Type 0
  Checked call h =
      (call.target.args ≡ extract_tool_args call.message)
      × (call.server.id ≡ call.target.server_id)
      × AclAllows g call.caller call.target
      × GovernanceAllows g call.caller call.target h
      × GuardrailsAllow g call.caller call.target h
      × ClientLimitsAllow g call.caller h
      × Quiet h

  module _ (caller : Caller) (t : Target N) {h h' : History N K C} (r : Later h h') where
    pub GovernanceAllows-Later : GovernanceAllows g caller t h → GovernanceAllows g caller t h'
    GovernanceAllows-Later governed on =
        let (kept, approved, granted) = governed on in
        (kept, λ e. Later-Elem _ r (approved e), Later-Elem _ r granted)

    pub GuardrailsAllow-Later : GuardrailsAllow g caller t h → GuardrailsAllow g caller t h'
    GuardrailsAllow-Later guarded c e on =
        let (free, approved) = guarded c e on in (free, λ e'. Later-Elem _ r (approved e'))

  pub ClientLimitsAllow-Later :
      (caller : Caller) {h h' : History N K C}
      → Later h h'
      → ClientLimitsAllow g caller h
      → ClientLimitsAllow g caller h'
  ClientLimitsAllow-Later caller r limited on = Later-Elem _ r (limited on)

  pub Later-Checked :
      (call : Call N C) {h h' : History N K C} → Later h h' → Checked call h → Checked call h'
  Later-Checked call r (args, same, acl, governed, guarded, limited, quiet) = (
    args,
    same,
    acl,
    GovernanceAllows-Later call.caller call.target r governed,
    GuardrailsAllow-Later call.caller call.target r guarded,
    ClientLimitsAllow-Later call.caller r limited,
    Later-Quiet r quiet,
  )

  hook_result-Ends : (r : Option (CoreResult N)) → Passes Anything (hook_result g r)
  unfolding hook_result
  hook_result-Ends none h = passes now tt
  hook_result-Ends (some r) h = answers now

  pub run_hook-Ends : (name : HookName) → Passes Anything (run_hook g name)
  unfolding run_hook
  run_hook-Ends name h = emit-Ends _ refl (hook_result-Ends (g.hook name h) _)

  delete_l2-Ends : (tool server_id : Text) → Passes Anything (delete_l2 g tool server_id)
  unfolding delete_l2
  delete_l2-Ends tool server_id h =
      if-Ends (has_multiplier g g.config.l2_ttl_multiplier) _ _ h
        (λ e. passes (then_event _ refl now) tt) (λ e. passes now tt)

  pub invalidate-Ends :
      (server_id : Text) (tools : List Text) → Passes Anything (invalidate g server_id tools)
  unfolding invalidate
  invalidate-Ends server_id [] h = passes now tt
  invalidate-Ends server_id (tool ∷ tools) h = emit-Ends (l1_deleted tool server_id) refl (
      bind-Ends _ (delete_l2-Ends tool server_id _)
        (λ a h' r q. invalidate-Ends server_id tools h'))

  abbrev Good : Call N C → History N K C → Type 0
  Good call h = Lawful g call.caller call.message h

  response-Keeps :
      (call : Call N C) (r : UpstreamResponse N ⊎ Thrown N) (h : History N K C)
      → Good call h
      → Keeps (Good call) (λ a h'. Unit) (response g r h)
  unfolding response
  response-Keeps call (inl r) h l = if-Keeps r.streams _ _ h (λ e. goes_on l tt) (λ e. goes_on l tt)
  response-Keeps call (inr e) h l = fails l

  -- The call of the upstream server is permitted at this time.
  forwarded-Good :
      (call : Call N C) (h : History N K C) (extra : List (Text × Text))
      → Checked call h
      → ServerLimitsAllow g call.caller call.target h
      → Good call h
      → Good call (
          forwarded call.client call.server.id
            (build_forward_message g.numbers call.message call.target.tool_name)
            extra
          ∷ h)
  forwarded-Good call h extra (args, same, acl, governed, guarded, limited, quiet) served l = (
    (
      call.target.tool_name,
      refl,
      subst (λ (t : Target N). Permits g call.caller t h)
          (target_eq call.target call.server.id (extract_tool_args call.message) args same)
          (acl, governed, guarded, limited, served),
      quiet,
    ),
    l,
  )

  send-Keeps :
      (call : Call N C) (headers : Thrown N ⊎ List (Text × Text)) (h : History N K C)
      → Checked call h
      → ServerLimitsAllow g call.caller call.target h
      → Good call h
      → Keeps
          (Good call)
          (λ a h'. Unit)
          (send g call
            (build_forward_message g.numbers call.message call.target.tool_name)
            headers
            h)
  unfolding send
  send-Keeps call (inl e) h c s l = fails l
  send-Keeps call (inr extra) h c s l = response-Keeps call _ _ (forwarded-Good call h extra c s l)

  count_error-Keeps :
      (call : Call N C) (server_id : Text) {o : Outcome N (CoreResult N) × History N K C}
      → Keeps (Good call) (λ a h'. Unit) o
      → Keeps (Good call) (λ a h'. Unit) (count_error g server_id o)
  unfolding count_error
  count_error-Keeps call server_id (goes_on r p) = goes_on r p
  count_error-Keeps call server_id (stops r) = stops r
  count_error-Keeps call server_id (fails r) = fails (tt, r)

  pub forward_to_upstream-Keeps :
      (call : Call N C) (h : History N K C)
      → Checked call h
      → ServerLimitsAllow g call.caller call.target h
      → Good call h
      → Keeps
          (Good call)
          (λ a h'. Unit)
          (forward_to_upstream g call
            (build_forward_message g.numbers call.message call.target.tool_name)
            h)
  unfolding forward_to_upstream passthrough_to_server
  forward_to_upstream-Keeps call h c s l =
      count_error-Keeps call call.server.id
        (send-Keeps call (build_extra_headers g call.caller call.server) h c s l)

  pub caught-Keeps :
      {A : Type 0} {R : History N K C → Type 0} {o : Outcome N A × History N K C}
      (f : Thrown N → Step N K C A)
      → Keeps R (λ a h'. Unit) o
      → ((e : Thrown N) (h : History N K C) → R h → Keeps R (λ a h'. Unit) (f e h))
      → Keeps R (λ a h'. Unit) (caught g o f)
  unfolding caught
  caught-Keeps f (goes_on r p) k = goes_on r p
  caught-Keeps f (stops r) k = stops r
  caught-Keeps f (fails {e} {h} r) k = k e h r

  answer_identity-Keeps :
      (call : Call N C) (id : Option (Json N)) (e : Thrown N) (h : History N K C)
      → Good call h
      → Keeps (Good call) (λ a h'. Unit) (answer_identity g id e h)
  unfolding answer_identity
  answer_identity-Keeps call id (identity_error m) h l = stops (tt, l)
  answer_identity-Keeps call id (rpc_error c m) h l = fails l
  answer_identity-Keeps call id (other_error m) h l = fails l

  skip_result-Keeps :
      (call : Call N C) (r : CoreResult N) (h : History N K C)
      → Good call h
      → Keeps (Good call) (λ a h'. Unit) (skip_result g r h)
  unfolding skip_result
  skip_result-Keeps call r h l =
      if-Keeps r.is_stream _ _ h (λ e. goes_on (tt, l) tt) (λ e. goes_on (tt, l) tt)

  pub bypass_cache-Keeps :
      (call : Call N C) (h : History N K C)
      → Checked call h
      → Good call h
      → Keeps (Good call) (λ a h'. Unit) (bypass_cache g call h)
  unfolding bypass_cache
  bypass_cache-Keeps call h c l =
      bind-Keeps _
        (Ends-Keeps g call.caller call.message
          (server_limits_gate-Passes g _ call.caller call.target false _) (tt, (tt, l)))
        (λ a h1 l1 (r1, served).
          bind-Keeps _
            (caught-Keeps _
              (forward_to_upstream-Keeps call h1
                (Later-Checked call (Later-trans (then_event _ refl (then_event _ refl now)) r1) c)
                served l1)
              (answer_identity-Keeps call _))
            (λ result h2 l2 p. skip_result-Keeps call result h2 l2))
