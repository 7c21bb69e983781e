-- ===== src/Pipeline/Resolution/Passing.antt =====
-- The resolution of a tool call adds harmless events only.
use mcp_conduit.Base.{◌≡◌, refl, List, ◌∷◌, Option, none, some}
use mcp_conduit.Base.Json.{Json, Fields}
use mcp_conduit.Base.Text.{Text}
use mcp_conduit.Pipeline.{Gateway, tool_resolved}
use mcp_conduit.Pipeline.Resolution.{
  resolve_target, profile_server_ids, in_profile, direct_client, resolve_call, routed_target,
  has_server, profile_of,
}
use mcp_conduit.Pipeline.Monitor.{
  now, then_event, passes, answers, throws, if-Ends, Passes, Anything, bind-Ends,
}

module _ {N B K C : Type 0} (g : Gateway N B K C) where
  in_profile-Ends : (ids : Option (List Text)) → Passes Anything (in_profile g ids)
  unfolding in_profile
  in_profile-Ends none h = throws now
  in_profile-Ends (some ids) h = passes now tt

  profile_server_ids-Ends : (profile : Option Text) → Passes Anything (profile_server_ids g profile)
  unfolding profile_server_ids
  profile_server_ids-Ends none h = passes now tt
  profile_server_ids-Ends (some p) h = in_profile-Ends (g.profile_servers p) h

  direct_client-Ends :
      (servers : Option (List Text)) (server_id : Text)
      → Passes Anything (direct_client g servers server_id)
  unfolding direct_client
  direct_client-Ends none server_id h = passes (then_event _ refl now) tt
  direct_client-Ends (some ids) server_id h = passes now tt

  module _ (server_id tool_name : Text) (args : Fields N) where
    routed-args :
        (call : Option (Text × Text × C))
        → (routed_target g server_id tool_name args call).target.args ≡ args
    routed-args none = refl
    routed-args (some (s, t, c)) = refl

    resolve_call-Passes :
        (direct : Option C)
        → Passes (λ r h. r.target.args ≡ args) (resolve_call g server_id tool_name args direct)
    unfolding resolve_call
    resolve_call-Passes (some c) h = passes now refl
    resolve_call-Passes none h =
        passes (then_event _ refl now)
          (routed-args (g.resolve_tool_call tool_name (tool_resolved tool_name ∷ h)))

    -- The arguments of the call go along.
    pub resolve_target-Passes :
        (id : Option (Json N))
        → Passes (λ r h. r.target.args ≡ args) (resolve_target g id server_id tool_name args)
    unfolding resolve_target
    resolve_target-Passes id h =
        bind-Ends _ (profile_server_ids-Ends (profile_of server_id) h) (λ servers h1 r1 q1.
          bind-Ends _ (direct_client-Ends servers server_id h1) (λ direct h2 r2 q2.
            bind-Ends _ (resolve_call-Passes direct h2) (λ resolved h3 r3 same.
              if-Ends (has_server g resolved.target.server_id servers) _ _ h3
                (λ there. passes now same) (λ missing. answers now))))
