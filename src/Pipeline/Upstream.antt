-- ===== src/Pipeline/Upstream.antt =====
-- What a tool call does at upstream servers and in the caches.
use mcp_conduit.Base.{◌≡◌, ◌⊎◌, sym, subst, inl, inr, refl, List, [], ◌∷◌, Elem, arith, ℕ, suc, ◌≤◌}
use mcp_conduit.Base.Text.{Text}
use mcp_conduit.JsonRpc.{JsonRpcMessage}
use mcp_conduit.Pipeline.{Gateway, Event, History, Target, forwarded, l1_written, l2_written}
use mcp_conduit.Pipeline.Approvals.{Caller}
use mcp_conduit.Pipeline.Messages.{build_forward_message}
use mcp_conduit.Pipeline.Monitor.{Permits, May, Lawful, Quiet, Storable, Copied, the_target}
use mcp_conduit.Pipeline.ToolCall.{handle_tool_call}
use mcp_conduit.Pipeline.ToolCall.Lawful.{handle_tool_call-Lawful}

module _ {N B K C : Type 0} (g : Gateway N B K C) (caller : Caller)
    (message : JsonRpcMessage N) where
  -- An event of a lawful history, with what went before.
  Lawful-May :
      (e : Event N K C) (h : History N K C)
      → Elem e h
      → Lawful g caller message h
      → (before : History N K C) × ((d : Event N K C) → Elem d before → Elem d h)
        × May g caller message e before
  Lawful-May e [] m l = absurd m
  Lawful-May e (d ∷ h) (inl same) (may, l) =
      (h, λ x m. inr m, subst (λ (x : Event N K C). May g caller message x h) (sym same) may)
  Lawful-May e (d ∷ h) (inr later) (may, l) =
      let (before, all_in, may_e) = Lawful-May e h later l in
      (before, λ x m. inr (all_in x m), may_e)

  -- How many calls of upstream servers there are.
  pub forwards : History N K C → ℕ
  forwards [] = 0
  forwards (forwarded c s m x ∷ h) = suc (forwards h)
  forwards (e ∷ h) = forwards h

  Quiet-forwards : (h : History N K C) → Quiet h → forwards h ≡ 0
  unfolding forwards
  Quiet-forwards [] q = refl
  Quiet-forwards (forwarded c s m x ∷ h) (q, qs) = ground arith
  Quiet-forwards (e ∷ h) (q, qs) = Quiet-forwards h qs

  Lawful-forwards : (h : History N K C) → Lawful g caller message h → forwards h ≤ 1
  unfolding forwards
  Lawful-forwards [] l = omega arith
  Lawful-forwards (forwarded c s m x ∷ h) ((tool, e, p, q), l) = omega (arith, Quiet-forwards h q)
  Lawful-forwards (e ∷ h) (may, l) = Lawful-forwards h l

  Permits-later :
      (t : Target N) (before h : History N K C)
      → ((e : Event N K C) → Elem e before → Elem e h)
      → Permits g caller t before
      → Permits g caller t h
  Permits-later t before h all_in (acl, governed, guarded, limited, served) = (
    acl,
    λ on.
        let (kept, approved, granted) = governed on in
        (kept, λ e. all_in _ (approved e), all_in _ granted),
    λ c e on. let (free, approved) = guarded c e on in (free, λ e'. all_in _ (approved e')),
    λ on. all_in _ (limited on),
    λ on. all_in _ (served on),
  )

  -- If a tool call reaches an upstream server, then it is the request's message under the tool's own name,
  -- the access control allows that tool of that server, the workspace's policy does not deny it, the
  -- guardrails do not block it, an approval was verified for it if one of the two requires that, and the
  -- workspace's quota and the limits of the client and of the server were granted, each where it is
  -- enabled.
  pub handle_tool_call-Permits :
      (server_id : Text) (client : C) (upstream : Text) (sent : JsonRpcMessage N)
      (extra : List (Text × Text))
      → Elem
          (forwarded client upstream sent extra)
          (handle_tool_call g message caller server_id []).1
      → (tool_name : Text) × (sent ≡ build_forward_message g.numbers message tool_name)
        × Permits g caller
            (the_target g caller message upstream tool_name)
            (handle_tool_call g message caller server_id []).1
  handle_tool_call-Permits server_id client upstream sent extra m =
      let (before, all_in, (tool, e, p, q)) =
        Lawful-May (forwarded client upstream sent extra) _ m
          (handle_tool_call-Lawful g message caller server_id) in
      (tool, e, Permits-later (the_target g caller message upstream tool) before _ all_in p)

  -- A tool call reaches an upstream server at most once.
  pub handle_tool_call-forwards :
      (server_id : Text) → forwards (handle_tool_call g message caller server_id []).1 ≤ 1
  handle_tool_call-forwards server_id =
      Lawful-forwards _ (handle_tool_call-Lawful g message caller server_id)

  -- What may be written to the caches.
  abbrev pub IsRightWrite : Event N K C → Type 0
  IsRightWrite (l1_written key entry) =
      Storable g caller message key entry ⊎ Copied g caller message key entry
  IsRightWrite (l2_written key entry ttl) = Storable g caller message key entry
  IsRightWrite e = Unit

  May-IsRightWrite :
      (e : Event N K C) (h : History N K C) → May g caller message e h → IsRightWrite e
  May-IsRightWrite (l1_written key entry) h may = may
  May-IsRightWrite (l2_written key entry ttl) h may = may
  May-IsRightWrite e h may = tt

  -- Whatever a tool call writes to the second cache, or to the first, is no error of the tool, and its key
  -- is that of the entry's server and tool, of the call's arguments without those that the server's cache
  -- policy for the tool leaves out, and of the caller; or it is written to the first cache, and is what
  -- the second cache has under the same key, a key of that kind for a tool of a configured server.
  pub handle_tool_call-Storable :
      (server_id : Text) (e : Event N K C)
      → Elem e (handle_tool_call g message caller server_id []).1
      → IsRightWrite e
  handle_tool_call-Storable server_id e m =
      let (before, all_in, may) =
        Lawful-May e _ m (handle_tool_call-Lawful g message caller server_id) in
      May-IsRightWrite e before may
