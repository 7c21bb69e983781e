-- ===== src/Pipeline/ToolCall/Storing.antt =====
-- The path of a tool call with the cache keeps a history lawful.
use mcp_conduit.Base.{
  ℕ, ◌≡◌, ◌⊎◌, ◌∙◌, ap, inl, inr, refl, Bool, true, false, ◌∷◌, Option, none, some, if◌then◌else◌,
}
use mcp_conduit.Base.Json.{Json}
use mcp_conduit.CachePolicy.{CachePolicyDecision, decide_cache_policy}
use mcp_conduit.JsonRpc.{extract_tool_args}
use mcp_conduit.Pipeline.{
  Gateway, ◌>>◌, emit, pure, History, Target, CoreResult, Thrown, CacheEntry, identity_error,
  rpc_error, other_error, counted, dedup_coalesced, before_cache, after_upstream, before_response,
  l1_read, l2_read,
}
use mcp_conduit.Pipeline.Forwarding.{Call, run_hook, id_in, cache_key, find_config, has_multiplier}
use mcp_conduit.Pipeline.Forwarding.Lawful.{
  Checked, Later-Checked, target_eq, run_hook-Ends, forward_to_upstream-Keeps, caught-Keeps,
}
use mcp_conduit.Pipeline.Limits.Passing.{server_limits_gate-Passes}
use mcp_conduit.Pipeline.Messages.{error_in}
use mcp_conduit.Pipeline.Monitor.{
  Later, now, then_event, Later-trans, ServerLimitsAllow, Lawful, IsKeyOf, the_target, Storable,
  Keeps, goes_on, stops, fails, bind-Keeps, if-Keeps, Ends-Keeps,
}
use mcp_conduit.Pipeline.ToolCall.{
  is_tool_error, look_up, in_l1, in_l2, answer_hit, result_of, fetch, join, deduplicate,
  answer_upstream_error, answer_tool_error, write_through, new_entry, store, finish, use_cache,
}

module _ {N B K C : Type 0} (g : Gateway N B K C) where
  abbrev pub Good : Call N C → History N K C → Type 0
  Good call h = Lawful g call.caller call.message h

  abbrev pub Done : {A : Type 0} → A → History N K C → Type 0
  Done a h = Unit

  -- A policy that was decided for the target of a call.
  abbrev pub IsDecided : Call N C → CachePolicyDecision → Type 0
  IsDecided call policy =
      (find_config g.config.servers call.target.server_id ≡ some call.server)
      × ((h : History N K C) × (policy
            ≡ decide_cache_policy g.inherited call.target.tool_name
                (g.annotations call.target.server_id call.target.tool_name h) call.server.cache))

  -- The key that a call is stored under.
  policy_key-IsKeyOf :
      (call : Call N C) (policy : CachePolicyDecision)
      → call.target.args ≡ extract_tool_args call.message
      → IsDecided call policy
      → IsKeyOf g call.caller call.message
          (cache_key g call.caller call.target policy.ignore_args)
          call.target.server_id
          call.target.tool_name
  policy_key-IsKeyOf call policy args (found, (h, decided)) = (
    call.server,
    h,
    found,
    ap (λ (t : Target N). cache_key g call.caller t policy.ignore_args)
          (target_eq call.target call.target.server_id (extract_tool_args call.message) args refl)
        ∙ ap
            (λ (d : CachePolicyDecision).
              cache_key g call.caller
                (the_target g call.caller call.message call.target.server_id call.target.tool_name)
                d.ignore_args)
            decided,
  )

  abbrev HasKey : Call N C → K → Type 0
  HasKey call key =
      IsKeyOf g call.caller call.message key call.target.server_id call.target.tool_name

  -- While the caches are read, an entry that is found ends the call.
  in_l2-Keeps :
      (call : Call N C) (key : K) (entry : Option (CacheEntry N)) {h0 : History N K C}
      (h : History N K C)
      → HasKey call key
      → g.l2_get key h ≡ entry
      → Later h0 h
      → Good call h
      → Keeps (Good call) (λ a h'. Later h0 h') (in_l2 g call key entry h)
  unfolding in_l2 answer_hit
  in_l2-Keeps call key none h k e r l = goes_on (tt, l) (then_event (l2_read key false) refl r)
  in_l2-Keeps call key (some entry) h k e r l =
      stops (tt, (tt, (inr ((call.target.server_id, call.target.tool_name, k), (h, e)), (tt, l))))

  in_l1-Keeps :
      (call : Call N C) (key : K) (entry : Option (CacheEntry N)) (h : History N K C)
      → HasKey call key
      → Good call h
      → Keeps (Good call) (λ a h'. Later h h') (in_l1 g call key entry h)
  unfolding in_l1 answer_hit
  in_l1-Keeps call key (some entry) h k l = stops (tt, (tt, (tt, l)))
  in_l1-Keeps call key none h k l =
      let missed = then_event (l1_read key false) refl (now {h = h}) in
      if-Keeps (has_multiplier g g.config.l2_ttl_multiplier) _ _ _
        (λ e. in_l2-Keeps call key (g.l2_get key (l1_read key false ∷ h)) _ k refl missed (tt, l))
        (λ e. goes_on (tt, l) missed)

  look_up-Keeps :
      (call : Call N C) (key : K) (h : History N K C)
      → HasKey call key
      → Good call h
      → Keeps (Good call) (λ a h'. Later h h') (look_up g call key h)
  unfolding look_up
  look_up-Keeps call key h k l = in_l1-Keeps call key (g.l1_get key h) h k l

  result_of-Keeps :
      (call : Call N C) (upstream : CoreResult N) (e : Option (Json N)) (h : History N K C)
      → Good call h
      → Keeps (Good call) Done (result_of g upstream e h)
  unfolding result_of
  result_of-Keeps call upstream none h l = goes_on l tt
  result_of-Keeps call upstream (some e) h l = fails l

  fetch-Keeps :
      (call : Call N C) (h : History N K C)
      → Checked g call h
      → ServerLimitsAllow g call.caller call.target h
      → Good call h
      → Keeps (Good call) Done (fetch g call h)
  unfolding fetch
  fetch-Keeps call h c s l =
      bind-Keeps _ (forward_to_upstream-Keeps g call h c s l)
        (λ upstream h' l' p. result_of-Keeps call upstream (error_in g.numbers upstream.body) h' l')

  join-Keeps :
      (call : Call N C) (key : K) (shared : Option (Json N ⊎ Thrown N)) (h : History N K C)
      → Checked g call h
      → ServerLimitsAllow g call.caller call.target h
      → Good call h
      → Keeps (Good call) Done (join g shared call key h)
  unfolding join
  join-Keeps call key (some (inl r)) h c s l = goes_on (tt, l) tt
  join-Keeps call key (some (inr e)) h c s l = fails (tt, l)
  join-Keeps call key none h c s l =
      bind-Keeps _ (fetch-Keeps call h c s l) (λ result h' l' p. goes_on l' tt)

  deduplicate-Keeps :
      (call : Call N C) (key : K) (h : History N K C)
      → Checked g call h
      → ServerLimitsAllow g call.caller call.target h
      → Good call h
      → Keeps (Good call) Done (deduplicate g call key h)
  unfolding deduplicate
  deduplicate-Keeps call key h c s l = join-Keeps call key (g.in_flight key h) h c s l

  answer_upstream_error-Keeps :
      (call : Call N C) (id : Option (Json N)) (e : Thrown N) (h : History N K C)
      → Good call h
      → Keeps (Good call) Done (answer_upstream_error g id e h)
  unfolding answer_upstream_error
  answer_upstream_error-Keeps call id (identity_error m) h l = stops (tt, l)
  answer_upstream_error-Keeps call id (rpc_error c m) h l = stops (tt, l)
  answer_upstream_error-Keeps call id (other_error m) h l = fails l

  write_through-Keeps :
      (call : Call N C) (key : K) (entry : CacheEntry N) (multiplier : Option ℕ) (h : History N K C)
      → Storable g call.caller call.message key entry
      → Good call h
      → Keeps (Good call) Done (write_through g key entry multiplier h)
  unfolding write_through
  write_through-Keeps call key entry none h s l = goes_on l tt
  write_through-Keeps call key entry (some m) h s l = goes_on (s, l) tt

  new_entry-Storable :
      (call : Call N C) (policy : CachePolicyDecision) (result : Json N) (created_at : ℕ)
      → call.target.args ≡ extract_tool_args call.message
      → IsDecided call policy
      → is_tool_error result ≡ false
      → Storable g call.caller call.message
          (cache_key g call.caller call.target policy.ignore_args)
          (new_entry g call policy result created_at)
  unfolding new_entry
  new_entry-Storable call policy result created_at args decided fine =
      (fine, policy_key-IsKeyOf call policy args decided)

  store-Keeps :
      (call : Call N C) (policy : CachePolicyDecision) (result : Json N) (h : History N K C)
      → call.target.args ≡ extract_tool_args call.message
      → IsDecided call policy
      → is_tool_error result ≡ false
      → Good call h
      → Keeps
          (Good call)
          Done
          (store g call policy (cache_key g call.caller call.target policy.ignore_args) result h)
  unfolding store
  store-Keeps call policy result h args decided fine l =
      let s = new_entry-Storable call policy result (g.now h) args decided fine in
      bind-Keeps _
        (write_through-Keeps call (cache_key g call.caller call.target policy.ignore_args)
          (new_entry g call policy result (g.now h)) g.config.l2_ttl_multiplier _ s
          (tt, (inl s, l)))
        (λ a h' l' p.
          bind-Keeps _
            (Ends-Keeps g call.caller call.message (run_hook-Ends g before_response _) (tt, l'))
            (λ b h'' l'' q. goes_on l'' tt))

  answer_tool_error-Keeps :
      (call : Call N C) (result : Json N) (h : History N K C)
      → Good call h
      → Keeps (Good call) Done (answer_tool_error g call result h)
  unfolding answer_tool_error
  answer_tool_error-Keeps call result h l = goes_on (tt, (tt, (tt, l))) tt

  finish-Keeps :
      (call : Call N C) (policy : CachePolicyDecision) (result : Json N) (h : History N K C)
      → call.target.args ≡ extract_tool_args call.message
      → IsDecided call policy
      → Good call h
      → Keeps
          (Good call)
          Done
          (finish g call policy (cache_key g call.caller call.target policy.ignore_args) result h)
  unfolding finish
  finish-Keeps call policy result h args decided l =
      if-Keeps (is_tool_error result) _ _ h (λ failed. answer_tool_error-Keeps call result h l)
        (λ fine. store-Keeps call policy result h args decided fine l)

  -- The steps behind the call of the upstream server.
  ending-Keeps :
      (call : Call N C) (policy : CachePolicyDecision) (was_coalesced : Bool) (result : Json N)
      (h : History N K C)
      → call.target.args ≡ extract_tool_args call.message
      → IsDecided call policy
      → Good call h
      → Keeps (Good call) Done (
          ((if was_coalesced
                then emit (counted (dedup_coalesced call.target.server_id call.target.tool_name))
                else pure tt)
              >> (run_hook g after_upstream
                  >> finish g call policy
                      (cache_key g call.caller call.target policy.ignore_args)
                      result))
            h)
  ending-Keeps call policy true result h args decided l =
      bind-Keeps _
        (Ends-Keeps g call.caller call.message (run_hook-Ends g after_upstream _) (tt, l))
        (λ a h' l' q. finish-Keeps call policy result h' args decided l')
  ending-Keeps call policy false result h args decided l =
      bind-Keeps _ (Ends-Keeps g call.caller call.message (run_hook-Ends g after_upstream h) l)
        (λ a h' l' q. finish-Keeps call policy result h' args decided l')

  pub use_cache-Keeps :
      (call : Call N C) (policy : CachePolicyDecision) (h : History N K C)
      → Checked g call h
      → IsDecided call policy
      → Good call h
      → Keeps
          (Good call)
          Done
          (use_cache g call policy (cache_key g call.caller call.target policy.ignore_args) h)
  unfolding use_cache
  use_cache-Keeps call policy h c decided l =
      let key = cache_key g call.caller call.target policy.ignore_args in
      bind-Keeps _ (Ends-Keeps g call.caller call.message (run_hook-Ends g before_cache h) l)
        (λ a1 h1 l1 (r1, q1).
          bind-Keeps _ (look_up-Keeps call key h1 (policy_key-IsKeyOf call policy c.0 decided) l1)
            (λ a2 h2 l2 r2.
              bind-Keeps _
                (Ends-Keeps g call.caller call.message
                  (server_limits_gate-Passes g (id_in g call.message) call.caller call.target true
                    h2)
                  l2)
                (λ a3 h3 l3 (r3, served).
                  let c3 = Later-Checked g call (Later-trans r1 (Later-trans r2 r3)) c in
                  bind-Keeps _
                    (caught-Keeps g (answer_upstream_error g (id_in g call.message))
                      (deduplicate-Keeps call key h3 c3 served l3)
                      (answer_upstream_error-Keeps call (id_in g call.message)))
                    (λ deduped h4 l4 p4.
                      ending-Keeps call policy deduped.1 deduped.0 h4 c.0 decided l4))))
