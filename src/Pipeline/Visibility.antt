-- ===== src/Pipeline/Visibility.antt =====
-- Which tools a client sees in the answers to `tools/list` of src/gateway/pipeline.ts.
pub mod Answers
use mcp_conduit.Acl.{evaluate_acl}
use mcp_conduit.Base.{
  ◌≡◌, ◌≢◌, ◌↔◌, refl, sym, subst, ap, ◌∙◌, Bool, true, false, not, ◌&&◌, ◌||◌, List, [], ◌∷◌, keep,
  Option, none, some, arith, inl, inr, Bool-cases, Elem, is, map, ℕ_discrete,
}
use mcp_conduit.Base.Text.{Text, text_dec, codes}
use mcp_conduit.Base.Json.{Json, arr, end, entries, of_entries, items, own, assign}
use mcp_conduit.Base.Json.Objects.{own-assign, entries-of_entries}
use mcp_conduit.JsonRpc.{JsonRpcMessage, build_json_rpc_result}
use mcp_conduit.Pipeline.{Gateway, AclConfig}
use mcp_conduit.Pipeline.Approvals.{Caller}
use mcp_conduit.Pipeline.Resolution.{has_server}
use mcp_conduit.Pipeline.Monitor.{AclAllows}
use mcp_conduit.Pipeline.ToolsList.{
  Listed, is_visible, allowed_by, aggregate, aggregated_body, renamed, filtered_body, with_tools,
  tools_in, property_in, visible_tools, listed_tools, name_of, of_items,
}

true_not_false : true ≢ false
true_not_false e = ground arith

some-injective : {A : Type 0} {x y : A} → some x ≡ some y → x ≡ y
some-injective e = ground arith

keep_iff :
    {A : Type 0} (p : A → Bool) (xs : List A) (x : A)
    → Elem x (keep p xs) ↔ (Elem x xs × (p x ≡ true))
keep_iff p [] x = (λ m. absurd m, λ (m, e). absurd m)
keep_iff p (y ∷ ys) x = elim (Bool-cases (p y)) [
  | inl kept ↦ rw kept (
    λ m. elim m [
      | inl same ↦ (inl same, ap p same ∙ kept)
      | inr later ↦ let (there, e) = (keep_iff p ys x).0 later in (inr there, e)
    ],
    λ (m, e). elim m [ inl same ↦ inl same | inr later ↦ inr ((keep_iff p ys x).1 (later, e)) ],
  )
  | inr dropped ↦ rw dropped (
    λ m. let (there, e) = (keep_iff p ys x).0 m in (inr there, e),
    λ (m, e). elim m [
      | inl same ↦ absurd (true_not_false (sym e ∙ ap p same ∙ dropped))
      | inr later ↦ (keep_iff p ys x).1 (later, e)
    ],
  )
]

both_filters : (a b c : Bool) → ((a && (not b || c)) ≡ true) ↔ ((a ≡ true) × (b ≡ true → c ≡ true))
both_filters true true c = (λ h. (refl, λ on. h), λ (p, q). q refl)
both_filters true false c = (λ h. (refl, λ on. absurd (true_not_false (sym on))), λ p. refl)
both_filters false b c =
    (λ h. absurd (true_not_false (sym h)), λ (p, q). absurd (true_not_false (sym p)))

items-of_items : {N : Type 0} (vs : List (Json N)) → items (of_items vs) ≡ vs
items-of_items [] = refl
items-of_items (v ∷ vs) = ap (λ l. v ∷ l) (items-of_items vs)

own_assigned :
    {N : Type 0} (k : Text) (v : Json N) (es : List (Text × Json N))
    → is (text_dec k (codes "__proto__")) ≡ false
    → own k (entries (of_entries (assign k v es))) ≡ some v
own_assigned k v es plain =
    ap (own k) (entries-of_entries (assign k v es)) ∙ own-assign k v es plain

module _ {N B K C : Type 0} (g : Gateway N B K C) (caller : Caller) where
  -- The aggregated list has exactly the tools that the router lists, of the servers of the profile if one
  -- is asked for, and that the access control and the workspace let the client see.
  aggregate_iff :
      (servers : Option (List Text)) (tools : List (Listed N)) (tool : Listed N)
      → Elem tool (aggregate g caller servers tools) ↔ (
          Elem tool tools
          × (has_server g tool.server_id servers ≡ true)
          × (is_visible g caller tool.server_id tool.tool_name ≡ true))
  unfolding aggregate
  aggregate_iff servers tools tool = (
    λ m.
        let (there, seen) =
          (keep_iff (λ t. is_visible g caller t.server_id t.tool_name)
              (keep (λ t. has_server g t.server_id servers) tools) tool).0
            m in
        let (listed, served) =
          (keep_iff (λ t. has_server g t.server_id servers) tools tool).0 there in
        (listed, served, seen),
    λ (listed, served, seen).
        (keep_iff (λ t. is_visible g caller t.server_id t.tool_name)
            (keep (λ t. has_server g t.server_id servers) tools) tool).1
          ((keep_iff (λ t. has_server g t.server_id servers) tools tool).1 (listed, served), seen),
  )

  allowed_iff :
      (server_id tool_name : Text) (acl : Option AclConfig)
      → (allowed_by g caller.client_id server_id tool_name acl ≡ true) ↔ (
          (c : AclConfig)
          → acl ≡ some c
          → c.enabled ≡ true
          → (evaluate_acl caller.client_id server_id tool_name c.policies c.default_action).allowed
            ≡ true)
  allowed_iff server_id tool_name none = (λ h c e on. ground arith, λ h. refl)
  allowed_iff server_id tool_name (some acl) = (
    λ h c e.
        subst
          (λ (x : AclConfig).
            x.enabled ≡ true
            → (evaluate_acl caller.client_id server_id tool_name x.policies
                x.default_action).allowed
              ≡ true)
          (some-injective e) (λ on. ground (arith, h, on)),
    λ h. elim (Bool-cases acl.enabled) [
      | inl on ↦ ground (arith, h acl refl on)
      | inr off ↦ ground (arith, off)
    ],
  )

  -- The access control lets the client call the tool, and a workspace's governance lets it see it, each
  -- where it is enabled.
  abbrev pub MaySee : Text → Text → Type 0
  MaySee server_id tool_name =
      AclAllows g caller (record { server_id = server_id; tool_name = tool_name; args = end })
      × (g.governance.is_enabled ≡ true
          → g.governance.can_view caller.client_id caller.tenant_id server_id tool_name ≡ true)

  is_visible_iff :
      (server_id tool_name : Text)
      → (is_visible g caller server_id tool_name ≡ true) ↔ MaySee server_id tool_name
  unfolding is_visible
  is_visible_iff server_id tool_name =
      let shown =
        both_filters (allowed_by g caller.client_id server_id tool_name g.config.acl)
          g.governance.is_enabled
          (g.governance.can_view caller.client_id caller.tenant_id server_id tool_name) in
      let acl = allowed_iff server_id tool_name g.config.acl in
      (λ h. let (a, v) = shown.0 h in (acl.0 a, v), λ (a, v). shown.1 (acl.1 a, v))

  listed-with_tools :
      (body : Json N) (tools : List (Json N))
      → listed_tools g (with_tools g body tools) ≡ some tools
  unfolding listed_tools with_tools tools_in property_in text_dec ℕ_discrete
  listed-with_tools body tools =
      ap (λ (o : Option (Json N)). tools_in g (property_in g (codes "tools") o))
        (own_assigned (codes "result") _ _ refl)
      ∙ ap (tools_in g) (own_assigned (codes "tools") (arr (of_items tools)) _ refl)
      ∙ ap some (items-of_items tools)

  listed-aggregated_body :
      (message : JsonRpcMessage N) (servers : Option (List Text)) (tools : List (Listed N))
      → listed_tools g (aggregated_body g message caller servers tools)
        ≡ some (map (renamed g) (aggregate g caller servers tools))
  unfolding listed_tools aggregated_body tools_in property_in build_json_rpc_result own text_dec
      ℕ_discrete
  listed-aggregated_body message servers tools =
      ap some (items-of_items (map (renamed g) (aggregate g caller servers tools)))

  filtered_body-found :
      (server_id : Text) (body : Json N) (found : Option (List (Json N))) (tools : List (Json N))
      → found ≡ some tools
      → listed_tools g (filtered_body g caller server_id body found)
        ≡ some (visible_tools g caller server_id tools)
  unfolding filtered_body
  filtered_body-found server_id body none tools e = ground arith
  filtered_body-found server_id body (some found) tools e =
      listed-with_tools body (visible_tools g caller server_id found)
      ∙ ap (λ l. some (visible_tools g caller server_id l)) (some-injective e)

  visible_tools_iff :
      (server_id : Text) (tools : List (Json N)) (tool : Json N)
      → Elem tool (visible_tools g caller server_id tools)
        ↔ (Elem tool tools × MaySee server_id (name_of tool))
  unfolding visible_tools
  visible_tools_iff server_id tools tool =
      let kept = keep_iff (λ t. is_visible g caller server_id (name_of t)) tools tool in
      let seen = is_visible_iff server_id (name_of tool) in
      (
        λ m. let (there, e) = kept.0 m in (there, seen.0 e),
        λ (there, may). kept.1 (there, seen.1 may),
      )

  -- Of the tools that a server answers to `tools/list`, the answer to the client lists those that the
  -- access control lets it call and a workspace's governance lets it see, each where it is enabled, and
  -- no others. The same holds of the tools of all servers, or of the servers of a profile, which are
  -- listed under their names for clients.
  pub tools_list-MaySee :
      (server_id : Text) (body : Json N) (tools : List (Json N)) (message : JsonRpcMessage N)
      (servers : Option (List Text)) (listed : List (Listed N))
      → listed_tools g body ≡ some tools
      → ((shown : List (Json N)) × (listed_tools g
              (filtered_body g caller server_id body (listed_tools g body))
            ≡ some shown)
          × ((tool : Json N)
              → Elem tool shown ↔ (Elem tool tools × MaySee server_id (name_of tool))))
        × ((shown : List (Listed N)) × (listed_tools g
                (aggregated_body g message caller servers listed)
              ≡ some (map (renamed g) shown))
            × ((tool : Listed N)
                → Elem tool shown ↔ (
                    Elem tool listed
                    × (has_server g tool.server_id servers ≡ true)
                    × MaySee tool.server_id tool.tool_name)))
  tools_list-MaySee server_id body tools message servers listed e = (
    (
      visible_tools g caller server_id tools,
      filtered_body-found server_id body (listed_tools g body) tools e,
      visible_tools_iff server_id tools,
    ),
    (
      aggregate g caller servers listed,
      listed-aggregated_body message servers listed,
      λ tool.
          let kept = aggregate_iff servers listed tool in
          let seen = is_visible_iff tool.server_id tool.tool_name in
          (
            λ m. let (there, served, v) = kept.0 m in (there, served, seen.0 v),
            λ (there, served, may). kept.1 (there, served, seen.1 may),
          ),
    ),
  )
