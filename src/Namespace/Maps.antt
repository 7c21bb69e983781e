-- ===== src/Namespace/Maps.antt =====
-- The map from final names to tools.
use mcp_conduit.Base.{
  ◌≤◌, ◌<◌, ◌≡◌, refl, ap, ◌∙◌, sym, subst, ◌≢◌, ◌⊎◌, inl, inr, List, [], ◌∷◌, none, some, arith,
  All, Option-cases, Elem, ite,
}
use mcp_conduit.Base.JsMap
use mcp_conduit.Base.JsMap.{get-put, get-nil, Distinct, put-Distinct, Fresh}
use mcp_conduit.Base.Text.{Text, text_dec}
use mcp_conduit.Namespace.{
  prefix, no_prefix, Target, apply_namespace, detect_conflicts, put_tool, add_tools, add_servers,
  built, conflicts, build_namespace_map, resolve_tool,
}
use mcp_conduit.Namespace.Conflicts.{Listed, occurrences, occurrences_in, detect_conflicts_iff}
use mcp_conduit.Namespace.Prefixes.{DotFree, apply-injective}

-- The loops of `buildNamespaceMap`, over the name that a tool of a server goes by.
module _ (name : Text → Text → Text) where
  get-put_tool :
      (n s tool : Text) (result : List (Text × Target))
      → JsMap.get text_dec n (put_tool name s tool result)
        ≡ ite
            (text_dec n (name s tool))
            (some (record { server_id = s; tool_name = tool }))
            (JsMap.get text_dec n result)
  get-put_tool n s tool result =
      get-put text_dec n (name s tool) (record { server_id = s; tool_name = tool }) result

  -- An entry goes by its own name and is listed, or was there before.
  abbrev IsFrom : List (Text × Target) → (Text → Text → Type 0) → List (Text × Target) → Type 0
  IsFrom before listed result =
      (n : Text) (t : Target)
      → JsMap.get text_dec n result ≡ some t
      → (JsMap.get text_dec n before ≡ some t)
        ⊎ ((n ≡ name t.server_id t.tool_name) × listed t.server_id t.tool_name)

  add_tools-IsFrom :
      (s : Text) (result : List (Text × Target)) (tools : List Text)
      → IsFrom result (λ u t. (u ≡ s) × Elem t tools) (add_tools name s result tools)
  unfolding add_tools
  add_tools-IsFrom s result [] n t e = inl e
  add_tools-IsFrom s result (tool ∷ tools) n t e = ground (
    arith,
    add_tools-IsFrom s (put_tool name s tool result) tools n t e,
    get-put_tool n s tool result,
  )

  add_servers-IsFrom :
      (result : List (Text × Target)) (tbs : List (Text × List Text))
      → IsFrom result (λ u t. Listed u t tbs) (add_servers name result tbs)
  unfolding add_servers
  add_servers-IsFrom result [] n t e = inl e
  add_servers-IsFrom result ((s, tools) ∷ rest) n t e = ground (
    arith,
    add_servers-IsFrom (add_tools name s result tools) rest n t e,
    add_tools-IsFrom s result tools n t,
  )

  -- A name that is in the map stays there.
  add_tools-keeps :
      (n s : Text) (result : List (Text × Target)) (tools : List Text)
      → JsMap.get text_dec n result ≢ none
      → JsMap.get text_dec n (add_tools name s result tools) ≢ none
  unfolding add_tools
  add_tools-keeps n s result [] h = h
  add_tools-keeps n s result (tool ∷ tools) h =
      add_tools-keeps n s (put_tool name s tool result) tools
        (λ e. h (ground (arith, get-put_tool n s tool result)))

  add_servers-keeps :
      (n : Text) (result : List (Text × Target)) (tbs : List (Text × List Text))
      → JsMap.get text_dec n result ≢ none
      → JsMap.get text_dec n (add_servers name result tbs) ≢ none
  unfolding add_servers
  add_servers-keeps n result [] h = h
  add_servers-keeps n result ((s, tools) ∷ rest) h =
      add_servers-keeps n (add_tools name s result tools) rest (add_tools-keeps n s result tools h)

  add_tools-Elem :
      (s t : Text) (result : List (Text × Target)) (tools : List Text)
      → Elem t tools
      → JsMap.get text_dec (name s t) (add_tools name s result tools) ≢ none
  unfolding add_tools
  add_tools-Elem s t result [] h = elim h [ ]
  add_tools-Elem s t result (tool ∷ tools) (inl e) =
      add_tools-keeps (name s t) s (put_tool name s tool result) tools
        (λ absent. ground (arith, ap (name s) e, get-put_tool (name s t) s tool result))
  add_tools-Elem s t result (tool ∷ tools) (inr h) =
      add_tools-Elem s t (put_tool name s tool result) tools h

  add_servers-Listed :
      (s t : Text) (result : List (Text × Target)) (tbs : List (Text × List Text))
      → Listed s t tbs
      → JsMap.get text_dec (name s t) (add_servers name result tbs) ≢ none
  unfolding add_servers
  add_servers-Listed s t result [] h = elim h [ ]
  add_servers-Listed s t result ((server_id, tools) ∷ rest) (inl (e, h)) =
      add_servers-keeps (name s t) (add_tools name server_id result tools) rest (
        subst (λ u. JsMap.get text_dec (name u t) (add_tools name server_id result tools) ≢ none)
          (sym e) (add_tools-Elem server_id t result tools h))
  add_servers-Listed s t result ((server_id, tools) ∷ rest) (inr h) =
      add_servers-Listed s t (add_tools name server_id result tools) rest h

  -- In the finished map a listed tool's name stands for a listed tool of that name.
  add_servers-get :
      (s t : Text) (tbs : List (Text × List Text))
      → Listed s t tbs
      → (u : Target) × (JsMap.get text_dec (name s t) (add_servers name [] tbs) ≡ some u)
        × (name s t ≡ name u.server_id u.tool_name)
        × Listed u.server_id u.tool_name tbs
  add_servers-get s t tbs h =
      elim (Option-cases (JsMap.get text_dec (name s t) (add_servers name [] tbs))) [
        | inl absent ↦ absurd (add_servers-Listed s t [] tbs h absent)
        | inr (u, found) ↦ elim (add_servers-IsFrom [] tbs (name s t) u found) [
          | inl before ↦ absurd (cc (get-nil {V = Target} text_dec (name s t)))
          | inr (same, listed) ↦ (u, found, same, listed)
        ]
      ]

-- No server id has a dot, as the validation of the configuration demands.
abbrev pub HasDotFreeIds : List (Text × List Text) → Type 0
HasDotFreeIds tbs = All (λ e. DotFree e.0) tbs

Listed-DotFree :
    (s t : Text) (tbs : List (Text × List Text)) → HasDotFreeIds tbs → Listed s t tbs → DotFree s
Listed-DotFree s t [] d h = elim h [ ]
Listed-DotFree s t ((server_id, tools) ∷ rest) d (inl (e, h)) = subst DotFree (sym e) d.0
Listed-DotFree s t ((server_id, tools) ∷ rest) d (inr h) = Listed-DotFree s t rest d.1 h

-- With the prefix strategy a map is always built, and every listed tool resolves, under its prefixed
-- name, to itself: no tool of another server takes its name.
pub resolve_tool-prefix :
    (s t : Text) (tools_by_server : List (Text × List Text))
    → HasDotFreeIds tools_by_server
    → Listed s t tools_by_server
    → (m : List (Text × Target)) × (build_namespace_map tools_by_server prefix ≡ built m)
      × (resolve_tool (apply_namespace s t) m prefix
          ≡ some (record { server_id = s; tool_name = t }))
unfolding build_namespace_map resolve_tool
resolve_tool-prefix s t tbs d h =
    let (u, found, same, listed) = add_servers-get apply_namespace s t tbs h in
    let (ids, names) =
      apply-injective s u.server_id t u.tool_name (Listed-DotFree s t tbs d h)
        (Listed-DotFree u.server_id u.tool_name tbs d listed) same in
    (add_servers apply_namespace [] tbs, refl, ground (arith, found, ids, names))

-- Names that occur at most once are each listed by one server.
occurrences-pos : (t : Text) (tools : List Text) → Elem t tools → 1 ≤ occurrences t tools
occurrences-pos t [] h = elim h [ ]
occurrences-pos t (n ∷ tools) (inl e) = ground arith
occurrences-pos t (n ∷ tools) (inr h) = ground (arith, occurrences-pos t tools h)

occurrences_in-pos :
    (s t : Text) (tbs : List (Text × List Text)) → Listed s t tbs → 1 ≤ occurrences_in t tbs
occurrences_in-pos s t [] h = elim h [ ]
occurrences_in-pos s t ((server_id, tools) ∷ rest) (inl (e, h)) =
    omega (arith, occurrences-pos t tools h)
occurrences_in-pos s t ((server_id, tools) ∷ rest) (inr h) =
    omega (arith, occurrences_in-pos s t rest h)

Listed-unique :
    (s u t : Text) (tbs : List (Text × List Text))
    → occurrences_in t tbs ≤ 1
    → Listed s t tbs
    → Listed u t tbs
    → s ≡ u
Listed-unique s u t [] o h k = elim h [ ]
Listed-unique s u t ((server_id, tools) ∷ rest) o (inl (e, h)) (inl (e', k)) = e ∙ sym e'
Listed-unique s u t ((server_id, tools) ∷ rest) o (inl (e, h)) (inr k) =
    absurd (omega (arith, occurrences-pos t tools h, occurrences_in-pos u t rest k))
Listed-unique s u t ((server_id, tools) ∷ rest) o (inr h) (inl (e', k)) =
    absurd (omega (arith, occurrences-pos t tools k, occurrences_in-pos s t rest h))
Listed-unique s u t ((server_id, tools) ∷ rest) o (inr h) (inr k) =
    Listed-unique s u t rest (omega arith) h k

no_conflicts : (names : List Text) → ((n : Text) → ¬ Elem n names) → names ≡ []
no_conflicts [] h = refl
no_conflicts (n ∷ names) h = absurd (h n (inl refl))

-- Without prefixes, names that occur at most once over all servers give a map, in which each resolves
-- to the tool that is listed.
pub resolve_tool-no_prefix :
    (s t : Text) (tools_by_server : List (Text × List Text))
    → ((n : Text) → occurrences_in n tools_by_server ≤ 1)
    → Listed s t tools_by_server
    → (m : List (Text × Target)) × (build_namespace_map tools_by_server no_prefix ≡ built m)
      × (resolve_tool t m no_prefix ≡ some (record { server_id = s; tool_name = t }))
unfolding build_namespace_map resolve_tool
resolve_tool-no_prefix s t tbs once h =
    let (u, found, same, listed) = add_servers-get (λ s t. t) s t tbs h in
    let none_twice =
      no_conflicts (detect_conflicts tbs)
        (λ n e. absurd (omega (arith, (detect_conflicts_iff n tbs).0 e, once n))) in
    let owner =
      Listed-unique s u.server_id t tbs (once t) h
        (subst (λ v. Listed u.server_id v tbs) (sym same) listed) in
    (add_servers (λ s t. t) [] tbs, ground (arith, none_twice), ground (arith, found, owner, same))

-- A name that occurs more than once makes the build fail, and the error names it.
pub build_namespace_map-conflicts :
    (n : Text) (tools_by_server : List (Text × List Text))
    → 1 < occurrences_in n tools_by_server
    → (names : List Text) × (build_namespace_map tools_by_server no_prefix ≡ conflicts names)
      × Elem n names
unfolding build_namespace_map
build_namespace_map-conflicts n tbs h = (
  detect_conflicts tbs,
  rejects (detect_conflicts tbs) ((detect_conflicts_iff n tbs).1 h) refl,
  (detect_conflicts_iff n tbs).1 h,
)
  where
    rejects :
        (names : List Text)
        → Elem n names
        → detect_conflicts tbs ≡ names
        → build_namespace_map tbs no_prefix ≡ conflicts (detect_conflicts tbs)
    rejects [] e same = elim e [ ]
    rejects (x ∷ xs) e same = ground (arith, same)
