-- ===== src/Namespace/Tests.antt =====
-- The tool names of src/router/namespace.ts on concrete servers, and instances of the theorems.
use mcp_conduit.Base.{
  ◌≤◌, ◌<◌, ◌≡◌, ◌↔◌, refl, inl, inr, List, [], ◌∷◌, none, some, arith, ℕ_discrete, Elem,
}
use mcp_conduit.Base.JsMap
use mcp_conduit.Base.Text.{Text, text_dec, codes}
use mcp_conduit.Namespace.{
  prefix, no_prefix, Target, apply_namespace, resolve_namespaced_tool, detect_conflicts, built,
  conflicts, build_namespace_map, resolve_tool,
}
use mcp_conduit.Namespace.Conflicts.{occurrences_in, detect_conflicts_iff}
use mcp_conduit.Namespace.Maps.{
  HasDotFreeIds, resolve_tool-prefix, resolve_tool-no_prefix, build_namespace_map-conflicts,
}
use mcp_conduit.Namespace.Prefixes.{DotFree, resolve-apply}

abbrev sf : Text
sf = codes "sf"

abbrev gh : Text
gh = codes "gh"

abbrev get_x : Text
get_x = codes "get.x"

abbrev list : Text
list = codes "list"

-- Two servers, both with a tool `list`.
abbrev servers : List (Text × List Text)
servers = (sf, get_x ∷ list ∷ []) ∷ (gh, list ∷ []) ∷ []

program : Unit {0}
unfolding resolve_namespaced_tool detect_conflicts build_namespace_map resolve_tool JsMap.get
    JsMap.put text_dec ℕ_discrete
program = tt

decomposed :
    resolve_namespaced_tool (codes "sf.get.x") ≡ some (record { server_id = sf; tool_name = get_x })
unfolding program
decomposed = refl

no_server : resolve_namespaced_tool (codes ".list") ≡ none
unfolding program
no_server = refl

clash : build_namespace_map servers no_prefix ≡ conflicts (list ∷ [])
unfolding program
clash = refl

sf-DotFree : DotFree sf
sf-DotFree = omega arith

resolve-apply_example :
    resolve_namespaced_tool (apply_namespace sf get_x)
    ≡ some (record { server_id = sf; tool_name = get_x })
resolve-apply_example = resolve-apply sf get_x (λ e. cc) sf-DotFree (λ e. cc)

detect_conflicts_iff_example :
    Elem list (detect_conflicts servers) ↔ (1 < occurrences_in list servers)
detect_conflicts_iff_example = detect_conflicts_iff list servers

servers-HasDotFreeIds : HasDotFreeIds servers
servers-HasDotFreeIds = omega arith

resolve_tool-prefix_example :
    (m : List (Text × Target)) × (build_namespace_map servers prefix ≡ built m)
    × (resolve_tool (apply_namespace gh list) m prefix
        ≡ some (record { server_id = gh; tool_name = list }))
resolve_tool-prefix_example =
    resolve_tool-prefix gh list servers servers-HasDotFreeIds (inr (inl (refl, inl refl)))

abbrev one_server : List (Text × List Text)
one_server = (gh, list ∷ []) ∷ []

at_most_once : (n : Text) → occurrences_in n one_server ≤ 1
at_most_once n = ground arith

resolve_tool-no_prefix_example :
    (m : List (Text × Target)) × (build_namespace_map one_server no_prefix ≡ built m)
    × (resolve_tool list m no_prefix ≡ some (record { server_id = gh; tool_name = list }))
resolve_tool-no_prefix_example =
    resolve_tool-no_prefix gh list one_server at_most_once (inl (refl, inl refl))

twice : 1 < occurrences_in list servers
unfolding program
twice = omega arith

build_namespace_map-conflicts_example :
    (names : List Text) × (build_namespace_map servers no_prefix ≡ conflicts names)
    × Elem list names
build_namespace_map-conflicts_example = build_namespace_map-conflicts list servers twice
