-- ===== src/Namespace.antt =====
-- The tool names of src/router/namespace.ts. `null` results are `Option`; the error that
-- `buildNamespaceMap` throws carries the names in conflict.
pub mod Prefixes
pub mod Conflicts
pub mod Maps
mod Tests
use mcp_conduit.Base.{
  ℕ, zero, suc, ◌+◌, Bool, true, false, List, [], ◌∷◌, ◌++◌, Option, none, some, ltb, if◌then◌else◌,
  is, ℕ_discrete, length, take, drop, map, keep,
}
use mcp_conduit.Base.Text.{Text, text_dec}
use mcp_conduit.Base.JsMap

-- `NAMESPACE_SEPARATOR`
abbrev pub separator : ℕ
separator = b'.'

pub data NamespaceStrategy : Type 0 where
  prefix no_prefix : NamespaceStrategy

pub record Target : Type 0 where
  pub server_id : Text
  pub tool_name : Text

pub apply_namespace : Text → Text → Text
apply_namespace server_id tool_name = server_id ++ separator ∷ tool_name

-- `s.indexOf(c)`, with `none` for -1.
pub index_of : ℕ → Text → Option ℕ
index_of c [] = none
index_of c (d ∷ s) =
    let later = index_of c s in
    if is (ℕ_discrete c d) then some 0 else elim later [ none ↦ none | some i ↦ some (suc i) ]

-- The cuts at the index `i`, and the checks that the two parts are not empty.
cut_at : Text → ℕ → Option Target
cut_at name zero = none
cut_at name (suc i) = elim (take (suc i) name) [
  | [] ↦ none
  | c ∷ s ↦ elim (drop (suc (suc i)) name) [
    | [] ↦ none
    | d ∷ t ↦ some (record { server_id = c ∷ s; tool_name = d ∷ t })
  ]
]

unfoldable pub resolve_namespaced_tool : Text → Option Target
unfolding index_of cut_at
resolve_namespaced_tool name = elim (index_of separator name) [
  | none ↦ none
  | some i ↦ cut_at name i
]

-- `nameCount.get(toolName) ?? 0`
abbrev count_or_zero : Option ℕ → ℕ
count_or_zero none = 0
count_or_zero (some n) = n

count_name : List (Text × ℕ) → Text → List (Text × ℕ)
count_name counts tool =
    JsMap.put text_dec tool (count_or_zero (JsMap.get text_dec tool counts) + 1) counts

count_names : List (Text × ℕ) → List Text → List (Text × ℕ)
count_names counts [] = counts
count_names counts (tool ∷ tools) = count_names (count_name counts tool) tools

count_all : List (Text × ℕ) → List (Text × List Text) → List (Text × ℕ)
count_all counts [] = counts
count_all counts ((server_id, tools) ∷ rest) = count_all (count_names counts tools) rest

unfoldable pub detect_conflicts : List (Text × List Text) → List Text
unfolding count_all count_names count_name
detect_conflicts tools_by_server =
    map (λ e. e.0) (keep (λ e. ltb 1 e.1) (count_all [] tools_by_server))

pub data BuildResult : Type 0 where
  built : List (Text × Target) → BuildResult
  conflicts : List Text → BuildResult

-- `result.set(name, { serverId, toolName })`
abbrev pub put_tool :
    (Text → Text → Text) → Text → Text → List (Text × Target) → List (Text × Target)
put_tool name server_id tool result =
    JsMap.put text_dec (name server_id tool) (record { server_id = server_id; tool_name = tool })
      result

-- The two nested loops, over `name`, the name that a tool of a server goes by.
pub add_tools :
    (Text → Text → Text) → Text → List (Text × Target) → List Text → List (Text × Target)
add_tools name server_id result [] = result
add_tools name server_id result (tool ∷ tools) =
    add_tools name server_id (put_tool name server_id tool result) tools

pub add_servers :
    (Text → Text → Text) → List (Text × Target) → List (Text × List Text) → List (Text × Target)
add_servers name result [] = result
add_servers name result ((server_id, tools) ∷ rest) =
    add_servers name (add_tools name server_id result tools) rest

build_from : NamespaceStrategy → List (Text × List Text) → BuildResult
build_from prefix tools_by_server = built (add_servers apply_namespace [] tools_by_server)
build_from no_prefix tools_by_server = elim (detect_conflicts tools_by_server) [
  | [] ↦ built (add_servers (λ server_id tool. tool) [] tools_by_server)
  | name ∷ names ↦ conflicts (name ∷ names)
]

unfoldable pub build_namespace_map : List (Text × List Text) → NamespaceStrategy → BuildResult
unfolding build_from add_servers add_tools apply_namespace
build_namespace_map tools_by_server strategy = build_from strategy tools_by_server

decompose : NamespaceStrategy → Text → Option Target
decompose prefix name = resolve_namespaced_tool name
decompose no_prefix name = none

unfoldable pub resolve_tool : Text → List (Text × Target) → NamespaceStrategy → Option Target
unfolding decompose
resolve_tool name namespace_map strategy = elim (JsMap.get text_dec name namespace_map) [
  | some direct ↦ some direct
  | none ↦ decompose strategy name
]
