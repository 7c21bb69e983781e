-- ===== src/Pipeline/Visibility/Answers.antt =====
-- What the answers of `handleToolsList` in src/gateway/pipeline.ts list.
use mcp_conduit.Base.{◌≡◌, ◌⊎◌, List, none, some, Elem}
use mcp_conduit.Base.Json.{Json}
use mcp_conduit.Base.Text.{Text}
use mcp_conduit.Pipeline.{Gateway, History, Outcome, next, answer, raise, CoreResult}
use mcp_conduit.Pipeline.Approvals.{Caller}
use mcp_conduit.Pipeline.ToolsList.{Listed, renamed, listed_tools, name_of}
use mcp_conduit.Pipeline.Visibility.{MaySee}

module _ {N B K C : Type 0} (g : Gateway N B K C) (caller : Caller)
    (aggregated : History N K C → List (Listed N)) (server_id : Text) where
  -- A tool of the server that the client may see, or one of all servers that it may see, under its name for
  -- clients.
  abbrev pub IsShown : Json N → Type 0
  IsShown tool =
      MaySee g caller server_id (name_of tool)
      ⊎ ((t : Listed N) × ((h : History N K C) × Elem t (aggregated h))
          × (tool ≡ renamed g t)
          × MaySee g caller t.server_id t.tool_name)

  -- An early answer lists no tools.
  ListsNothing : {A : Type 0} → Outcome N A × History N K C → Type 0
  ListsNothing (next a, h) = Unit
  ListsNothing (answer r, h) = listed_tools g r.body ≡ none
  ListsNothing (raise e, h) = Unit

  -- Every tool that an answer lists is shown rightly, and an early answer lists none.
  abbrev pub Shows : Outcome N (CoreResult N) × History N K C → Type 0
  Shows (next r, h) =
      (tools : List (Json N))
      → listed_tools g r.body ≡ some tools
      → (tool : Json N) → Elem tool tools
      → IsShown tool
  Shows (answer r, h) = listed_tools g r.body ≡ none
  Shows (raise e, h) = Unit
