-- ===== src/Tools.antt =====
-- The tool descriptions of src/cache/types.ts.
use mcp_conduit.Base.{Bool, Option, none}
use mcp_conduit.Base.Text.{Text}

pub record ToolAnnotations : Type 0 where
  pub read_only_hint : Option Bool
  pub destructive_hint : Option Bool
  pub idempotent_hint : Option Bool
  pub open_world_hint : Option Bool

-- `{}`
abbrev pub no_annotations : ToolAnnotations
no_annotations = record {
  read_only_hint = none;
  destructive_hint = none;
  idempotent_hint = none;
  open_world_hint = none;
}

-- The description and the schema of a tool play no part in what is modelled.
pub record ToolMetadata : Type 0 where
  pub name : Text
  pub annotations : Option ToolAnnotations
