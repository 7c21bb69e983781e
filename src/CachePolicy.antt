-- ===== src/CachePolicy.antt =====
-- The caching decision of src/cache/cache-policy.ts.
--
-- Times to live are natural numbers of seconds: a negative one is treated by the code like 0. The
-- overrides are a plain JavaScript object, which also answers to the names that it inherits from
-- `Object.prototype`, with a value that has none of the fields of an override. Which names these are is
-- a parameter, `inherited`.
pub mod Cascade
mod Tests
use mcp_conduit.Base.{
  ℕ, ◌*◌, min, Bool, true, false, List, [], ◌∷◌, Option, none, some, ltb, if◌then◌else◌,
}
use mcp_conduit.Base.JsMap
use mcp_conduit.Base.Text.{Text, text_dec}
use mcp_conduit.Tools.{ToolAnnotations}

pub record ToolOverrideConfig : Type 0 where
  pub ttl : Option ℕ
  pub ignore_args : Option (List Text)
  pub invalidates : Option (List Text)

pub record ServerCacheConfig : Type 0 where
  pub default_ttl : ℕ
  pub overrides : Option (List (Text × ToolOverrideConfig))

-- `DEFAULT_TTL_BY_ANNOTATION`, in seconds.
abbrev read_only_ttl : ℕ
read_only_ttl = 5 * 60

abbrev pub idempotent_ttl : ℕ
idempotent_ttl = 2 * 60

abbrev open_world_ttl : ℕ
open_world_ttl = 30

pub record CachePolicyDecision : Type 0 where
  pub should_cache : Bool
  pub ttl : Option ℕ
  pub is_destructive : Bool
  pub invalidates : List Text
  pub ignore_args : List Text

-- `hint === true`
abbrev pub says : Option Bool → Bool
says none = false
says (some b) = b

abbrev or_default : Option ℕ → ℕ → ℕ
or_default none n = n
or_default (some m) n = m

abbrev or_empty : Option (List Text) → List Text
or_empty none = []
or_empty (some xs) = xs

abbrev is_empty : List Text → Bool
is_empty [] = true
is_empty (x ∷ xs) = false

unfoldable pub apply_config_override : ToolOverrideConfig → ℕ → CachePolicyDecision
apply_config_override override server_default_ttl =
    let ttl = or_default override.ttl server_default_ttl in
    if ltb 0 ttl
    then record {
      should_cache = true;
      ttl = some ttl;
      is_destructive = false;
      invalidates = or_empty override.invalidates;
      ignore_args = or_empty override.ignore_args;
    }
    else record {
      should_cache = false;
      ttl = none;
      is_destructive = if is_empty (or_empty override.invalidates) then false else true;
      invalidates = or_empty override.invalidates;
      ignore_args = or_empty override.ignore_args;
    }

-- A decision that is not an override's: nothing is invalidated and no argument is left out of the key.
abbrev plain : Option ℕ → Bool → CachePolicyDecision
plain ttl is_destructive = record {
  should_cache = elim ttl [ none ↦ false | some _ ↦ true ];
  ttl = ttl;
  is_destructive = is_destructive;
  invalidates = [];
  ignore_args = [];
}

-- `default_ttl > 0 ? default_ttl : fallback`
abbrev positive_or : ℕ → ℕ → ℕ
positive_or ttl fallback = if ltb 0 ttl then ttl else fallback

-- The rest of the cascade, by the hints for destructive, read-only, idempotent and open-world tools.
by_hints : Bool → Bool → Bool → Bool → ℕ → CachePolicyDecision
by_hints true read_only idempotent open_world default_ttl = plain none true
by_hints false true idempotent open_world default_ttl =
    plain (some (positive_or default_ttl read_only_ttl)) false
by_hints false false true open_world default_ttl =
    plain (some (min (positive_or default_ttl idempotent_ttl) idempotent_ttl)) false
by_hints false false false true default_ttl = plain (some open_world_ttl) false
by_hints false false false false default_ttl = plain none false

abbrev by_annotations : ToolAnnotations → ℕ → CachePolicyDecision
by_annotations a default_ttl =
    by_hints (says a.destructive_hint) (says a.read_only_hint) (says a.idempotent_hint)
      (says a.open_world_hint) default_ttl

-- What an inherited property shows of the fields of an override.
abbrev pub no_fields : ToolOverrideConfig
no_fields = record { ttl = none; ignore_args = none; invalidates = none }

-- `serverCacheConfig.overrides?.[toolName]`
unfoldable pub find_override : (Text → Bool) → ServerCacheConfig → Text → Option ToolOverrideConfig
find_override inherited config tool = elim config.overrides [
  | none ↦ none
  | some overrides ↦ elim (JsMap.get text_dec tool overrides) [
    | some override ↦ some override
    | none ↦ if inherited tool then some no_fields else none
  ]
]

unfoldable pub decide_cache_policy :
    (Text → Bool) → Text → ToolAnnotations → ServerCacheConfig → CachePolicyDecision
unfolding by_hints
decide_cache_policy inherited tool annotations config = elim (find_override inherited config tool) [
  | some override ↦ apply_config_override override config.default_ttl
  | none ↦ by_annotations annotations config.default_ttl
]
