-- ===== src/CachePolicy/Tests.antt =====
-- The caching decision of src/cache/cache-policy.ts on concrete tools, and instances of its theorems.
use mcp_conduit.Base.{
  ℕ, ◌≤◌, ◌≡◌, ◌↔◌, ◌⊎◌, refl, Bool, true, false, List, [], ◌∷◌, none, some, is, ℕ_discrete,
}
use mcp_conduit.Base.JsMap
use mcp_conduit.Base.Text.{Text, text_dec, codes}
use mcp_conduit.Tools.{ToolAnnotations, no_annotations}
use mcp_conduit.CachePolicy.{
  ToolOverrideConfig, ServerCacheConfig, says, idempotent_ttl, no_fields, find_override,
  decide_cache_policy, apply_config_override,
}
use mcp_conduit.CachePolicy.Cascade.{decide-annotated}

-- One of the names that every object inherits.
abbrev inherits : Text → Bool
inherits name = is (text_dec name (codes "constructor"))

abbrev reads_again : ToolOverrideConfig
reads_again = record no_fields { invalidates = some (codes "list" ∷ []) }

abbrev overrides : List (Text × ToolOverrideConfig)
overrides = (codes "add", reads_again) ∷ []

abbrev config : ServerCacheConfig
config = record { default_ttl = 600; overrides = some overrides }

abbrev destroys : ToolAnnotations
destroys = record no_annotations { destructive_hint = some true }

abbrev repeats : ToolAnnotations
repeats = record no_annotations { idempotent_hint = some true }

program : Unit {0}
unfolding decide_cache_policy find_override apply_config_override JsMap.get text_dec ℕ_discrete
program = tt

repeats_ttl : (decide_cache_policy inherits (codes "put") repeats config).ttl ≡ some 120
unfolding program
repeats_ttl = refl

put_no_override : find_override inherits config (codes "put") ≡ none
unfolding program
put_no_override = refl

add_override : find_override inherits config (codes "add") ≡ some reads_again
unfolding program
add_override = refl

constructor_missing : JsMap.get text_dec (codes "constructor") overrides ≡ none
unfolding program
constructor_missing = refl

constructor_inherited : inherits (codes "constructor") ≡ true
unfolding program
constructor_inherited = refl

decide-annotated_example :
    let decision = decide_cache_policy inherits (codes "put") repeats config in
    ((decision.should_cache ≡ true) ↔ (
      (says repeats.destructive_hint ≡ false)
      × ((says repeats.read_only_hint ≡ true)
          ⊎ ((says repeats.idempotent_hint ≡ true) ⊎ (says repeats.open_world_hint ≡ true)))))
    × (says repeats.read_only_hint ≡ false
        → (ttl : ℕ) → decision.ttl ≡ some ttl
        → ttl ≤ idempotent_ttl)
decide-annotated_example = decide-annotated inherits (codes "put") repeats config put_no_override
