-- ===== src/CachePolicy/Cascade.antt =====
-- What the caching decision comes to.
use mcp_conduit.Base.{
  ℕ, ◌≤◌, ◌<◌, ◌≡◌, ◌≢◌, ◌↔◌, ◌⊎◌, Bool, true, false, arith, List, ◌∷◌, none, some, inl, inr,
  Option-cases,
}
use mcp_conduit.Base.JsMap
use mcp_conduit.Base.Text.{Text, text_dec}
use mcp_conduit.Tools.{ToolAnnotations}
use mcp_conduit.CachePolicy.{
  ToolOverrideConfig, ServerCacheConfig, CachePolicyDecision, says, idempotent_ttl, find_override,
  apply_config_override, by_hints, decide_cache_policy,
}

abbrev Sound : CachePolicyDecision → Type 0
Sound decision =
    (decision.should_cache ≡ true
      → (decision.is_destructive ≡ false) × (decision.ttl ≢ none) × (decision.ttl ≢ some 0))
    × (decision.should_cache ≡ false → decision.ttl ≡ none)

by_hints-Sound : (d r i o : Bool) (ttl : ℕ) → Sound (by_hints d r i o ttl)
unfolding by_hints
by_hints-Sound true r i o ttl = ground arith
by_hints-Sound false true i o ttl = ground arith
by_hints-Sound false false true o ttl = ground arith
by_hints-Sound false false false true ttl = ground arith
by_hints-Sound false false false false ttl = ground arith

override-Sound : (o : ToolOverrideConfig) (ttl : ℕ) → Sound (apply_config_override o ttl)
unfolding apply_config_override
override-Sound o ttl = ground arith

abbrev Annotated : (d r i o : Bool) → CachePolicyDecision → Type 0
Annotated d r i o decision =
    ((decision.should_cache ≡ true) ↔ ((d ≡ false) × ((r ≡ true) ⊎ ((i ≡ true) ⊎ (o ≡ true)))))
    × (r ≡ false → (ttl : ℕ) → decision.ttl ≡ some ttl → ttl ≤ idempotent_ttl)

by_hints-Annotated : (d r i o : Bool) (ttl : ℕ) → Annotated d r i o (by_hints d r i o ttl)
unfolding by_hints
by_hints-Annotated true r i o ttl = ground arith
by_hints-Annotated false true i o ttl = ground arith
by_hints-Annotated false false true o ttl = ground arith
by_hints-Annotated false false false true ttl = ground arith
by_hints-Annotated false false false false ttl = ground arith

-- A result is cached only with a positive time to live, never as that of a destructive tool; and if it
-- is not cached, there is no time to live.
pub decide_sound :
    (inherited : Text → Bool) (tool : Text) (a : ToolAnnotations) (config : ServerCacheConfig)
    → let decision = decide_cache_policy inherited tool a config in
      (decision.should_cache ≡ true
        → (decision.is_destructive ≡ false) × (decision.ttl ≢ none) × (decision.ttl ≢ some 0))
      × (decision.should_cache ≡ false → decision.ttl ≡ none)
unfolding decide_cache_policy apply_config_override
decide_sound inherited tool a config = elim (Option-cases (find_override inherited config tool)) [
  | inl e ↦ rw (decide_cache_policy, e) (by_hints-Sound _ _ _ _ config.default_ttl)
  | inr (override, e) ↦ rw (decide_cache_policy, e) (override-Sound override config.default_ttl)
]

-- Without an override for its name, a tool is cached exactly when it is not annotated as destructive,
-- and is annotated as read-only, idempotent or open to the world. If it is not read-only its results
-- are kept for two minutes at most.
pub decide-annotated :
    (inherited : Text → Bool) (tool : Text) (a : ToolAnnotations) (config : ServerCacheConfig)
    → find_override inherited config tool ≡ none
    → let decision = decide_cache_policy inherited tool a config in
      ((decision.should_cache ≡ true) ↔ (
        (says a.destructive_hint ≡ false)
        × ((says a.read_only_hint ≡ true)
            ⊎ ((says a.idempotent_hint ≡ true) ⊎ (says a.open_world_hint ≡ true)))))
      × (says a.read_only_hint ≡ false → (ttl : ℕ) → decision.ttl ≡ some ttl → ttl ≤ idempotent_ttl)
unfolding decide_cache_policy
decide-annotated inherited tool a config h =
    rw (decide_cache_policy, h) (by_hints-Annotated _ _ _ _ config.default_ttl)

-- On a server that has overrides, a tool whose name is inherited by every object is cached whenever the
-- server's default time to live is positive, even if it is annotated as destructive.
pub inherited-cached :
    (inherited : Text → Bool) (tool : Text) (a : ToolAnnotations) (config : ServerCacheConfig)
    (overrides : List (Text × ToolOverrideConfig))
    → config.overrides ≡ some overrides
    → JsMap.get text_dec tool overrides ≡ none
    → inherited tool ≡ true
    → 0 < config.default_ttl
    → (decide_cache_policy inherited tool a config).should_cache ≡ true
unfolding decide_cache_policy find_override apply_config_override
inherited-cached inherited tool a config overrides e f g h = ground arith

-- The tools that an override tells to invalidate are invalidated, which asks for `is_destructive` and a
-- list that is not empty, only if its time to live, or the default one when it has none, is 0.
pub override-invalidates :
    (inherited : Text → Bool) (tool : Text) (a : ToolAnnotations) (config : ServerCacheConfig)
    (override : ToolOverrideConfig) (first : Text) (more : List Text)
    → find_override inherited config tool ≡ some override
    → override.invalidates ≡ some (first ∷ more)
    → ((decide_cache_policy inherited tool a config).is_destructive ≡ true)
      ↔ ((override.ttl ≡ some 0) ⊎ ((override.ttl ≡ none) × (config.default_ttl ≡ 0)))
unfolding decide_cache_policy apply_config_override
override-invalidates inherited tool a config override first more e f = ground arith
