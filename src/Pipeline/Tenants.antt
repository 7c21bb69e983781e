-- ===== src/Pipeline/Tenants.antt =====
-- The tenants that the cache is divided by.
use mcp_conduit.Base.{◌≡◌, refl, sym, ◌∙◌, true, some, List, arith}
use mcp_conduit.Base.Json.{Json}
use mcp_conduit.Base.Text.{Text}
use mcp_conduit.CacheKey.{key_object}
use mcp_conduit.CacheKey.Separation.{generate_cache_key-separates}
use mcp_conduit.DeepSort.{deep_sort}
use mcp_conduit.Pipeline.{Gateway, Target, method_other}
use mcp_conduit.Pipeline.Forwarding.{resolve_tenant, key_options, cache_key}
use mcp_conduit.Pipeline.Approvals.{Caller}

some-injective : {A : Type 0} {x y : A} → some x ≡ some y → x ≡ y
some-injective e = ground arith

module _ {N B K C : Type 0} (g : Gateway N B K C) where
  resolve_tenant-authenticated :
      (caller : Caller)
      → g.config.tenant_isolation.enabled ≡ true
      → g.config.auth ≡ some method_other
      → resolve_tenant g caller ≡ some caller.tenant_id
  unfolding resolve_tenant
  resolve_tenant-authenticated caller on auth = rw (on, auth) refl

  -- Where clients authenticate and the tenants are isolated, two callers whose calls have the same cache
  -- key are of the same tenant, whatever headers they send, unless the digest has a collision there.
  pub cache_key-tenant :
      (a b : Caller) (t u : Target N) (ignored also_ignored : List Text)
      → g.config.tenant_isolation.enabled ≡ true
      → g.config.auth ≡ some method_other
      → (g.digest (deep_sort (key_object (key_options g a t ignored)))
            ≡ g.digest (deep_sort (key_object (key_options g b u also_ignored)))
          → deep_sort (key_object (key_options g a t ignored))
            ≡ deep_sort (key_object (key_options g b u also_ignored)))
      → cache_key g a t ignored ≡ cache_key g b u also_ignored
      → a.tenant_id ≡ b.tenant_id
  unfolding cache_key key_options
  cache_key-tenant a b t u ignored also_ignored on auth no_collision e =
      let (server, tool, tenant, group, args) =
        generate_cache_key-separates (λ (v : Json N). v) g.digest (key_options g a t ignored)
          (key_options g b u also_ignored) (λ same. same) no_collision e in
      some-injective (
        sym (resolve_tenant-authenticated a on auth)
        ∙ tenant
        ∙ resolve_tenant-authenticated b on auth)
