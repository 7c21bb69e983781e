-- ===== src/CacheKey.antt =====
-- The cache keys of src/cache/cache-key.ts. `JSON.stringify` and SHA-256 are parameters, and so are
-- their results' types. The tenant of an HTTP header, `extractTenantId`, is not modelled.
pub mod Order
pub mod Separation
mod Tests
use mcp_conduit.Base.{ℕ, Bool, List, [], ◌∷◌, ◌++◌, any, Option, none, some, if◌then◌else◌, is}
use mcp_conduit.Base.Json.{Json, str, obj, Fields, entries, of_entries, assign}
use mcp_conduit.Base.Text.{Text, text_dec, codes}
use mcp_conduit.DeepSort.{deep_sort}

pub record CacheKeyOptions (N : Type 0) : Type 0 where
  pub server_id : Text
  pub tool_name : Text
  pub args : Fields N
  pub tenant_id : Option Text
  pub group_id : Option Text
  pub ignore_args : List Text

-- `ignoreSet.has(key)`
unfoldable pub is_ignored : List Text → Text → Bool
is_ignored ignore key = any (λ i. is (text_dec i key)) ignore

module _ {N : Type 0} where
  -- The loop over the entries; no value of JSON is `undefined`.
  pub filter_loop : List Text → List (Text × Json N) → List (Text × Json N) → List (Text × Json N)
  filter_loop ignore [] filtered = filtered
  filter_loop ignore ((key, value) ∷ rest) filtered =
      filter_loop ignore rest
        (if is_ignored ignore key then filtered else assign key value filtered)

  unfoldable pub filter_args : Fields N → List Text → Fields N
  unfolding filter_loop
  filter_args args ignore_args = of_entries (filter_loop ignore_args (entries args) [])

  -- `if (value !== undefined) components.key = value`, for a key that comes last.
  abbrev pub optional : Text → Option Text → List (Text × Json N)
  optional key none = []
  optional key (some value) = (key, str value) ∷ []

  abbrev pub components : Text → Text → Fields N → Option Text → Option Text → Json N
  components server_id tool_name args tenant_id group_id = obj (
      of_entries (
        (codes "server_id", str server_id)
        ∷ (codes "tool_name", str tool_name)
        ∷ (codes "args", obj args)
        ∷ (optional (codes "tenant_id") tenant_id ++ optional (codes "group_id") group_id)))

  -- What is serialised.
  abbrev pub key_object : CacheKeyOptions N → Json N
  key_object o =
      components o.server_id o.tool_name (filter_args o.args o.ignore_args) o.tenant_id o.group_id

  unfoldable pub generate_cache_key :
      {T K : Type 0} → (Json N → T) → (T → K) → CacheKeyOptions N → K
  generate_cache_key stringify hash o = hash (stringify (deep_sort (key_object o)))
