-- ===== src/CacheKey/Separation.antt =====
-- What two requests with one cache key have in common.
use mcp_conduit.Base.{◌≡◌, refl, sym, ap, ◌∙◌, Option, none, some, arith}
use mcp_conduit.Base.Json.{
  Json, str, obj, Fields, entries, own, text_ltb, is_index, assign, goes_before,
}
use mcp_conduit.Base.Text.{Text, text_dec, codes}
use mcp_conduit.Base.{ℕ_discrete}
use mcp_conduit.CacheKey.{CacheKeyOptions, components, key_object, filter_args, generate_cache_key}
use mcp_conduit.DeepSort.{deep_sort}

-- A property of a value that is an object.
abbrev part : {N : Type 0} → Text → Json N → Option (Json N)
part k (obj fs) = own k (entries fs)
part k v = none

abbrev as_text : {N : Type 0} → Option Text → Option (Json N)
as_text none = none
as_text (some s) = some (str s)

module _ {N : Type 0} (server tool : Text) (args : Fields N) where
  parts :
      (tenant group : Option Text)
      → let sorted = deep_sort (components server tool args tenant group) in
        (part (codes "server_id") sorted ≡ some (str server))
        × (part (codes "tool_name") sorted ≡ some (str tool))
        × (part (codes "args") sorted ≡ some (deep_sort (obj args)))
        × (part (codes "tenant_id") sorted ≡ as_text tenant)
        × (part (codes "group_id") sorted ≡ as_text group)
  unfolding deep_sort text_ltb assign own text_dec ℕ_discrete is_index goes_before
  parts none none = (refl, refl, refl, refl, refl)
  parts none (some g) = (refl, refl, refl, refl, refl)
  parts (some t) none = (refl, refl, refl, refl, refl)
  parts (some t) (some g) = (refl, refl, refl, refl, refl)

str-injective :
    {N : Type 0} {s t : Text} → ◌≡◌ {A = Option (Json N)} (some (str s)) (some (str t)) → s ≡ t
str-injective e = ground arith

as_text-injective :
    {N : Type 0} (s t : Option Text) → ◌≡◌ {A = Option (Json N)} (as_text s) (as_text t) → s ≡ t
as_text-injective none none e = refl
as_text-injective none (some t) e = ground arith
as_text-injective (some s) none e = ground arith
as_text-injective (some s) (some t) e = ground arith

some-injective : {A : Type 0} {x y : A} → some x ≡ some y → x ≡ y
some-injective e = ground arith

pub generate_cache_key-separates :
    {N T K : Type 0} (stringify : Json N → T) (hash : T → K) (o p : CacheKeyOptions N)
    → (stringify (deep_sort (key_object o)) ≡ stringify (deep_sort (key_object p))
        → deep_sort (key_object o) ≡ deep_sort (key_object p))
    → (hash (stringify (deep_sort (key_object o))) ≡ hash (stringify (deep_sort (key_object p)))
        → stringify (deep_sort (key_object o)) ≡ stringify (deep_sort (key_object p)))
    → generate_cache_key stringify hash o ≡ generate_cache_key stringify hash p
    → (o.server_id ≡ p.server_id)
      × (o.tool_name ≡ p.tool_name)
      × (o.tenant_id ≡ p.tenant_id)
      × (o.group_id ≡ p.group_id)
      × (deep_sort (obj (filter_args o.args o.ignore_args))
          ≡ deep_sort (obj (filter_args p.args p.ignore_args)))
unfolding generate_cache_key
generate_cache_key-separates stringify hash o p faithful no_collision e =
    let same = faithful (no_collision e) in
    let (server, tool, args, tenant, group) =
      parts o.server_id o.tool_name (filter_args o.args o.ignore_args) o.tenant_id o.group_id in
    let (server', tool', args', tenant', group') =
      parts p.server_id p.tool_name (filter_args p.args p.ignore_args) p.tenant_id p.group_id in
    (
      str-injective (sym server ∙ ap (part (codes "server_id")) same ∙ server'),
      str-injective (sym tool ∙ ap (part (codes "tool_name")) same ∙ tool'),
      as_text-injective o.tenant_id p.tenant_id
          (sym tenant ∙ ap (part (codes "tenant_id")) same ∙ tenant'),
      as_text-injective o.group_id p.group_id
          (sym group ∙ ap (part (codes "group_id")) same ∙ group'),
      some-injective (sym args ∙ ap (part (codes "args")) same ∙ args'),
    )
