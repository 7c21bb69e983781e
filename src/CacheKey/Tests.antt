-- ===== src/CacheKey/Tests.antt =====
-- Keys of concrete calls; the value that is hashed serves as the hash.
use mcp_conduit.Base.{ℕ, ◌≡◌, ◌≢◌, refl, [], ◌∷◌, none, some, ℕ_discrete, arith}
use mcp_conduit.Base.Json.{
  Json, num, Fields, end, field, entries, text_ltb, is_index, goes_before, insert_new, replace,
  has_key, assign,
}
use mcp_conduit.Base.Text.{text_dec, codes}
use mcp_conduit.CacheKey.{CacheKeyOptions, generate_cache_key, filter_args, filter_loop, is_ignored}
use mcp_conduit.CacheKey.Order.{generate_cache_key-Reordered, HasDistinctKeys}
use mcp_conduit.DeepSort.{deep_sort, insert_by_key, sort_by_key, assign_all}
use mcp_conduit.DeepSort.Reordering.{exchanged}

abbrev one_way : Fields ℕ
one_way = field (codes "b") (num 2) (field (codes "a") (num 1) end)

abbrev other_way : Fields ℕ
other_way = field (codes "a") (num 1) (field (codes "b") (num 2) end)

abbrev options : Fields ℕ → CacheKeyOptions ℕ
options args = record {
  server_id = codes "s";
  tool_name = codes "t";
  args = args;
  tenant_id = some (codes "x");
  group_id = none;
  ignore_args = codes "b" ∷ [];
}

program : Unit {0}
unfolding deep_sort insert_by_key sort_by_key assign_all generate_cache_key filter_args filter_loop
    is_ignored assign insert_new replace has_key goes_before is_index text_ltb text_dec ℕ_discrete
program = tt

-- Arguments with the names of the prototype make no difference.
proto_ignored :
    generate_cache_key
      (λ (v : Json ℕ). v)
      (λ (v : Json ℕ). v)
      (options (field (codes "__proto__") (num 1) end))
    ≡ generate_cache_key (λ (v : Json ℕ). v) (λ (v : Json ℕ). v) (options end)
unfolding program
proto_ignored = refl

distinct : HasDistinctKeys (entries one_way) × HasDistinctKeys (entries other_way)
unfolding has_key text_dec ℕ_discrete
distinct = ((refl, (refl, tt)), (refl, (refl, tt)))

apart : codes "b" ≢ codes "a"
apart e = ground arith

generate_cache_key-Reordered_example :
    generate_cache_key (λ (v : Json ℕ). v) (λ (v : Json ℕ). v) (options one_way)
    ≡ generate_cache_key (λ (v : Json ℕ). v) (λ (v : Json ℕ). v) (options other_way)
generate_cache_key-Reordered_example =
    generate_cache_key-Reordered (λ (v : Json ℕ). v) (λ (v : Json ℕ). v) (options one_way) other_way
      distinct.0 distinct.1 (exchanged apart)
