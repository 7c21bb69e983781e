-- ===== src/DeepSort/Tests.antt =====
-- Sorting concrete values.
use mcp_conduit.Base.{ℕ, ◌≡◌, ◌≢◌, refl, ℕ_discrete, arith}
use mcp_conduit.Base.Json.{
  Json, num, obj, end, field, text_ltb, is_index, goes_before, insert_new, replace, has_key, assign,
}
use mcp_conduit.Base.Text.{text_dec, codes}
use mcp_conduit.DeepSort.{deep_sort, insert_by_key, sort_by_key, assign_all}

abbrev one_way : Json ℕ
one_way = obj (field (codes "b") (num 2) (field (codes "a") (num 1) end))

abbrev other_way : Json ℕ
other_way = obj (field (codes "a") (num 1) (field (codes "b") (num 2) end))

program : Unit {0}
unfolding deep_sort insert_by_key sort_by_key assign_all assign insert_new replace has_key
    goes_before is_index text_ltb text_dec ℕ_discrete
program = tt

sorted : deep_sort one_way ≡ other_way
unfolding program
sorted = refl

apart : codes "b" ≢ codes "a"
apart e = ground arith
