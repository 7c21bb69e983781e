-- ===== src/JsonRpc/Tests.antt =====
-- Batches of messages.
use mcp_conduit.Base.{ℕ, ◌≡◌, ◌↔◌, refl, [], ◌∷◌, some, map, ℕ_discrete}
use mcp_conduit.Base.Json.{Json, num, str, arr, obj, nil, cons, end, field, own, has_key}
use mcp_conduit.Base.Text.{text_dec, codes}
use mcp_conduit.JsonRpc.{
  batch, valid, invalid, parse_json_rpc, parse_json_rpc_batch_partial, is_valid_json_rpc,
  push_valid, batch_entry, batch_entries,
}
use mcp_conduit.JsonRpc.Batches.{parse_json_rpc_iff}

abbrev ping : Json ℕ
ping =
    obj (
      field (codes "jsonrpc") (str (codes "2.0")) (field (codes "method") (str (codes "ping")) end))

abbrev wrong : Json ℕ
wrong = obj (field (codes "id") (num 4) end)

program : Unit {0}
unfolding parse_json_rpc parse_json_rpc_batch_partial is_valid_json_rpc push_valid batch_entry
    batch_entries own has_key text_dec ℕ_discrete
program = tt

half_valid :
    parse_json_rpc_batch_partial (arr (cons ping (cons wrong nil)))
    ≡ some (valid ping ∷ invalid (num 4) ∷ [])
unfolding program
half_valid = refl

parse_json_rpc_iff_example :
    (parse_json_rpc (arr (cons ping nil)) ≡ some (batch (ping ∷ [])))
    ↔ (parse_json_rpc_batch_partial (arr (cons ping nil)) ≡ some (map valid (ping ∷ [])))
parse_json_rpc_iff_example = parse_json_rpc_iff (arr (cons ping nil)) (ping ∷ [])
