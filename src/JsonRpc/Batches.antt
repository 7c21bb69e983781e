-- ===== src/JsonRpc/Batches.antt =====
-- The two parsers of batches agree.
use mcp_conduit.Base.{◌≡◌, ◌↔◌, refl, List, [], ◌∷◌, some, map, arith, Option-cases, inl, inr}
use mcp_conduit.Base.Json.{Json, null, bool, num, str, arr, obj, items}
use mcp_conduit.JsonRpc.{
  valid, batch, push_valid, batch_entry, batch_entries, parse_json_rpc,
  parse_json_rpc_batch_partial,
}

module _ {N : Type 0} where
  push_valid→ : (vs ms : List (Json N)) → push_valid vs ≡ some ms → batch_entries vs ≡ map valid ms
  unfolding push_valid batch_entries batch_entry
  push_valid→ [] ms h = ground arith
  push_valid→ (v ∷ vs) ms h = elim (Option-cases (push_valid vs)) [
    | inl e ↦ ground (arith, e)
    | inr (rest, e) ↦ ground (arith, e, push_valid→ vs rest e)
  ]

  push_valid← : (vs ms : List (Json N)) → batch_entries vs ≡ map valid ms → push_valid vs ≡ some ms
  unfolding push_valid batch_entries batch_entry
  push_valid← [] [] h = refl
  push_valid← [] (m ∷ ms) h = ground arith
  push_valid← (v ∷ vs) [] h = ground arith
  push_valid← (v ∷ vs) (m ∷ ms) h = ground (arith, push_valid← vs ms)

  -- The strict parser accepts a batch with the messages `ms` exactly when the partial one returns these
  -- messages, each as a valid entry.
  pub parse_json_rpc_iff :
      (body : Json N) (ms : List (Json N))
      → (parse_json_rpc body ≡ some (batch ms))
        ↔ (parse_json_rpc_batch_partial body ≡ some (map valid ms))
  unfolding parse_json_rpc parse_json_rpc_batch_partial
  parse_json_rpc_iff null ms = (λ h. ground arith, λ h. ground arith)
  parse_json_rpc_iff (bool b) ms = (λ h. ground arith, λ h. ground arith)
  parse_json_rpc_iff (num n) ms = (λ h. ground arith, λ h. ground arith)
  parse_json_rpc_iff (str s) ms = (λ h. ground arith, λ h. ground arith)
  parse_json_rpc_iff (obj fs) ms = (λ h. ground arith, λ h. ground arith)
  parse_json_rpc_iff (arr vs) ms = (
    λ h. ground (arith, push_valid→ (items vs) ms),
    λ h. ground (arith, push_valid← (items vs) ms),
  )
