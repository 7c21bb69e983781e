-- ===== src/Pipeline/Messages.antt =====
-- The messages and results that the pipeline builds.
pub mod Forwarded
use mcp_conduit.Base.{
  ℕ, Bool, true, false, not, List, [], ◌∷◌, ◌++◌, map, Option, none, some, if◌then◌else◌, is, suc,
}
use mcp_conduit.Base.Decimal.{decimal}
use mcp_conduit.Base.Json.{
  Json, null, bool, num, str, arr, obj, Numbers, entries, of_entries, items, assign, own,
}
use mcp_conduit.Base.Text.{Text, text_dec, codes}
use mcp_conduit.JsonRpc.{JsonRpcMessage, get, build_json_rpc_error, build_json_rpc_result}
use mcp_conduit.Pipeline.{CoreResult, LogEntry, LogStatus, error, Gateway}

-- `{ body }`
abbrev pub just : {N : Type 0} → Json N → CoreResult N
just body = record {
  body = body;
  cache_status = none;
  upstream_session_id = none;
  is_stream = false;
  retry_after = none;
}

abbrev pub with_status : {N : Type 0} → Json N → Text → CoreResult N
with_status body status = record (just body) { cache_status = some status }

-- `v[key]` for a value that may be no object.
abbrev pub property_of : {N : Type 0} → Text → Json N → Option (Json N)
property_of key (obj fs) = own key (entries fs)
property_of key v = none

-- `a ?? b`
abbrev pub or_else : {N : Type 0} → Option (Json N) → Json N → Json N
or_else none w = w
or_else (some null) w = w
or_else (some v) w = v

module _ {N : Type 0} (numbers : Numbers N) where
  -- Whether a value of JSON is truthy.
  unfoldable pub is_truthy : Json N → Bool
  is_truthy null = false
  is_truthy (bool b) = b
  is_truthy (num n) = not (numbers.eq n (numbers.of_nat 0))
  is_truthy (str []) = false
  is_truthy (str (c ∷ s)) = true
  is_truthy (arr vs) = true
  is_truthy (obj fs) = true

  abbrev truthy : Option (Json N) → Option (Json N)
  truthy none = none
  truthy (some v) = if is_truthy v then some v else none

  -- `body?.error`, where it is truthy.
  unfoldable pub error_in : Json N → Option (Json N)
  error_in body = truthy (property_of (codes "error") body)

  -- The code −n.
  abbrev pub code : ℕ → Json N
  code n = num (numbers.minus n)

  abbrev pub rpc_error_body : Option (Json N) → ℕ → Text → Json N
  rpc_error_body id n message = build_json_rpc_error id (code n) (str message) none

  abbrev pub log_error : ℕ → Text → LogEntry N
  log_error n message = record {
    status = error;
    error_code = some (code n);
    error_message = some (str message);
    cache_status = none;
    guardrail = none;
  }

  numbered : ℕ → List (Json N) → List (Text × Json N)
  numbered i [] = []
  numbered i (v ∷ vs) = (decimal i, v) ∷ numbered (suc i) vs

  -- `...value`
  spread : Json N → List (Text × Json N)
  unfolding numbered
  spread (obj fs) = entries fs
  spread (arr vs) = numbered 0 (items vs)
  spread (str s) = numbered 0 (map (λ c. str (c ∷ [])) s)
  spread null = []
  spread (bool b) = []
  spread (num n) = []

  abbrev is_name : Text → Option (Json N) → Bool
  is_name name (some (str s)) = is (text_dec s name)
  is_name name v = false

  rename : JsonRpcMessage N → Text → Json N → JsonRpcMessage N
  unfolding spread
  rename message name params =
      if is_name name (property_of (codes "name") params)
      then message
      else of_entries (
          assign (codes "params")
            (obj (of_entries (assign (codes "name") (str name) (spread params)))) (entries message))

  rename_in : JsonRpcMessage N → Text → Option (Json N) → JsonRpcMessage N
  unfolding rename
  rename_in message name none = message
  rename_in message name (some params) = rename message name params

  unfoldable pub build_forward_message : JsonRpcMessage N → Text → JsonRpcMessage N
  unfolding rename_in
  build_forward_message message name =
      rename_in message name (truthy (get (codes "params") message))
