-- ===== src/JsonRpc.antt =====
-- The JSON-RPC messages of src/proxy/json-rpc.ts. A body is a value of JSON, and a valid message is an
-- object: its fields are kept as they came. The names that the code reads are none of those that
-- objects inherit, so that an own property decides.
pub mod Batches
mod Tests
use mcp_conduit.Base.{
  ℕ, suc, Bool, true, false, ◌&&◌, ◌||◌, List, [], ◌∷◌, ◌++◌, Option, none, some, if◌then◌else◌, is,
  leb, length,
}
use mcp_conduit.Base.Json.{
  Json, null, bool, num, str, arr, obj, Items, nil, cons, Fields, end, field, Numbers, entries,
  items, own, has_key,
}
use mcp_conduit.Base.Text.{Text, text_dec, codes}

-- A JSON-RPC message: an object.
abbrev pub JsonRpcMessage : Type 0 → Type 0
JsonRpcMessage N = Fields N

abbrev pub max_batch_size : ℕ
max_batch_size = 100

-- The property `key` of a message, where it has one.
abbrev pub get : {N : Type 0} → Text → JsonRpcMessage N → Option (Json N)
get key message = own key (entries message)

abbrev is_text : {N : Type 0} → Text → Option (Json N) → Bool
is_text s (some (str t)) = is (text_dec s t)
is_text s v = false

abbrev is_string : {N : Type 0} → Option (Json N) → Bool
is_string (some (str t)) = true
is_string v = false

-- `typeof v === 'string'`, with the string.
abbrev pub as_string : {N : Type 0} → Option (Json N) → Option Text
as_string (some (str t)) = some t
as_string v = none

-- What the parser returns: one message or a batch.
pub data Parsed (N : Type 0) : Type 0 where
  single : Json N → Parsed N
  batch : List (Json N) → Parsed N

-- An entry of a batch: the message, or a place for an invalid one with its identifier.
pub data BatchEntry (N : Type 0) : Type 0 where
  valid : Json N → BatchEntry N
  invalid : Json N → BatchEntry N

module _ {N : Type 0} where
  abbrev is_valid_object : Fields N → Bool
  is_valid_object fs =
      is_text (codes "2.0") (get (codes "jsonrpc") fs)
      && (is_string (get (codes "method") fs)
          || has_key (codes "result") (entries fs)
          || has_key (codes "error") (entries fs))

  unfoldable pub is_valid_json_rpc : Json N → Bool
  is_valid_json_rpc (obj fs) = is_valid_object fs
  is_valid_json_rpc null = false
  is_valid_json_rpc (bool b) = false
  is_valid_json_rpc (num n) = false
  is_valid_json_rpc (str s) = false
  is_valid_json_rpc (arr vs) = false

  -- The loop over a batch: nothing when a message is invalid.
  unfoldable pub push_valid : List (Json N) → Option (List (Json N))
  push_valid [] = some []
  push_valid (v ∷ vs) =
      let rest = push_valid vs in
      if is_valid_json_rpc v then elim rest [ none ↦ none | some ms ↦ some (v ∷ ms) ] else none

  -- `body.length === 0 || body.length > MAX_BATCH_SIZE`, the other way round.
  abbrev pub has_batch_size : List (Json N) → Bool
  has_batch_size [] = false
  has_batch_size (v ∷ vs) = leb (length (v ∷ vs)) max_batch_size

  abbrev as_batch : Option (List (Json N)) → Option (Parsed N)
  as_batch none = none
  as_batch (some ms) = some (batch ms)

  unfoldable pub parse_json_rpc : Json N → Option (Parsed N)
  unfolding push_valid
  parse_json_rpc (arr vs) =
      if has_batch_size (items vs) then as_batch (push_valid (items vs)) else none
  parse_json_rpc (obj fs) = if is_valid_json_rpc (obj fs) then some (single (obj fs)) else none
  parse_json_rpc null = none
  parse_json_rpc (bool b) = none
  parse_json_rpc (num n) = none
  parse_json_rpc (str s) = none

  abbrev id_or_null : Option (Json N) → Json N
  id_or_null (some (str s)) = str s
  id_or_null (some (num n)) = num n
  id_or_null v = null

  -- The identifier of an entry that is no valid message, where it is text or a number.
  abbrev pub raw_id : Json N → Json N
  raw_id (obj fs) = id_or_null (get (codes "id") fs)
  raw_id null = null
  raw_id (bool b) = null
  raw_id (num n) = null
  raw_id (str s) = null
  raw_id (arr vs) = null

  unfoldable pub batch_entry : Json N → BatchEntry N
  batch_entry v = if is_valid_json_rpc v then valid v else invalid (raw_id v)

  unfoldable pub batch_entries : List (Json N) → List (BatchEntry N)
  batch_entries [] = []
  batch_entries (v ∷ vs) = batch_entry v ∷ batch_entries vs

  unfoldable pub parse_json_rpc_batch_partial : Json N → Option (List (BatchEntry N))
  parse_json_rpc_batch_partial (arr vs) =
      if has_batch_size (items vs) then some (batch_entries (items vs)) else none
  parse_json_rpc_batch_partial null = none
  parse_json_rpc_batch_partial (bool b) = none
  parse_json_rpc_batch_partial (num n) = none
  parse_json_rpc_batch_partial (str s) = none
  parse_json_rpc_batch_partial (obj fs) = none

  -- `id ?? null`
  abbrev pub id_of : Option (Json N) → Json N
  id_of none = null
  id_of (some v) = v

  unfoldable pub build_json_rpc_result : Option (Json N) → Json N → Json N
  build_json_rpc_result id result = obj (
      field (codes "jsonrpc") (str (codes "2.0"))
        (field (codes "id") (id_of id) (field (codes "result") result end)))

  abbrev data_field : Option (Json N) → Fields N
  data_field none = end
  data_field (some v) = field (codes "data") v end

  unfoldable pub build_json_rpc_error : Option (Json N) → Json N → Json N → Option (Json N) → Json N
  build_json_rpc_error id code message extra = obj (
      field (codes "jsonrpc") (str (codes "2.0")) (
        field (codes "id") (id_of id) (
          field (codes "error")
            (obj (field (codes "code") code (field (codes "message") message (data_field extra))))
            end)))

  abbrev name_in : Option (Json N) → Option Text
  name_in (some (obj params)) = as_string (get (codes "name") params)
  name_in v = none

  unfoldable pub extract_tool_name : JsonRpcMessage N → Option Text
  extract_tool_name message = name_in (get (codes "params") message)

  abbrev pub object_or_empty : Option (Json N) → Fields N
  object_or_empty (some (obj args)) = args
  object_or_empty v = end

  abbrev arguments_in : Option (Json N) → Fields N
  arguments_in (some (obj params)) = object_or_empty (get (codes "arguments") params)
  arguments_in v = end

  unfoldable pub extract_tool_args : JsonRpcMessage N → Fields N
  extract_tool_args message = arguments_in (get (codes "params") message)
