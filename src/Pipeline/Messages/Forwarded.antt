-- ===== src/Pipeline/Messages/Forwarded.antt =====
-- The message that is sent to an upstream server.
use mcp_conduit.Base.{
  ◌≡◌, ◌≢◌, refl, sym, ap, ◌∙◌, true, false, Option, none, some, arith, Bool-cases, inl, inr, ◌⊎◌,
  is, ℕ_discrete,
}
use mcp_conduit.Base.Json.{Json, str, obj, Fields, Numbers, entries, of_entries, own, assign}
use mcp_conduit.Base.Json.Objects.{entries-of_entries, own-assign, own-assign_other}
use mcp_conduit.Base.Text.{Text, text_dec, codes}
use mcp_conduit.JsonRpc.{
  JsonRpcMessage, get, extract_tool_name, extract_tool_args, as_string, object_or_empty,
}
use mcp_conduit.Pipeline.Messages.{
  build_forward_message, rename_in, rename, is_name, spread, is_truthy, property_of,
}

module _ {N : Type 0} (numbers : Numbers N) where
  args_apart : codes "arguments" ≢ codes "name"
  args_apart e = ground arith

  not_proto : is (text_dec (codes "name") (codes "__proto__")) ≡ false
  unfolding text_dec ℕ_discrete
  not_proto = refl

  params_not_proto : is (text_dec (codes "params") (codes "__proto__")) ≡ false
  unfolding text_dec ℕ_discrete
  params_not_proto = refl

  -- A message with new parameters has these, and its other fields as they were.
  get-assign :
      (message : JsonRpcMessage N) (v : Json N)
      → get (codes "params") (of_entries (assign (codes "params") v (entries message))) ≡ some v
  get-assign message v =
      ap (own (codes "params")) (entries-of_entries (assign (codes "params") v (entries message)))
      ∙ own-assign (codes "params") v (entries message) params_not_proto

  build-object :
      (message : JsonRpcMessage N) (name : Text) (params : Fields N)
      → get (codes "params") message ≡ some (obj params)
      → build_forward_message numbers message name ≡ rename numbers message name (obj params)
  unfolding build_forward_message rename_in is_truthy
  build-object message name params h = rw h refl

  is_name-as_string :
      (name : Text) (v : Option (Json N)) → is_name numbers name v ≡ true → as_string v ≡ some name
  is_name-as_string name none h = ground arith
  is_name-as_string name (some (str s)) h = ground arith
  is_name-as_string name (some v) h = ground arith

  name_lem :
      (message : JsonRpcMessage N) (params : Fields N)
      → get (codes "params") message ≡ some (obj params)
      → extract_tool_name message ≡ as_string (own (codes "name") (entries params))
  unfolding extract_tool_name
  name_lem message params h = rw h refl

  args_lem :
      (message : JsonRpcMessage N) (params : Fields N)
      → get (codes "params") message ≡ some (obj params)
      → extract_tool_args message ≡ object_or_empty (own (codes "arguments") (entries params))
  unfolding extract_tool_args
  args_lem message params h = rw h refl

  -- The parameters that are sent.
  abbrev new_params : Text → Fields N → Fields N
  new_params name params = of_entries (assign (codes "name") (str name) (entries params))

  abbrev new_message : JsonRpcMessage N → Text → Fields N → JsonRpcMessage N
  new_message message name params =
      of_entries (assign (codes "params") (obj (new_params name params)) (entries message))

  new_message_lem :
      (message : JsonRpcMessage N) (name : Text) (params : Fields N)
      → (extract_tool_name (new_message message name params) ≡ some name)
        × (extract_tool_args (new_message message name params)
            ≡ object_or_empty (own (codes "arguments") (entries params)))
  new_message_lem message name params = (
    name_lem (new_message message name params) (new_params name params)
          (get-assign message (obj (new_params name params)))
        ∙ ap (λ es. as_string (own (codes "name") es))
            (entries-of_entries (assign (codes "name") (str name) (entries params)))
        ∙ ap as_string (own-assign (codes "name") (str name) (entries params) not_proto),
    args_lem (new_message message name params) (new_params name params)
          (get-assign message (obj (new_params name params)))
        ∙ ap (λ es. object_or_empty (own (codes "arguments") es))
            (entries-of_entries (assign (codes "name") (str name) (entries params)))
        ∙ ap object_or_empty (
            own-assign_other (codes "arguments") (codes "name") (str name) (entries params)
              args_apart),
  )

  rename-cases :
      (message : JsonRpcMessage N) (name : Text) (params : Fields N)
      → ((is_name numbers name (property_of (codes "name") (obj params)) ≡ true)
          × (rename numbers message name (obj params) ≡ message))
        ⊎ (rename numbers message name (obj params) ≡ new_message message name params)
  unfolding rename spread
  rename-cases message name params =
      elim (Bool-cases (is_name numbers name (property_of (codes "name") (obj params)))) [
        | inl same ↦ inl (same, rw same refl)
        | inr other ↦ inr (rw other refl)
      ]

  -- The message that is sent for a call with parameters names the tool as its own server knows it, and
  -- has the arguments of the message that came in.
  pub build_forward_message_lem :
      (message : JsonRpcMessage N) (name : Text) (params : Fields N)
      → get (codes "params") message ≡ some (obj params)
      → (extract_tool_name (build_forward_message numbers message name) ≡ some name)
        × (extract_tool_args (build_forward_message numbers message name)
            ≡ extract_tool_args message)
  build_forward_message_lem message name params h = elim (rename-cases message name params) [
    | inl (same, e) ↦ (
      ap extract_tool_name (build-object message name params h ∙ e)
          ∙ name_lem message params h
          ∙ is_name-as_string name (own (codes "name") (entries params)) same,
      ap extract_tool_args (build-object message name params h ∙ e),
    )
    | inr e ↦ (
      ap extract_tool_name (build-object message name params h ∙ e)
          ∙ (new_message_lem message name params).0,
      ap extract_tool_args (build-object message name params h ∙ e)
          ∙ (new_message_lem message name params).1
          ∙ sym (args_lem message params h),
    )
  ]
