-- ===== src/Pipeline.antt =====
-- The types of the request pipeline of src/gateway/pipeline.ts.
--
-- A request leaves a history of events, the newest first: every effect of the pipeline on a component
-- outside of it. What such a component answers is a function of the history so far, so that the state
-- of the component and what other requests do in the meantime are both left open: the record `Gateway`
-- is the interface of the components and of the configuration. `N` is the type of the numbers of JSON,
-- `B` that of the values that objects inherit, `K` that of the cache keys and `C` that of the clients of
-- upstream servers. Sizes of responses, times and the labels' sanitising are left out of log entries and
-- metrics, and the raw response of a stream is left out of a result.
pub mod Resolution
pub mod Approvals
pub mod Limits
pub mod Gates
pub mod Messages
pub mod Forwarding
pub mod ToolCall
pub mod ToolsList
pub mod Handle
pub mod Monitor
pub mod Upstream
pub mod Tenants
pub mod Visibility
mod Tests
use mcp_conduit.Acl.{AclPolicy}
use mcp_conduit.Acl as AccessControl
use mcp_conduit.Base.{ℕ, Bool, List, [], ◌∷◌, Option, none, some, ◌⊎◌}
use mcp_conduit.Base.Json.{Json, Fields, Numbers}
use mcp_conduit.Base.Text.{Text}
use mcp_conduit.CachePolicy.{ServerCacheConfig}
use mcp_conduit.Guardrails.{GuardrailsConfig, Builtins}
use mcp_conduit.JsonRpc.{JsonRpcMessage}
use mcp_conduit.Tools.{ToolAnnotations}

pub record RequestContext : Type 0 where
  pub trace_id : Text
  pub auth_header : Option Text
  pub group_header : Option Text
  pub session_id : Option Text
  pub raw_headers : List (Text × Text)

pub record CoreResult (N : Type 0) : Type 0 where
  pub body : Json N
  pub cache_status : Option Text
  pub upstream_session_id : Option Text
  pub is_stream : Bool
  pub retry_after : Option ℕ

-- What is thrown: an `UpstreamIdentityError`, an `UpstreamRpcError`, or another error.
pub data Thrown (N : Type 0) : Type 0 where
  identity_error : Text → Thrown N
  rpc_error : Json N → Json N → Thrown N
  other_error : Text → Thrown N

pub data HookName : Type 0 where
  before_request after_auth before_cache after_upstream before_response : HookName

pub data LogStatus : Type 0 where
  success error cache_hit : LogStatus

pub record LogEntry (N : Type 0) : Type 0 where
  pub status : LogStatus
  pub error_code : Option (Json N)
  pub error_message : Option (Json N)
  pub cache_status : Option Text
  -- The rule and the action, for `guardrailRule` and `guardrailAction`.
  pub guardrail : Option (Text × Text)

-- The counters of `metrics`, with their labels, and the gauge of the cache's entries.
pub data Metric : Type 0 where
  auth_failures : Text → Metric
  acl_denials : Text → Text → Text → Metric
  guardrail_actions : Text → Text → Text → Metric
  rate_limit_rejections : Text → Text → Text → Metric
  requests : Text → Text → Text → Metric
  dedup_coalesced : Text → Text → Metric
  upstream_errors : Text → Metric
  cache_entries : Metric

pub record CacheEntry (N : Type 0) : Type 0 where
  pub result : Json N
  pub created_at : ℕ
  pub ttl : ℕ
  pub tool_name : Text
  pub server_id : Text

-- A tool of a server with the arguments of a call.
pub record Target (N : Type 0) : Type 0 where
  pub server_id : Text
  pub tool_name : Text
  pub args : Fields N

pub data Event (N K C : Type 0) : Type 0 where
  hook_ran : HookName → Event N K C
  authenticated : Bool → Event N K C
  client_selected : Text → Event N K C
  tool_resolved : Text → Event N K C
  counted : Metric → Event N K C
  logged : LogEntry N → Event N K C
  audited : Text → Event N K C
  webhook_sent : Text → Text → Event N K C
  -- Whether the approval holds for the call.
  approval_checked : Target N → Bool → Event N K C
  approval_created : Target N → Text → Event N K C
  quota_consumed : Bool → Event N K C
  client_limits_consumed : Text → Bool → Event N K C
  server_limits_consumed : Text → Text → Text → Bool → Event N K C
  l1_deleted : Text → Text → Event N K C
  l2_deleted : Text → Text → Event N K C
  l1_skipped : Event N K C
  -- Whether there was an entry.
  l1_read : K → Bool → Event N K C
  l2_read : K → Bool → Event N K C
  l1_written : K → CacheEntry N → Event N K C
  l2_written : K → CacheEntry N → ℕ → Event N K C
  joined : K → Event N K C
  -- A request to an upstream server, with the headers that are added.
  forwarded : C → Text → JsonRpcMessage N → List (Text × Text) → Event N K C
  annotations_updated : Text → List Text → Event N K C

abbrev pub History : Type 0 → Type 0 → Type 0 → Type 0
History N K C = List (Event N K C)

pub data AuthMethod : Type 0 where
  method_none method_other : AuthMethod

pub record AclConfig : Type 0 where
  pub enabled : Bool
  pub policies : List AclPolicy
  pub default_action : AccessControl.DefaultAction

pub record TenantIsolation : Type 0 where
  pub enabled : Bool
  pub header : Text

pub record ServerConfig : Type 0 where
  pub id : Text
  pub cache : ServerCacheConfig
  pub has_upstream_auth : Bool
  pub forward_authorization : Bool

pub record Config (N : Type 0) : Type 0 where
  pub auth : Option AuthMethod
  pub acl : Option AclConfig
  pub guardrails : Option (GuardrailsConfig N)
  -- `this.config.rate_limits?.enabled && this.rateLimiter`
  pub limits_enabled : Bool
  pub cache_enabled : Bool
  pub tenant_isolation : TenantIsolation
  pub servers : List ServerConfig
  -- The factor of the second cache's times to live, where there is a second cache.
  pub l2_ttl_multiplier : Option ℕ

pub data AuthResult : Type 0 where
  accepted : Text → Text → AuthResult
  rejected : Text → AuthResult

pub data PolicyEffect : Type 0 where
  effect_allow effect_deny effect_require_approval : PolicyEffect

pub record PolicyDecision : Type 0 where
  pub effect : PolicyEffect
  pub policy_name : Text
  pub reason : Text

-- An answer of a limit: nothing when it is granted, or what blocks and for how many seconds.
abbrev pub Refusal : Type 0
Refusal = Option (Option Text × Option ℕ)

pub record UpstreamResponse (N : Type 0) : Type 0 where
  pub body : Json N
  pub session : Option Text
  pub streams : Bool

-- The workspace's decisions.
pub record Governance (N K C : Type 0) : Type 0 where
  pub is_enabled : Bool
  pub workspace : Text → Text → Text
  -- The roles of a client in a workspace, as the data of an error shows them.
  pub roles : Text → Text → Json N
  -- Of a client and its tenant, for a server and a tool.
  pub tool_policy : Text → Text → Text → Text → PolicyDecision
  pub can_view : Text → Text → Text → Text → Bool
  pub quota : Text → History N K C → Refusal
  pub verify_grant : Text → Text → Text → Target N → History N K C → Bool
  -- The data of the error for a new request.
  pub approval_data : Target N → History N K C → Json N

pub record Gateway (N B K C : Type 0) : Type 0 where
  pub config : Config N
  pub numbers : Numbers N
  pub builtins : Builtins N B
  pub regex : Text → Text → Option Bool
  pub inherited : Text → Bool
  pub lower_case : Text → Text
  pub digest : Json N → K
  pub extract_tenant_id : Option Text → Option Text
  pub now : History N K C → ℕ
  pub authenticate : RequestContext → History N K C → AuthResult
  pub hook : HookName → History N K C → Option (CoreResult N)
  pub profile_servers : Text → Option (List Text)
  pub client_for_server : Text → History N K C → Option C
  pub resolve_tool_name : Text → History N K C → Option (Text × Text)
  pub resolve_tool_call : Text → History N K C → Option (Text × Text × C)
  pub annotations : Text → Text → History N K C → ToolAnnotations
  pub governance : Governance N K C
  pub client_limits : Text → History N K C → Refusal
  pub server_limits : Text → Text → Text → History N K C → Refusal
  pub l1_get : K → History N K C → Option (CacheEntry N)
  pub l2_get : K → History N K C → Option (CacheEntry N)
  -- What a request in flight with the same key ends with, where there is one.
  pub in_flight : K → History N K C → Option (Json N ⊎ Thrown N)
  -- The headers of the identity, or the text of an `UpstreamIdentityError`.
  pub upstream_headers : Text → Text → Text → Text ⊎ List (Text × Text)
  pub forward : C → Text → JsonRpcMessage N → History N K C → UpstreamResponse N ⊎ Thrown N
  pub tool_not_found : Option (Json N) → Text → Json N
  pub server_unavailable : Option (Json N) → Text → Json N
  -- The answer to `initialize` on a profile: the result and the session.
  pub profile_info : Text → Json N × Text

-- How a step of the pipeline ends: it goes on, returns a result early, or throws.
pub data Outcome (N A : Type 0) : Type 0 where
  next : A → Outcome N A
  answer : CoreResult N → Outcome N A
  raise : Thrown N → Outcome N A

abbrev pub Step : Type 0 → Type 0 → Type 0 → Type 0 → Type 0
Step N K C A = History N K C → Outcome N A × History N K C

abbrev pub after :
    {N K C A B : Type 0}
    → Outcome N A × History N K C
    → (A → Step N K C B)
    → Outcome N B × History N K C
after (next a, h) f = f a h
after (answer r, h) f = (answer r, h)
after (raise e, h) f = (raise e, h)

infixl 5 ◌>>=◌ ◌>>◌
abbrev pub ◌>>=◌ : {N K C A B : Type 0} → Step N K C A → (A → Step N K C B) → Step N K C B
◌>>=◌ m f h = after (m h) f

abbrev pub ◌>>◌ : {N K C B : Type 0} → Step N K C (Unit {0}) → Step N K C B → Step N K C B
m >> k = m >>= λ _. k

module _ {N K C : Type 0} where
  abbrev pub pure : {A : Type 0} → A → Step N K C A
  pure a h = (next a, h)

  abbrev pub return : {A : Type 0} → CoreResult N → Step N K C A
  return r h = (answer r, h)

  abbrev pub throw : {A : Type 0} → Thrown N → Step N K C A
  throw e h = (raise e, h)

  abbrev pub emit : Event N K C → Step N K C (Unit {0})
  emit e h = (next tt, e ∷ h)

  -- An answer that depends on the history.
  abbrev pub ask : {A : Type 0} → (History N K C → A) → Step N K C A
  ask f h = (next (f h), h)
