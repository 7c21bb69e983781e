-- ===== src/RateLimiter.antt =====
-- The hierarchy of rate limits of src/rate-limit/rate-limiter.ts over any backend.
--
-- A backend is an interface, as in src/rate-limit/types.ts. After each of its calls the code awaits, so
-- that other requests may act on the backend: the function `others` says what they do after the n-th
-- call of an evaluation. The readings of the clock inside a backend belong to its state.
pub mod Amounts
pub mod Checks
pub mod Memory
pub mod Preview
pub mod Apart
pub mod Separation
mod Tests
use mcp_conduit.Base.{
  ℕ, zero, suc, ◌+◌, Bool, true, false, List, [], ◌∷◌, ◌++◌, keep, Option, none, some, ltb,
  if◌then◌else◌, is, not,
}
use mcp_conduit.Base.JsMap
use mcp_conduit.Base.Text.{Text, text_dec, codes}
use mcp_conduit.Limiter.{RateLimitResult}

pub record ToolRateLimitConfig : Type 0 where
  pub requests_per_minute : Option ℕ
  pub requests_per_hour : Option ℕ
  pub requests_per_day : Option ℕ

-- The three limits of an override stand in a record of their own, which `buildChecks` is given.
pub record ServerRateLimitOverride : Type 0 where
  pub server : Text
  pub limits : ToolRateLimitConfig
  pub per_tool : Option (List (Text × ToolRateLimitConfig))

-- The limits; what the configuration says of the backend and the queue is left out.
pub record RateLimitConfig : Type 0 where
  pub global : Option ToolRateLimitConfig
  pub per_client : Option ToolRateLimitConfig
  pub overrides : Option (List ServerRateLimitOverride)

pub record RateLimitCheck : Type 0 where
  pub key : Text
  pub limit : ℕ
  pub window_ms : ℕ
  pub label : Text

-- A number of requests, `Infinity` included.
pub data Amount : Type 0 where
  finite : ℕ → Amount
  infinity : Amount

-- The four fields of a refusal stand or are missing together.
pub record Blocking : Type 0 where
  pub blocked_by : Text
  pub blocking_key : Text
  pub blocking_limit : ℕ
  pub blocking_window_ms : ℕ

pub record RateLimitCheckResult : Type 0 where
  pub allowed : Bool
  pub remaining : Amount
  pub limit : Amount
  pub reset_at : ℕ
  pub retry_after : Option ℕ
  pub blocking : Option Blocking

abbrev ms_per_minute : ℕ
ms_per_minute = 60000

abbrev ms_per_hour : ℕ
ms_per_hour = 3600000

abbrev ms_per_day : ℕ
ms_per_day = 86400000

-- One `if` of `buildChecks`.
build_check : Text → Option ℕ → ℕ → Text → List RateLimitCheck
build_check key none window_ms label = []
build_check key (some n) window_ms label =
    record { key = key; limit = n; window_ms = window_ms; label = label } ∷ []

unfoldable build_checks : Text → ToolRateLimitConfig → Text → List RateLimitCheck
unfolding build_check
build_checks key config label_prefix =
    build_check key config.requests_per_minute ms_per_minute (label_prefix ++ codes "/minute")
    ++ build_check key config.requests_per_hour ms_per_hour (label_prefix ++ codes "/heure")
    ++ build_check key config.requests_per_day ms_per_day (label_prefix ++ codes "/jour")

checks_if : Text → Option ToolRateLimitConfig → Text → List RateLimitCheck
checks_if key none label_prefix = []
checks_if key (some config) label_prefix = build_checks key config label_prefix

abbrev client_key : Text → Text
client_key client = codes "client:" ++ client

abbrev server_key : Text → Text
server_key server = codes "server:" ++ server

abbrev tool_key : Text → Text → Text
tool_key server tool = server_key server ++ codes ":tool:" ++ tool

abbrev client_tool_key : Text → Text → Text → Text
client_tool_key client server tool = client_key client ++ codes ":" ++ tool_key server tool

unfoldable get_client_checks : RateLimitConfig → Text → List RateLimitCheck
unfolding checks_if
get_client_checks config client =
    checks_if (codes "global") config.global (codes "global")
    ++ checks_if (client_key client) config.per_client (codes "client")

find_override : Text → List ServerRateLimitOverride → Option ServerRateLimitOverride
find_override server [] = none
find_override server (o ∷ os) =
    if is (text_dec o.server server) then some o else find_override server os

-- `toolName && override.per_tool`, and then the tool's entry. An inherited property of the object in
-- place of an entry holds no limits, so that it gives no checks either.
tool_config : Text → ServerRateLimitOverride → Option ToolRateLimitConfig
tool_config [] override = none
tool_config (c ∷ tool) override = elim override.per_tool [
  | none ↦ none
  | some tools ↦ JsMap.get text_dec (c ∷ tool) tools
]

client_tool_checks : Text → Text → Text → ServerRateLimitOverride → List RateLimitCheck
client_tool_checks client server [] override = []
client_tool_checks client server (c ∷ tool) override =
    build_checks (client_tool_key client server (c ∷ tool)) override.limits
      (codes "client-server-tool")

override_checks : Text → Text → Text → Option ServerRateLimitOverride → List RateLimitCheck
override_checks client server tool none = []
override_checks client server tool (some override) =
    build_checks (server_key server) override.limits (codes "server")
    ++ checks_if (tool_key server tool) (tool_config tool override) (codes "tool")
    ++ client_tool_checks client server tool override

unfoldable get_server_checks : RateLimitConfig → Text → Text → Text → List RateLimitCheck
unfolding find_override tool_config client_tool_checks override_checks checks_if
get_server_checks config client server tool = elim config.overrides [
  | none ↦ []
  | some overrides ↦ override_checks client server tool (find_override server overrides)
]

unfoldable get_checks : RateLimitConfig → Text → Text → Text → List RateLimitCheck
unfolding get_client_checks get_server_checks
get_checks config client server tool =
    get_client_checks config client ++ get_server_checks config client server tool

-- The calls of a backend that the hierarchy makes, on the backend's state.
pub record RateLimitBackend (S : Type 0) : Type 0 where
  pub consume : S → Text → ℕ → ℕ → S × RateLimitResult
  pub check : S → Text → ℕ → ℕ → S × RateLimitResult
  pub reset : S → Text → S

module _ {S : Type 0} (backend : RateLimitBackend S) (others : ℕ → S → S) where
  -- `consume ? limiter.consume(…) : limiter.check(…)`
  abbrev ask : Bool → S → RateLimitCheck → S × RateLimitResult
  ask true s c = backend.consume s c.key c.limit c.window_ms
  ask false s c = backend.check s c.key c.limit c.window_ms

  -- `{ ...result, blocked_by: check.label, … }`
  abbrev blocked : RateLimitResult → RateLimitCheck → RateLimitCheckResult
  blocked r c = record {
    allowed = r.allowed;
    remaining = finite r.remaining;
    limit = finite r.limit;
    reset_at = r.reset_at;
    retry_after = r.retry_after;
    blocking = some (record {
      blocked_by = c.label;
      blocking_key = c.key;
      blocking_limit = c.limit;
      blocking_window_ms = c.window_ms;
    });
  }

  -- `{ ...result, allowed: true }`
  abbrev passed : RateLimitResult → RateLimitCheckResult
  passed r = record {
    allowed = true;
    remaining = finite r.remaining;
    limit = finite r.limit;
    reset_at = r.reset_at;
    retry_after = r.retry_after;
    blocking = none;
  }

  -- The answer when there is nothing to check.
  abbrev unlimited : ℕ → RateLimitCheckResult
  unlimited now = record {
    allowed = true;
    remaining = infinity;
    limit = infinity;
    reset_at = now + ms_per_minute;
    retry_after = none;
    blocking = none;
  }

  -- The first loop: the refusal at which it returns, and the number of calls made.
  unfoldable first_refusal :
      Bool → ℕ → List RateLimitCheck → S → S × (ℕ × Option RateLimitCheckResult)
  first_refusal mode n [] s = (s, (n, none))
  first_refusal mode n (c ∷ cs) s =
      let (s', r) = ask mode s c in
      let rest = first_refusal mode (suc n) cs (others n s') in
      if r.allowed then rest else (others n s', (suc n, some (blocked r c)))

  -- `result.remaining < mostRestrictive.remaining`
  abbrev is_below : RateLimitResult → RateLimitCheckResult → Bool
  is_below r best = elim best.remaining [ finite m ↦ ltb r.remaining m | infinity ↦ true ]

  abbrev tighter : RateLimitResult → Option RateLimitCheckResult → RateLimitCheckResult
  tighter r none = passed r
  tighter r (some best) = if is_below r best then passed r else best

  -- The second loop.
  unfoldable most_restrictive :
      ℕ → List RateLimitCheck → S → Option RateLimitCheckResult → S × Option RateLimitCheckResult
  most_restrictive n [] s best = (s, best)
  most_restrictive n (c ∷ cs) s best =
      let (s', r) = ask false s c in
      most_restrictive (suc n) cs (others n s') (some (tighter r best))

  unfoldable evaluate_checks : List RateLimitCheck → Bool → ℕ → S → S × RateLimitCheckResult
  evaluate_checks checks mode now s =
      let (s', (n, refusal)) = first_refusal mode 0 checks s in
      elim refusal [
        | some result ↦ (s', result)
        | none ↦
            let (s'', best) = most_restrictive n checks s' none in
            (s'', elim best [ some result ↦ result | none ↦ unlimited now ])
      ]

  module _ (config : RateLimitConfig) where
    unfoldable check : Text → Text → Text → ℕ → S → S × RateLimitCheckResult
    check client server tool now s =
        evaluate_checks (get_checks config client server tool) false now s

    unfoldable consume : Text → Text → Text → ℕ → S → S × RateLimitCheckResult
    consume client server tool now s =
        evaluate_checks (get_checks config client server tool) true now s

    unfoldable consume_client_limits : Text → ℕ → S → S × RateLimitCheckResult
    consume_client_limits client now s =
        evaluate_checks (get_client_checks config client) true now s

    unfoldable consume_server_limits : Text → Text → Text → ℕ → S → S × RateLimitCheckResult
    consume_server_limits client server tool now s =
        evaluate_checks (get_server_checks config client server tool) true now s

    -- `limiter.reset(…)` twice; its promise is not awaited.
    unfoldable reset_client : Text → S → S
    reset_client client s = backend.reset (backend.reset s (client_key client)) (codes "global")
