-- ===== src/RateLimiter/Tests.antt =====
-- The rate limits of src/rate-limit/rate-limiter.ts over the in-memory limiter, on concrete requests.
use mcp_conduit.Base.{
  ℕ, ◌≡◌, refl, true, false, none, some, List, [], ◌∷◌, ◌++◌, length, ℕ_discrete, Elem,
}
use mcp_conduit.Base.Decimal.{decimal}
use mcp_conduit.Base.JsMap
use mcp_conduit.Base.Text.{Text, text_dec, codes, starts_with}
use mcp_conduit.Limiter
use mcp_conduit.Limiter.{RateLimitResult, empty, storage_key, get_valid, evict_if_full}
use mcp_conduit.RateLimiter.{
  RateLimitConfig, ToolRateLimitConfig, RateLimitCheck, finite, get_checks, get_client_checks,
  evaluate_checks, first_refusal, most_restrictive, build_checks, get_server_checks, ask, blocked,
  consume, check,
}
use mcp_conduit.RateLimiter.Amounts.{AtMost}
use mcp_conduit.RateLimiter.Checks.{
  IsAttained, answers, after, evaluate_checks-refused, evaluate_checks-allowed,
}
use mcp_conduit.RateLimiter.Memory.{Memory, memory}
use mcp_conduit.RateLimiter.Preview.{alone}
use mcp_conduit.RateLimiter.Separation.{preview-consume}

abbrev per_minute : ℕ → ToolRateLimitConfig
per_minute n = record {
  requests_per_minute = some n;
  requests_per_hour = none;
  requests_per_day = none;
}

-- Ten requests a minute in all, and one for each client.
abbrev config : RateLimitConfig
config = record {
  global = some (per_minute 10);
  per_client = some (per_minute 1);
  overrides = none;
}

abbrev ann : Text
ann = codes "ann"

abbrev unused : Memory
unused = record { limiter = empty 5; now = record { valid_at = 7; reset_from = 7; retry_from = 7 } }

abbrev checks : List RateLimitCheck
checks = get_checks config ann [] []

program : Unit {0}
unfolding get_checks get_client_checks get_server_checks build_checks evaluate_checks first_refusal
    most_restrictive Limiter.consume Limiter.check get_valid storage_key decimal text_dec
    starts_with JsMap.get JsMap.put JsMap.has evict_if_full ℕ_discrete memory consume
program = tt

-- The second request of a client is refused, and has taken its part of the global limit all the same.
abbrev served : Memory
served = (evaluate_checks memory alone checks true 7 unused).0

second_refused : (evaluate_checks memory alone checks true 7 served).1.allowed ≡ false
unfolding program
second_refused = refl

first_remaining : (consume memory alone config ann [] [] 7 unused).1.remaining ≡ finite 0
unfolding program
first_remaining = refl

first_allowed : (evaluate_checks memory alone checks true 7 unused).1.allowed ≡ true
unfolding program
first_allowed = refl

global_spent :
    (Limiter.get_usage
      (evaluate_checks memory alone checks true 7 served).0.limiter
      (codes "global")
      60000
      7
      7).1.0
    ≡ 2
unfolding program Limiter.get_usage
global_spent = refl

evaluate_checks-refused_example :
    (granted : List RateLimitCheck) × (refused : RateLimitCheck) × (rest : List RateLimitCheck)
    × (checks ≡ granted ++ refused ∷ rest)
    × ((r : RateLimitResult)
        → Elem r (answers memory alone true 0 granted served)
        → r.allowed ≡ true)
    × (let (s', r) = ask memory alone true (after memory alone true 0 granted served) refused in
        (r.allowed ≡ false)
        × (evaluate_checks memory alone checks true 7 served
            ≡ (alone (length granted) s', blocked memory alone r refused)))
evaluate_checks-refused_example =
    evaluate_checks-refused memory alone checks true 7 served second_refused

evaluate_checks-allowed_example :
    let remaining = (evaluate_checks memory alone checks true 7 unused).1.remaining in
    let second_look =
      answers memory alone false (length checks) checks (after memory alone true 0 checks unused) in
    ((r : RateLimitResult) → Elem r (answers memory alone true 0 checks unused) → r.allowed ≡ true)
    × ((r : RateLimitResult) → Elem r second_look → AtMost remaining (finite r.remaining))
    × IsAttained memory alone remaining checks second_look
evaluate_checks-allowed_example =
    evaluate_checks-allowed memory alone checks true 7 unused first_allowed

unused_preview : (check memory alone config ann [] [] 7 unused).1.allowed ≡ true
unfolding program check
unused_preview = refl

preview-consume_example : (consume memory alone config ann [] [] 7 unused).1.allowed ≡ true
preview-consume_example = preview-consume config ann [] [] 7 unused tt unused_preview
