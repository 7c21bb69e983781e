-- ===== src/Limiter/Tests.antt =====
-- The limiter of src/rate-limit/limiter.ts on concrete requests, and instances of its theorems.
use mcp_conduit.Base.{
  ℕ, ◌≤◌, ◌<◌, ◌≡◌, ◌≢◌, ◌↔◌, ◌⊎◌, refl, true, false, none, some, arith, List, [], ◌∷◌, ◌++◌,
  length, ℕ_discrete, ltb→lt,
}
use mcp_conduit.Base.Decimal.{decimal}
use mcp_conduit.Base.JsMap
use mcp_conduit.Base.Text.{Text, text_dec, codes, starts_with}
use mcp_conduit.Limiter.{
  SlidingWindowLimiter, Readings, empty, evict_if_full, storage_key, consume, get_valid, reset,
}
use mcp_conduit.Limiter.Bounds.{Call, checks, consumes, resets, asks_usage, run, run-bounded}
use mcp_conduit.Limiter.History.{Request, AreOrdinary, last_time, serve, consume_for, consume-exact}
use mcp_conduit.Limiter.Keys.{colon}
use mcp_conduit.Limiter.Tracking.{granted}
use mcp_conduit.Limiter.Resets.{reset-keys}

abbrev ann : Text
ann = codes "ann"

abbrev bob : Text
bob = codes "bob"

abbrev at : ℕ → Readings
at t = record { valid_at = t; reset_from = t; retry_from = t }

abbrev ask : Text → ℕ → Request
ask key t = record { key = key; limit = 2; window_ms = 100; now = at t }

-- Two requests of one key, and one of another.
abbrev early : List Request
early = ask ann 10 ∷ ask bob 20 ∷ ask ann 30 ∷ []

-- Everything that the limiter does with these requests.
program : Unit {0}
unfolding serve AreOrdinary last_time granted consume get_valid storage_key decimal text_dec
    starts_with JsMap.get JsMap.put JsMap.has evict_if_full ℕ_discrete
program = tt

third_refused : (consume_for (serve (empty 5) [] early).0 (ask ann 109)).1.allowed ≡ false
unfolding program
third_refused = refl

third_waits : (consume_for (serve (empty 5) [] early).0 (ask ann 109)).1.retry_after ≡ some 1
unfolding program
third_waits = refl

third_after_window : (consume_for (serve (empty 5) [] early).0 (ask ann 111)).1.allowed ≡ true
unfolding program
third_after_window = refl

early-AreOrdinary : AreOrdinary (empty 5) 0 early
unfolding program
early-AreOrdinary = (
  (omega arith, omega arith, omega arith),
  ((ltb→lt _ 5 refl, omega arith, omega arith), ((ltb→lt _ 5 refl, omega arith, omega arith), tt)),
)

early-last_time : last_time 0 early ≤ 109
unfolding program
early-last_time = omega arith

consume-exact_example :
    let (l, log) = serve (empty 5) [] early in
    ((consume_for l (ask ann 109)).1.allowed ≡ true)
    ↔ (granted log (storage_key ann 100) 100 109 < 2)
consume-exact_example = consume-exact 5 early (ask ann 109) early-AreOrdinary early-last_time

abbrev calls : List Call
calls =
    consumes ann 2 100 (at 1)
    ∷ checks ann 2 100 (at 2)
    ∷ asks_usage bob 100 3 3
    ∷ consumes bob 1 50 (at 4)
    ∷ resets ann
    ∷ []

run-bounded_example : length (run (empty 1) calls).store ≤ 1
run-bounded_example = run-bounded 1 calls (omega arith)

abbrev used : SlidingWindowLimiter
used = (consume (empty 5) ann 2 100 (at 10)).0

reset-keys_example :
    let bucket = JsMap.get text_dec (storage_key (codes "ann:x") 100) in
    ((codes "ann:x" ≡ ann) ⊎ (starts_with (ann ++ colon ∷ []) (codes "ann:x") ≡ true)
      → bucket (reset used ann).store ≡ none)
    × (codes "ann:x" ≢ ann
        → starts_with (ann ++ colon ∷ []) (codes "ann:x") ≡ false
        → bucket (reset used ann).store ≡ bucket used.store)
reset-keys_example = reset-keys used ann (codes "ann:x") 100
