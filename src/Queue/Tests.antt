-- ===== src/Queue/Tests.antt =====
-- The queue of src/rate-limit/queue.ts over the in-memory limiter, and instances of its theorems.
use mcp_conduit.Base.{ltb, leb, map, ℕ, ◌≡◌, refl, true, List, [], ◌∷◌, ◌++◌, keep, ℕ_discrete}
use mcp_conduit.Base.Decimal.{decimal}
use mcp_conduit.Base.JsMap
use mcp_conduit.Base.Text.{Text, text_dec, codes}
use mcp_conduit.Limiter
use mcp_conduit.Limiter.{empty, get_valid, evict_if_full, storage_key}
use mcp_conduit.Queue.{
  QueueConfig, QueueEntry, QueueKeyState, resolved, timed_out, create, process_key, grant_waiting,
}
use mcp_conduit.Queue.Ticks.{StopsAt, process_key-order}
use mcp_conduit.Queue.Polling.{Event, enqueues, ticks, IsServed, run, run-IsServed}
use mcp_conduit.RateLimiter.Memory.{Memory, memory}

abbrev config : QueueConfig
config = record { enabled = true; max_wait_ms = 50; max_queue_size = 2 }

abbrev key : Text
key = codes "global"

abbrev unused : Memory
unused = record { limiter = empty 5; now = record { valid_at = 7; reset_from = 7; retry_from = 7 } }

abbrev entry : ℕ → ℕ → QueueEntry
entry id deadline = record { id = id; deadline = deadline }

-- One request a minute; three requests wait, the first of them for too long.
abbrev state : QueueKeyState
state = record { entries = entry 1 5 ∷ entry 2 9 ∷ entry 3 9 ∷ []; limit = 1; window_ms = 60000 }

second_goes_on :
    (process_key memory 7 key state unused).1 ≡ (timed_out 1 ∷ resolved 2 ∷ [], entry 3 9 ∷ [])
unfolding process_key grant_waiting memory Limiter.consume Limiter.check get_valid storage_key
    decimal text_dec JsMap.get JsMap.put JsMap.has evict_if_full ℕ_discrete
second_goes_on = refl

abbrev events : List Event
events = enqueues key 1 100 1 0 ∷ enqueues key 1 100 2 10 ∷ ticks 30 ∷ ticks 55 ∷ []

run-IsServed_example : IsServed memory (run memory (create config, unused) events).0
run-IsServed_example = run-IsServed memory config unused events

process_key-order_example :
    let (s', (outcomes, left)) = process_key memory 7 key state unused in
    (granted : List QueueEntry) × (granted ++ left ≡ keep (λ e. ltb 7 e.deadline) state.entries)
    × StopsAt memory key 1 60000 granted left unused s'
    × (outcomes
        ≡ map (λ e. timed_out e.id) (keep (λ e. leb e.deadline 7) state.entries)
          ++ map (λ e. resolved e.id) granted)
process_key-order_example = process_key-order memory key 1 60000 7 state.entries unused
