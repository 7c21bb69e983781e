-- ===== src/Queue.antt =====
-- The queue of blocked requests of src/rate-limit/queue.ts.
--
-- A waiting request is named by a number, in place of its two callbacks, whose calls are the outcomes.
-- All queues of a rate limiter ask the same limiter; it is passed on as a state, over the interface of
-- the backends, and reads its clock by itself.
pub mod Polling
pub mod Ticks
mod Tests
use mcp_conduit.Base.{
  ℕ, ◌+◌, Bool, true, false, not, List, [], ◌∷◌, ◌++◌, keep, length, Option, none, some, ltb, leb,
  if◌then◌else◌,
}
use mcp_conduit.Base.JsMap
use mcp_conduit.Base.Text.{Text, text_dec}
use mcp_conduit.RateLimiter.{RateLimitBackend}

pub record QueueConfig : Type 0 where
  pub enabled : Bool
  pub max_wait_ms : ℕ
  pub max_queue_size : ℕ

pub record QueueEntry : Type 0 where
  pub id : ℕ
  pub deadline : ℕ

pub record QueueKeyState : Type 0 where
  pub entries : List QueueEntry
  pub limit : ℕ
  pub window_ms : ℕ

-- `polling` is `pollTimer !== null`.
pub record RequestQueue : Type 0 where
  pub config : QueueConfig
  pub queues : List (Text × QueueKeyState)
  pub polling : Bool

abbrev pub create : QueueConfig → RequestQueue
create config = record { config = config; queues = []; polling = false }

-- What comes of a promise of the queue.
pub data Outcome : Type 0 where
  resolved timed_out stopped : ℕ → Outcome

-- What `enqueue` does: it rejects at once, or the promise waits.
pub data Reply : Type 0 where
  disabled full waiting : Reply

-- `existing?.entries ?? []`
abbrev pub entries_of : Option QueueKeyState → List QueueEntry
entries_of none = []
entries_of (some state) = state.entries

-- A key that waits already keeps the limit and the window of its first request.
abbrev push : Option QueueKeyState → QueueEntry → ℕ → ℕ → QueueKeyState
push none entry limit window_ms = record {
  entries = entry ∷ [];
  limit = limit;
  window_ms = window_ms;
}
push (some state) entry limit window_ms = record state { entries = state.entries ++ entry ∷ [] }

unfoldable pub enqueue : RequestQueue → Text → ℕ → ℕ → ℕ → ℕ → RequestQueue × Reply
enqueue q key limit window_ms id now =
    let existing = JsMap.get text_dec key q.queues in
    let entry : QueueEntry = record { id = id; deadline = now + q.config.max_wait_ms } in
    let added = record q {
      queues = JsMap.put text_dec key (push existing entry limit window_ms) q.queues;
      polling = true;
    } in
    if not q.config.enabled
    then (q, disabled)
    else (if leb q.config.max_queue_size (length (entries_of existing))
        then (q, full)
        else (added, waiting))

-- The loop that rejects the entries whose deadline has come.
abbrev pub is_live : ℕ → QueueEntry → Bool
is_live now entry = ltb now entry.deadline

abbrev pub as_outcomes : (ℕ → Outcome) → List QueueEntry → List Outcome
as_outcomes f [] = []
as_outcomes f (e ∷ es) = f e.id ∷ as_outcomes f es

abbrev pub expired : ℕ → List QueueEntry → List QueueEntry
expired now entries = keep (λ e. not (is_live now e)) entries

module _ {S : Type 0} (limiter : RateLimitBackend S) where
  -- The loop that lets requests go on while there is capacity: those that go on, and those that stay.
  unfoldable pub grant_waiting :
      Text → ℕ → ℕ → List QueueEntry → S → S × (List QueueEntry × List QueueEntry)
  grant_waiting key limit window_ms [] s = (s, ([], []))
  grant_waiting key limit window_ms (e ∷ es) s =
      let (s1, answer) = limiter.check s key limit window_ms in
      let (s2, consumed) = limiter.consume s1 key limit window_ms in
      let (s3, (granted, left)) = grant_waiting key limit window_ms es s2 in
      if answer.allowed then (s3, (e ∷ granted, left)) else (s1, ([], e ∷ es))

  unfoldable pub process_key : ℕ → Text → QueueKeyState → S → S × (List Outcome × List QueueEntry)
  process_key now key state s =
      let live = keep (is_live now) state.entries in
      let (s', (granted, left)) = grant_waiting key state.limit state.window_ms live s in
      (
        s',
        (as_outcomes timed_out (expired now state.entries) ++ as_outcomes resolved granted, left),
      )

  -- A key without entries is deleted, also when it has none to begin with.
  keep_key :
      Text
      → QueueKeyState
      → List QueueEntry
      → List (Text × QueueKeyState)
      → List (Text × QueueKeyState)
  keep_key key state [] rest = rest
  keep_key key state (e ∷ es) rest = (key, record state { entries = e ∷ es }) ∷ rest

  unfoldable pub process_keys :
      ℕ → List (Text × QueueKeyState) → S → S × (List Outcome × List (Text × QueueKeyState))
  unfolding keep_key
  process_keys now [] s = (s, ([], []))
  process_keys now ((key, state) ∷ queues) s =
      let (s', (outcomes, left)) = process_key now key state s in
      let (s'', (more, kept)) = process_keys now queues s' in
      (s'', (outcomes ++ more, keep_key key state left kept))

  -- `queues.size !== 0 && …`: the timer stops when no key waits.
  still_polling : List (Text × QueueKeyState) → Bool → Bool
  still_polling [] polling = false
  still_polling (e ∷ queues) polling = polling

  unfoldable pub process_all_pending_requests :
      RequestQueue → ℕ → S → S × (RequestQueue × List Outcome)
  unfolding still_polling
  process_all_pending_requests q now s =
      let (s', (outcomes, queues)) = process_keys now q.queues s in
      (s', (record q { queues = queues; polling = still_polling queues q.polling }, outcomes))

unfoldable pub pending_count : List (Text × QueueKeyState) → ℕ
pending_count [] = 0
pending_count ((key, state) ∷ queues) = length state.entries + pending_count queues

all_stopped : List (Text × QueueKeyState) → List Outcome
all_stopped [] = []
all_stopped ((key, state) ∷ queues) = as_outcomes stopped state.entries ++ all_stopped queues

unfoldable pub stop : RequestQueue → RequestQueue × List Outcome
unfolding all_stopped
stop q = (record q { queues = []; polling = false }, all_stopped q.queues)
