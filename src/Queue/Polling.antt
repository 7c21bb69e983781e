-- ===== src/Queue/Polling.antt =====
-- The queue of src/rate-limit/queue.ts under requests, ticks of its timer and stops.
use mcp_conduit.Base.{
  ℕ, ◌+◌, ◌≤◌, ◌<◌, ◌≡◌, ◌≢◌, refl, Bool, true, false, not, List, [], ◌∷◌, ◌++◌, keep, length,
  arith, Option, none, some, leb, inl, inr, Bool-cases, Elem, ap, ◌∙◌, ◌⊎◌, length-append,
  length-keep-le,
}
use mcp_conduit.Base.JsMap
use mcp_conduit.Base.Text.{Text, text_dec}
use mcp_conduit.RateLimiter.{RateLimitBackend}
use mcp_conduit.Queue.{
  QueueConfig, QueueEntry, QueueKeyState, RequestQueue, create, entries_of, push, enqueue, is_live,
  grant_waiting, process_key, keep_key, process_keys, still_polling, process_all_pending_requests,
  stop,
}

-- What happens to a queue: a request comes, the timer ticks, or the queue is stopped.
pub data Event : Type 0 where
  enqueues : Text → ℕ → ℕ → ℕ → ℕ → Event
  ticks : ℕ → Event
  stops : Event

module _ {S : Type 0} (limiter : RateLimitBackend S) where
  pub grant_waiting-split :
      (key : Text) (limit w : ℕ) (es : List QueueEntry) (s : S)
      → let (granted, left) = (grant_waiting limiter key limit w es s).1 in granted ++ left ≡ es
  unfolding grant_waiting
  grant_waiting-split key limit w [] s = refl
  grant_waiting-split key limit w (e ∷ es) s =
      let (s1, answer) = limiter.check s key limit w in
      ground (arith, grant_waiting-split key limit w es (limiter.consume s1 key limit w).0)

  process_key-length :
      (now : ℕ) (key : Text) (state : QueueKeyState) (s : S)
      → length (process_key limiter now key state s).1.1 ≤ length state.entries
  unfolding process_key
  process_key-length now key state s =
      let live = keep (is_live now) state.entries in
      let out = (grant_waiting limiter key state.limit state.window_ms live s).1 in
      omega (
        arith,
        length-append out.0 out.1,
        ap length (grant_waiting-split key state.limit state.window_ms live s),
        length-keep-le (is_live now) state.entries,
      )

  -- A timer runs whenever a key waits, each key has requests, and at most as many as allowed.
  abbrev pub IsServed : RequestQueue → Type 0
  IsServed q =
      ((key : Text) (state : QueueKeyState)
        → Elem (key, state) q.queues
        → (0 < length state.entries) × (length state.entries ≤ q.config.max_queue_size))
      × (q.queues ≢ [] → q.polling ≡ true)

  unfoldable pub step : RequestQueue × S → Event → RequestQueue × S
  step (q, s) (enqueues key limit w id now) = ((enqueue q key limit w id now).0, s)
  step (q, s) (ticks now) =
      let (s', (q', _)) = process_all_pending_requests limiter q now s in (q', s')
  step (q, s) stops = ((stop q).0, s)

  keep_key-Elem :
      (k : Text) (before : QueueKeyState) (left : List QueueEntry)
      (rest : List (Text × QueueKeyState)) (key : Text) (state : QueueKeyState)
      → Elem (key, state) (keep_key limiter k before left rest)
      → ((0 < length state.entries) × (key ≡ k) × (state.entries ≡ left)) ⊎ Elem (key, state) rest
  unfolding keep_key
  keep_key-Elem k before [] rest key state m = inr m
  keep_key-Elem k before (e ∷ es) rest key state (inl same) = inl (
    omega (arith, ap (λ p. length p.1.entries) same),
    ap (λ p. p.0) same,
    ap (λ p. p.1.entries) same,
  )
  keep_key-Elem k before (e ∷ es) rest key state (inr m) = inr m

  process_keys-none :
      (now : ℕ) (queues : List (Text × QueueKeyState)) (s : S)
      → queues ≡ []
      → (process_keys limiter now queues s).1.1 ≡ []
  unfolding process_keys
  process_keys-none now [] s e = refl
  process_keys-none now (x ∷ xs) s e = ground arith

  still_polling-id :
      (queues : List (Text × QueueKeyState)) (polling : Bool)
      → queues ≢ []
      → still_polling limiter queues polling ≡ polling
  unfolding still_polling
  still_polling-id [] polling h = absurd (h refl)
  still_polling-id (x ∷ xs) polling h = refl

  process_keys-Elem :
      (now : ℕ) (queues : List (Text × QueueKeyState)) (s : S) (key : Text) (state : QueueKeyState)
      → Elem (key, state) (process_keys limiter now queues s).1.1
      → (0 < length state.entries)
        × ((before : QueueKeyState) × Elem (key, before) queues
            × (length state.entries ≤ length before.entries))
  unfolding process_keys keep_key
  process_keys-Elem now [] s key state m = absurd m
  process_keys-Elem now ((k, before) ∷ queues) s key state m =
      let (s', (_, left)) = process_key limiter now k before s in
      let short = process_key-length now k before s in
      let later = process_keys-Elem now queues s' key state in
      elim (keep_key-Elem k before left (process_keys limiter now queues s').1.1 key state m) [
        | inl (positive, same, entries) ↦ (
          positive,
          (before, inl (ap (λ x. (x, before)) same), omega (arith, short, ap length entries)),
        )
        | inr rest ↦ let (positive, (b, there, le)) = later rest in (positive, (b, inr there, le))
      ]

  put-Elem :
      (key : Text) (new : QueueKeyState) (queues : List (Text × QueueKeyState)) (k : Text)
      (state : QueueKeyState)
      → Elem (k, state) (JsMap.put text_dec key new queues)
      → (state ≡ new) ⊎ Elem (k, state) queues
  unfolding JsMap.put
  put-Elem key new [] k state (inl same) = inl (ap (λ p. p.1) same)
  put-Elem key new [] k state (inr m) = absurd m
  put-Elem key new ((j, old) ∷ queues) k state m = ground (arith, put-Elem key new queues k state)

  push-length :
      (existing : Option QueueKeyState) (entry : QueueEntry) (limit w : ℕ)
      → length (push existing entry limit w).entries ≡ length (entries_of existing) + 1
  push-length none entry limit w = omega arith
  push-length (some state) entry limit w = length-append state.entries (entry ∷ [])

  -- The state that `enqueue` leaves when it lets the request wait.
  abbrev added : RequestQueue → Text → QueueEntry → ℕ → ℕ → RequestQueue
  added q key entry limit w = record q {
    queues = JsMap.put text_dec key (push (JsMap.get text_dec key q.queues) entry limit w) q.queues;
    polling = true;
  }

  added-IsServed :
      (q : RequestQueue) (key : Text) (entry : QueueEntry) (limit w : ℕ)
      → IsServed q
      → leb q.config.max_queue_size (length (entries_of (JsMap.get text_dec key q.queues))) ≡ false
      → IsServed (added q key entry limit w)
  added-IsServed q key entry limit w (lengths, timer) room = (
    λ k state m.
        let grown = push-length (JsMap.get text_dec key q.queues) entry limit w in
        elim (put-Elem key (push (JsMap.get text_dec key q.queues) entry limit w) q.queues k state
          m) [
            | inl same ↦
                let size = ap (λ st. length st.entries) same in
                (omega (arith, size, grown), ground (arith, size, grown, room))
            | inr there ↦ lengths k state there
          ],
    λ h. refl,
  )

  enqueue-IsServed :
      (q : RequestQueue) (key : Text) (limit w id now : ℕ)
      → IsServed q
      → IsServed (enqueue q key limit w id now).0
  unfolding enqueue
  enqueue-IsServed q key limit w id now served =
      let existing = JsMap.get text_dec key q.queues in
      elim (Bool-cases (not q.config.enabled)) [
        | inl off ↦ rw off served
        | inr on ↦ elim (Bool-cases (leb q.config.max_queue_size (length (entries_of existing)))) [
          | inl taken ↦ rw (on, taken) served
          | inr room ↦ rw (on, room) (added-IsServed q key _ limit w served room)
        ]
      ]

  tick-IsServed :
      (q : RequestQueue) (now : ℕ) (s : S)
      → IsServed q
      → IsServed (process_all_pending_requests limiter q now s).1.0
  unfolding process_all_pending_requests still_polling
  tick-IsServed q now s (lengths, timer) = (
    λ key state m.
        let (positive, (before, there, le)) = process_keys-Elem now q.queues s key state m in
        (positive, omega (arith, le, (lengths key before there).1)),
    λ kept.
        still_polling-id _ q.polling kept ∙ timer (λ e. kept (process_keys-none now q.queues s e)),
  )

  unfoldable pub run : RequestQueue × S → List Event → RequestQueue × S
  run state [] = state
  run state (e ∷ es) = run (step state e) es

  run_from-IsServed :
      (q : RequestQueue) (s : S) (events : List Event) → IsServed q → IsServed (run (q, s) events).0
  unfolding run step stop
  run_from-IsServed q s [] served = served
  run_from-IsServed q s (enqueues key limit w id now ∷ es) served =
      run_from-IsServed (enqueue q key limit w id now).0 s es
        (enqueue-IsServed q key limit w id now served)
  run_from-IsServed q s (ticks now ∷ es) served =
      let (s', (q', _)) = process_all_pending_requests limiter q now s in
      run_from-IsServed q' s' es (tick-IsServed q now s served)
  run_from-IsServed q s (stops ∷ es) served =
      run_from-IsServed (stop q).0 s es (λ key state m. absurd m, λ h. absurd (h refl))

  -- After any history of requests, ticks of the timer and stops, whatever the limiter answers, each key of
  -- the queue has a request that waits and at most `max_queue_size` of them, and while a key waits the
  -- timer runs.
  pub run-IsServed :
      (config : QueueConfig) (s : S) (events : List Event)
      → IsServed (run (create config, s) events).0
  run-IsServed config s events =
      run_from-IsServed (create config) s events (λ key state m. absurd m, λ h. absurd (h refl))
