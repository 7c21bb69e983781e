-- ===== src/Inflight.antt =====
-- The requests in flight, the class InflightTracker of src/cache/inflight.ts.
use mcp_conduit.Base.{
  ℕ, ◌+◌, ◌≡◌, Bool, true, false, List, [], ◌∷◌, map, length, Option, none, some, ℕ_discrete,
}
use mcp_conduit.Base.JsMap
use mcp_conduit.Base.Text.{Text, text_dec}
pub mod SingleFlight
pub mod Tests

-- A promise is its number, in the order in which the factories have returned them.
pub record InflightEntry : Type 0 where
  pub promise : ℕ
  pub started_at : ℕ
  pub coalesced : ℕ

-- The map `inflight`, the promises of factories that are not settled with the keys that their
-- `finally` callbacks delete, and the number of promises so far.
pub record InflightTracker : Type 0 where
  pub inflight : List (Text × InflightEntry)
  pub running : List (ℕ × Text)
  pub promises : ℕ

unfoldable pub create : InflightTracker
create = record { inflight = []; running = []; promises = 0 }

-- What a caller of `deduplicate` waits for: the promise of an earlier caller or its own. A factory
-- that throws before it returns a promise throws to its caller.
pub data Answer : Type 0 where
  awaits_shared : ℕ → Answer
  awaits_own : ℕ → Answer
  threw : Answer

unfoldable pub coalesce : InflightEntry → InflightEntry
coalesce e = record e { coalesced = e.coalesced + 1 }

-- A caller finds the entry of its key, or none and calls its factory, which gives a promise unless it
-- throws at once.
unfoldable pub ask :
    InflightTracker → Text → Bool → ℕ → Option InflightEntry → InflightTracker × Answer
unfolding coalesce
ask t key throws now (some existing) = (
  record t { inflight = JsMap.put text_dec key (coalesce existing) t.inflight },
  awaits_shared existing.promise,
)
ask t key true now none = (t, threw)
ask t key false now none = (
  record {
    inflight =
        JsMap.put text_dec key (record { promise = t.promises; started_at = now; coalesced = 0 })
          t.inflight;
    running = JsMap.put ℕ_discrete t.promises key t.running;
    promises = t.promises + 1;
  },
  awaits_own t.promises,
)

-- `deduplicate` up to its `await`, at the time `now`; `throws` says that the factory throws before
-- it returns a promise.
unfoldable pub deduplicate : InflightTracker → Text → Bool → ℕ → InflightTracker × Answer
unfolding ask
deduplicate t key throws now = ask t key throws now (JsMap.get text_dec key t.inflight)

-- The promise `p` settles; its key is the one that its `finally` callback deletes.
unfoldable pub forget : InflightTracker → ℕ → Option Text → InflightTracker
forget t p none = t
forget t p (some key) = record t {
  inflight = JsMap.delete text_dec key t.inflight;
  running = JsMap.delete ℕ_discrete p t.running;
}

unfoldable pub settle : InflightTracker → ℕ → InflightTracker
unfolding forget
settle t p = forget t p (JsMap.get ℕ_discrete p t.running)

-- `size`
unfoldable pub size : InflightTracker → ℕ
size t = length t.inflight

-- `getInflightSnapshot`
unfoldable pub get_inflight_snapshot : InflightTracker → List (Text × (ℕ × ℕ))
get_inflight_snapshot t = map (λ e. (e.0, (e.1.started_at, e.1.coalesced))) t.inflight

-- `has`
unfoldable pub has : InflightTracker → Text → Bool
has t key = JsMap.has text_dec key t.inflight

-- What happens to a tracker: a caller asks for a key, or a promise settles.
pub data Event : Type 0 where
  asks : Text → Bool → ℕ → Event
  settles : ℕ → Event

unfoldable pub step : InflightTracker → Event → InflightTracker
unfolding deduplicate settle
step t (asks key throws now) = (deduplicate t key throws now).0
step t (settles p) = settle t p

unfoldable pub run : InflightTracker → List Event → InflightTracker
unfolding step
run t [] = t
run t (e ∷ es) = run (step t e) es
