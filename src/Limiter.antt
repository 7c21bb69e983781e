-- ===== src/Limiter.antt =====
-- The sliding window limiter of src/rate-limit/limiter.ts. Each call of `Date.now()` in an operation is
-- an argument of its own. `t >= now - window` is written as a sum, which means the same over the
-- integers, and `Math.floor(maxBuckets * 0.9)` as a quotient.
pub mod Keys
pub mod Bounds
pub mod Tracking
pub mod History
pub mod Loads
pub mod Resets
mod Tests
use mcp_conduit.Base.{
  ℕ, zero, suc, ◌+◌, ◌-◌, ◌*◌, ◌/◌, max, Bool, true, false, not, List, [], ◌∷◌, ◌++◌, keep, length,
  Option, none, some, ltb, leb, ◌==◌, if◌then◌else◌,
}
use mcp_conduit.Base.Decimal.{decimal}
use mcp_conduit.Base.JsMap
use mcp_conduit.Base.Text.{Text, text_dec, starts_with}

pub record RateLimitResult : Type 0 where
  pub allowed : Bool
  pub remaining : ℕ
  pub limit : ℕ
  pub reset_at : ℕ
  pub retry_after : Option ℕ

pub record SlidingWindowLimiter : Type 0 where
  pub store : List (Text × List ℕ)
  pub max_buckets : ℕ

abbrev pub empty : ℕ → SlidingWindowLimiter
empty max_buckets = record { store = []; max_buckets = max_buckets }

-- `${key}:${window_ms}`
unfoldable pub storage_key : Text → ℕ → Text
storage_key key window_ms = key ++ b':' ∷ decimal window_ms

-- `t >= now - window_ms`
abbrev pub is_recent : ℕ → ℕ → ℕ → Bool
is_recent now window_ms t = leb now (t + window_ms)

-- The three ways to write the valid timestamps of a bucket back.
prune : SlidingWindowLimiter → Text → List ℕ → List ℕ → SlidingWindowLimiter
prune l sk all [] = record l { store = JsMap.delete text_dec sk l.store }
prune l sk all (t ∷ valid) =
    if length (t ∷ valid) == length all
    then l
    else record l { store = JsMap.put text_dec sk (t ∷ valid) l.store }

unfoldable pub get_valid : SlidingWindowLimiter → Text → ℕ → ℕ → SlidingWindowLimiter × List ℕ
unfolding prune
get_valid l sk window_ms now = elim (JsMap.get text_dec sk l.store) [
  | none ↦ (l, [])
  | some all ↦ let valid = keep (is_recent now window_ms) all in (prune l sk all valid, valid)
]

-- The loop deletes the oldest keys until the target is reached.
evict_to : ℕ → List (Text × List ℕ) → List (Text × List ℕ)
evict_to target [] = []
evict_to target (e ∷ m) =
    let rest = evict_to target m in if ltb target (length (e ∷ m)) then rest else e ∷ m

unfoldable pub evict_if_full : SlidingWindowLimiter → SlidingWindowLimiter
unfolding evict_to
evict_if_full l =
    if ltb (length l.store) l.max_buckets
    then l
    else record l { store = evict_to (l.max_buckets * 9 / 10) l.store }

-- `oldestTs !== undefined ? oldestTs + window_ms : Date.now() + window_ms`
reset_time : List ℕ → ℕ → ℕ → ℕ
reset_time [] window_ms now = now + window_ms
reset_time (t ∷ ts) window_ms now = t + window_ms

-- `Math.max(1, Math.ceil(retryMs / 1000))`; a negative wait gives 1 as well.
retry_seconds : ℕ → ℕ → ℕ
retry_seconds reset_at now = max 1 ((reset_at - now + 999) / 1000)

-- The calls of `Date.now()` in one operation, in their order.
pub record Readings : Type 0 where
  pub valid_at : ℕ
  pub reset_from : ℕ
  pub retry_from : ℕ

unfoldable pub check :
    SlidingWindowLimiter → Text → ℕ → ℕ → Readings → SlidingWindowLimiter × RateLimitResult
unfolding reset_time retry_seconds storage_key
check l key limit window_ms now =
    let (l', valid) = get_valid l (storage_key key window_ms) window_ms now.valid_at in
    let allowed = ltb (length valid) limit in
    let reset_at = reset_time valid window_ms now.reset_from in
    (
      l',
      record {
        allowed = allowed;
        remaining = limit - length valid;
        limit = limit;
        reset_at = reset_at;
        retry_after = if allowed then none else some (retry_seconds reset_at now.retry_from);
      },
    )

-- A bucket that is new makes room first.
make_room : SlidingWindowLimiter → Text → SlidingWindowLimiter
make_room l sk = if JsMap.has text_dec sk l.store then l else evict_if_full l

-- In the branch that grants, `reset_from` is the time that is recorded.
unfoldable pub consume :
    SlidingWindowLimiter → Text → ℕ → ℕ → Readings → SlidingWindowLimiter × RateLimitResult
unfolding make_room reset_time retry_seconds storage_key
consume l key limit window_ms now =
    let sk = storage_key key window_ms in
    let (l', valid) = get_valid l sk window_ms now.valid_at in
    if leb limit (length valid)
    then (let reset_at = reset_time valid window_ms now.reset_from in
        (
          l',
          record {
            allowed = false;
            remaining = 0;
            limit = limit;
            reset_at = reset_at;
            retry_after = some (retry_seconds reset_at now.retry_from);
          },
        ))
    else (let roomy = make_room l' sk in
        (
          record roomy { store = JsMap.put text_dec sk (valid ++ now.reset_from ∷ []) roomy.store },
          record {
            allowed = true;
            remaining = limit - length (valid ++ now.reset_from ∷ []);
            limit = limit;
            reset_at = now.reset_from + window_ms;
            retry_after = none;
          },
        ))

-- The count, and the oldest timestamp.
unfoldable pub get_usage : SlidingWindowLimiter → Text → ℕ → ℕ → ℕ → SlidingWindowLimiter × (ℕ × ℕ)
unfolding storage_key
get_usage l key window_ms now later =
    let (l', valid) = get_valid l (storage_key key window_ms) window_ms now in
    (l', (length valid, elim valid [ [] ↦ later | t ∷ ts ↦ t ]))

-- All windows of a key, whose storage keys start with `${key}:`.
unfoldable pub reset : SlidingWindowLimiter → Text → SlidingWindowLimiter
reset l key = record l { store = keep (λ e. not (starts_with (key ++ b':' ∷ []) e.0)) l.store }

unfoldable pub reset_all : SlidingWindowLimiter → SlidingWindowLimiter
reset_all l = record l { store = [] }
